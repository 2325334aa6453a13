-- ===== src/Extraction/Tests.antt =====
-- The theorems on the extraction service and its poller at one waiting document.
use tax_deeds.Store.Machine.{finish_extraction}
use tax_deeds.Extraction.Poller.Janitor.{rescue_at_lem, rescue_at, IsRescued}
use tax_deeds.Ingest.Settles.{Phase}
use tax_deeds.Ingest.{Pause, DatabaseCall, Env, Tables}
use tax_deeds.Extraction.Outcome.{extract_document_settles, settled_row}
use tax_deeds.Extraction.Poller.Drained.{drain_ends}
use tax_deeds.Failure.{plain, ok}
use tax_deeds.Store.Find.{IsKeyed}
use tax_deeds.Dto.{ExtractedMatricula}
use tax_deeds.Llm.Chain.{Answer}
use tax_deeds.Samples.{tokens, sitio, waiting, started, ascii}
use tax_deeds.Extraction.Poller.{drain, Turn}
use tax_deeds.Text.{same, codes, Text}
use tax_deeds.Extraction.Service.{
  insert_by_page, finish, saved, answered, loaded, extract_document, extract_from, World,
  results_by_document, Faults, AggregateTables, extract,
}
use tax_deeds.Store.{extracting, OcrRow, find, ahead}
use tax_deeds.Extraction.Backoff.{retry_backoff_doubles, pow2, retry_backoff}
use tax_deeds.Base.{
  ℕ, ◌+◌, ◌*◌, ◌≡◌, refl, inr, true, false, Option, none, some, [], ◌∷◌, arith, leb, if◌then◌else◌,
}

retry_backoff_doubles_example :
    retry_backoff 3
    ≡ ahead (if leb (30000000000 * pow2 2) 600000000000 then 30000000000 * pow2 2 else 600000000000)
retry_backoff_doubles_example = retry_backoff_doubles 2 (omega arith)

-- Aggregate tables that hold the last extraction, if any.
abbrev memory : AggregateTables ℕ
memory = record {
  Tables = Option (ExtractedMatricula ℕ);
  save_aggregate = λ id m meta tables. ok (some m);
}

abbrev page : OcrRow ℕ
page = record {
  document_id = codes "a";
  page_number = 1;
  text = codes "R-1";
  confidence = none;
  engine = codes "glm";
}

abbrev digit : ℕ → Text
digit n = (b'0' + n) ∷ []

abbrev answering : Text → Answer (ExtractedMatricula ℕ × Text)
answering text = record { result = ok (sitio, codes "{x}"); usage = tokens }

abbrev no_faults : Faults
no_faults = record {
  load_fault = none;
  finish_fault = none;
  requeue_fault = none;
  fail_fault = none;
}

abbrev busy : World ℕ memory.Tables
busy = record { documents = started ∷ []; ocr_rows = page ∷ []; aggregates = none }

found_started : find started.id busy.documents ≡ some started
unfolding find same
found_started = refl

extracted_well :
    (extract memory ascii digit answering (codes "m") (codes "v1") 9 no_faults started busy).0
    ≡ none
unfolding extract extract_from loaded answered saved finish results_by_document insert_by_page same
extracted_well = refl

extract_document_settles_example :
    find started.id
      (extract_document memory ascii digit answering
        (codes "m")
        (codes "v1")
        9
        no_faults
        started
        busy).documents
    ≡ some (
        settled_row memory ascii digit answering
          (codes "m")
          (codes "v1")
          9
          started
          started
          (extract memory ascii digit answering
            (codes "m")
            (codes "v1")
            9
            no_faults
            started
            busy).0)
extract_document_settles_example =
    extract_document_settles memory ascii digit answering (codes "m") (codes "v1") 9 started
      no_faults refl refl busy started found_started refl

abbrev turn_at : ℕ → Turn ℕ
turn_at now = record {
  now = now;
  locked = λ d. false;
  claim_fault = none;
  faults = no_faults;
  extractor = answering;
}

abbrev idle : World ℕ memory.Tables
idle = record { documents = waiting ∷ []; ocr_rows = page ∷ []; aggregates = none }

idle-IsKeyed : IsKeyed idle.documents
unfolding find
idle-IsKeyed = (refl, tt)

drain_ends_example :
    (drain memory ascii digit (codes "m") (codes "v1") 1 (turn_at 10 ∷ turn_at 20 ∷ []) idle).0
    ≡ true
drain_ends_example =
    drain_ends memory ascii digit (codes "m") (codes "v1") 1 (turn_at 10 ∷ turn_at 20 ∷ []) idle
      idle-IsKeyed (omega arith)

-- The extraction that looked stuck is done after all.
abbrev late_end : DatabaseCall → Pause
late_end c = record { statements = (98, finish_extraction started.id) ∷ []; now = 99 }

abbrev down : Env
down = record {
  status_fault = none;
  read_fault = none;
  temp_fault = none;
  fetch_fault = some (plain (codes "unavailable"));
  convert = ok [];
  upload_page = λ object. none;
  pages_fault = none;
  count_fault = none;
  send_job = λ objects. none;
  stamp_fault = none;
  fail_fault = none;
  pauses = late_end;
}

abbrev stopped : Tables
stopped = record { documents = started ∷ []; pages = [] }

stopped-IsKeyed : IsKeyed stopped.documents
unfolding find
stopped-IsKeyed = (refl, tt)

rescue_at_lem_example :
    Phase started.id
      (IsRescued digit digit 3 extracting)
      (rescue_at digit digit 3 down none started extracting stopped).documents
rescue_at_lem_example =
    rescue_at_lem digit digit 3 down stopped started started refl refl stopped-IsKeyed found_started
      (inr refl)
