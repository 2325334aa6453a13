-- ===== src/Extraction/Service.antt =====
-- ExtractDocument and extract of internal/services/extraction/extraction.go, with ResultsByDocument
-- of internal/store/ocr.go.
--
-- The tables of the aggregate are behind the record AggregateTables. A call of the database that
-- fails leaves the tables as they are; which calls fail is in the record Faults.
use tax_deeds.Aggregate.{ExtractionMeta}
use tax_deeds.Extraction.Backoff.{retry_backoff}
use tax_deeds.Store.Statements.{mark_failed, update_status, return_for_retry}
use tax_deeds.Normalize.{normalize}
use tax_deeds.Llm.Chain.{Usage, Answer}
use tax_deeds.Dto.{ExtractedMatricula}
use tax_deeds.Failure.{message, wrapped, is_transient, plain, transient, err, ok, Result, Failure}
use tax_deeds.Text.{codes, same, Unicode, Text}
use tax_deeds.Store.{extracted, extracting, Document, OcrRow, Documents}
use tax_deeds.Base.{ℕ, Option, none, some, List, [], ◌∷◌, ◌++◌, leb, if◌then◌else◌}

-- What extract uses of store.Matriculas: SaveAggregate of a document.
pub record AggregateTables (Num : Type 0) : Type 1 where
  pub Tables : Type 0
  pub save_aggregate : Text → ExtractedMatricula Num → ExtractionMeta → Tables → Result Tables

-- The errors of the calls of the database in one run; `none` where the call succeeds.
pub record Faults : Type 0 where
  pub load_fault : Option Failure  -- ResultsByDocument
  pub finish_fault : Option Failure  -- UpdateStatus
  pub requeue_fault : Option Failure  -- ReturnForRetry
  pub fail_fault : Option Failure  -- MarkFailed

unfoldable pub insert_by_page : {Num : Type 0} → OcrRow Num → List (OcrRow Num) → List (OcrRow Num)
insert_by_page r [] = r ∷ []
insert_by_page r (s ∷ rows) =
    let rest = insert_by_page r rows in
    if leb r.page_number s.page_number then r ∷ s ∷ rows else s ∷ rest

-- ResultsByDocument
unfoldable pub results_by_document : {Num : Type 0} → Text → List (OcrRow Num) → List (OcrRow Num)
unfolding insert_by_page
results_by_document id [] = []
results_by_document id (r ∷ rows) =
    let rest = results_by_document id rows in
    if same r.document_id id then insert_by_page r rest else rest

-- The text that the language model gets; `decimal` is the verb %d.
unfoldable pub page_texts : {Num : Type 0} → (ℕ → Text) → List (OcrRow Num) → Text
page_texts decimal [] = []
page_texts decimal (r ∷ rows) =
    codes "--- Página "
    ++ decimal r.page_number
    ++ codes " ---\n"
    ++ r.text
    ++ codes "\n"
    ++ page_texts decimal rows

-- The tables that an extraction reads and writes.
pub record World (Num Tables : Type 0) : Type 0 where
  pub documents : Documents
  pub ocr_rows : List (OcrRow Num)
  pub aggregates : Tables

-- The documents after a call of the database, which changes nothing if it fails.
abbrev pub unless_fault : Option Failure → Documents → Documents → Documents
unless_fault none after before = after
unless_fault (some e) after before = before

module _ {Num : Type 0} (store : AggregateTables Num) (u : Unicode) (decimal : ℕ → Text)
    (extractor : Text → Answer (ExtractedMatricula Num × Text)) (model prompt_version : Text) where
  abbrev pub meta_of : Text → Usage → ExtractionMeta
  meta_of raw used = record {
    model = model;
    prompt_version = prompt_version;
    raw_response = raw;
    input_tokens = used.input_tokens;
    output_tokens = used.output_tokens;
  }

  -- UpdateStatus at the end; a row that has left `extracting` is only logged.
  unfoldable pub finish :
      ℕ → Option Failure → Text → World Num store.Tables → Option Failure × World Num store.Tables
  finish now (some e) id w =
      (some (transient (wrapped (codes "update status extracting->extracted") e)), w)
  finish now none id w =
      (none, record w { documents = (update_status now id extracting extracted w.documents).1 })

  unfoldable pub saved :
      ℕ
      → Option Failure
      → Text
      → Result store.Tables
      → World Num store.Tables
      → Option Failure × World Num store.Tables
  unfolding finish
  saved now fault id (err e) w = (some (transient (wrapped (codes "persist aggregate") e)), w)
  saved now fault id (ok tables) w = finish now fault id (record w { aggregates = tables })

  unfoldable pub answered :
      ℕ
      → Option Failure
      → Text
      → Usage
      → Result (ExtractedMatricula Num × Text)
      → World Num store.Tables
      → Option Failure × World Num store.Tables
  unfolding saved
  answered now fault id used (err e) w = (some e, w)
  answered now fault id used (ok (m, raw)) w =
      saved now fault id (store.save_aggregate id (normalize u m) (meta_of raw used) w.aggregates) w

  unfoldable pub loaded :
      ℕ
      → Option Failure
      → Text
      → List (OcrRow Num)
      → World Num store.Tables
      → Option Failure × World Num store.Tables
  unfolding answered
  loaded now fault id [] w =
      (some (plain (codes "document is ocr_done but has no ocr_results rows")), w)
  loaded now fault id (r ∷ rows) w =
      let answer = extractor (page_texts decimal (r ∷ rows)) in
      answered now fault id answer.usage answer.result w

  unfoldable pub extract_from :
      ℕ
      → Option Failure
      → Option Failure
      → Text
      → World Num store.Tables
      → Option Failure × World Num store.Tables
  unfolding loaded
  extract_from now (some e) fault id w =
      (some (transient (wrapped (codes "load ocr results") e)), w)
  extract_from now none fault id w = loaded now fault id (results_by_document id w.ocr_rows) w

  unfoldable pub extract :
      ℕ → Faults → Document → World Num store.Tables → Option Failure × World Num store.Tables
  unfolding extract_from
  extract now faults doc w = extract_from now faults.load_fault faults.finish_fault doc.id w

  -- What ExtractDocument does about the error of extract.
  unfoldable pub settle :
      ℕ → Faults → Document → Option Failure → World Num store.Tables → World Num store.Tables
  settle now faults doc none w = w
  settle now faults doc (some e) w =
      if is_transient e
      then record w {
        documents =
            unless_fault faults.requeue_fault
              (return_for_retry now doc.id (retry_backoff doc.extraction_attempts) w.documents)
              w.documents;
      }
      else record w {
        documents =
            unless_fault faults.fail_fault
              (mark_failed now doc.id extracting (codes "extraction") (message e) w.documents).1
              w.documents;
      }

  unfoldable pub extract_document :
      ℕ → Faults → Document → World Num store.Tables → World Num store.Tables
  unfolding extract settle
  extract_document now faults doc w =
      let done = extract now faults doc w in settle now faults doc done.0 done.1
