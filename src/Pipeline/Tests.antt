-- ===== src/Pipeline/Tests.antt =====
-- One extraction, from the table of the documents to the answer of the API.
use tax_deeds.Store.Find.{IsKeyed}
use tax_deeds.Pipeline.Delivered.{turn-Delivers, AnswersWith, Delivers}
use tax_deeds.Store.Statements.{oldest, claim_picked, claimed, claim}
use tax_deeds.Llm.Enums.{
  one_of, check_onus, check_proprietarios, check_atos, check_partes, enum_ok, validate_enums,
}
use tax_deeds.Extraction.Poller.{turn_from, Turn}
use mathlib.Core.Path.{subst}
use tax_deeds.Pipeline.{aggregate_tables}
use tax_deeds.Aggregate.Stored.{AllDated}
use tax_deeds.Aggregate.Save.{
  ato_id, onus_row, onus_rows, proprietario_row, proprietario_rows, parte_row, parte_rows, ato_row,
  ato_rows, matricula_row, extraction_row, save_aggregate,
}
use tax_deeds.Failure.{ok}
use tax_deeds.Samples.{waiting, tokens, ascii, sitio, started}
use tax_deeds.Dto.{ExtractedMatricula}
use tax_deeds.Aggregate.{Aggregates}
use tax_deeds.Llm.Chain.{Answer}
use tax_deeds.Aggregate.Tests.{
  no_rows-IsSound, no_fault, id_text, no_rows, plain_db-IsPostgres, plain_db,
}
use tax_deeds.Text.{rune_lower, to_lower, is_space, trim_left, trim_space, codes, same, Text}
use tax_deeds.Store.{update_rows, Document, OcrRow, find}
use tax_deeds.Extraction.Service.{
  insert_by_page, results_by_document, finish, saved, answered, loaded, extract_from, Faults,
  extract, World,
}
use tax_deeds.Dates.{
  format_date, skip, digits4, digits2, parse_from, parse_date, first_parse, normalize_date, IsDate,
  Date, days_in,
}
use tax_deeds.Normalize.{normalize_onus, normalize_parte, derive_status, normalize_ato, normalize}
use tax_deeds.Pipeline.Answered.{extract_document-IsAnswered, IsAnswered, asked, AnswerDated}
use tax_deeds.Base.{false, ℕ, ◌+◌, ◌≡◌, refl, inl, inr, none, some, [], ◌∷◌, arith}

abbrev digit : ℕ → Text
digit n = (b'0' + n) ∷ []

abbrev answering : Text → Answer (ExtractedMatricula ℕ × Text)
answering text = record { result = ok (sitio, codes "{x}"); usage = tokens }

abbrev no_faults : Faults
no_faults = record {
  load_fault = none;
  finish_fault = none;
  requeue_fault = none;
  fail_fault = none;
}

abbrev page : OcrRow ℕ
page = record {
  document_id = codes "a";
  page_number = 1;
  text = codes "R-1";
  confidence = none;
  engine = codes "glm";
}

abbrev busy : World ℕ (Aggregates ℕ)
busy = record { documents = started ∷ []; ocr_rows = page ∷ []; aggregates = no_rows }

found_started : find started.id busy.documents ≡ some started
unfolding find same
found_started = refl

abbrev sold : Date
sold = record { year = 1999; month = 2; day = 3 }

sold-IsDate : IsDate sold
unfolding days_in
sold-IsDate = record {
  year_short = omega arith;
  month_pos = omega arith;
  month_le = omega arith;
  day_pos = omega arith;
  day_le = omega arith;
}

sitio-AllDated : AllDated (normalize ascii sitio)
unfolding normalize normalize_ato normalize_date trim_space trim_left is_space first_parse
    parse_date parse_from digits2 digits4 skip days_in format_date
sitio-AllDated = record {
  opened = inl refl;
  acts = (inr (sold, sold-IsDate, omega arith, refl), (inl refl, tt));
}

answer_dated :
    AnswerDated plain_db plain_db-IsPostgres id_text no_fault ascii digit answering
      (codes "m")
      (codes "v1")
      9
      no_faults
      started
      busy
answer_dated m raw h =
    let e : sitio ≡ m = cc h in subst (λ x. AllDated (normalize ascii x)) e sitio-AllDated

extracted_well :
    (extract
      (aggregate_tables plain_db no_fault)
      ascii
      digit
      answering
      (codes "m")
      (codes "v1")
      9
      no_faults
      started
      busy).0
    ≡ none
unfolding extract extract_from loaded answered saved finish results_by_document insert_by_page same
    save_aggregate extraction_row matricula_row ato_rows ato_row parte_rows parte_row
    proprietario_rows proprietario_row onus_rows onus_row ato_id normalize normalize_ato
    normalize_date trim_space trim_left is_space first_parse parse_date parse_from digits2 digits4
    skip days_in format_date derive_status normalize_parte normalize_onus to_lower rune_lower
extracted_well = refl

extract_document-IsAnswered_example :
    (m : ExtractedMatricula ℕ) × (raw : Text) × ((answering (
        asked plain_db plain_db-IsPostgres id_text no_fault ascii digit answering
          (codes "m")
          (codes "v1")
          9
          no_faults
          started
          busy)).result
      ≡ ok (m, raw))
    × IsAnswered plain_db plain_db-IsPostgres id_text no_fault ascii digit answering
        (codes "m")
        (codes "v1")
        9
        no_faults
        started
        busy
        m
extract_document-IsAnswered_example =
    extract_document-IsAnswered plain_db plain_db-IsPostgres id_text no_fault ascii digit answering
      (codes "m") (codes "v1") 9 no_faults started busy started found_started refl no_rows-IsSound
      answer_dated extracted_well

abbrev turn : Turn ℕ
turn = record {
  now = 9;
  locked = λ d. false;
  claim_fault = none;
  faults = no_faults;
  extractor = answering;
}

abbrev queued : World ℕ (Aggregates ℕ)
queued = record { documents = waiting ∷ []; ocr_rows = page ∷ []; aggregates = no_rows }

abbrev taken : Document
taken = claimed 9 waiting

claimed_waiting : claim 3 9 (λ d. false) (waiting ∷ []) ≡ (some taken, taken ∷ [])
unfolding claim claim_picked oldest update_rows same
claimed_waiting = refl

sitio_accepted : validate_enums ascii sitio ≡ none
unfolding validate_enums enum_ok to_lower rune_lower trim_space trim_left is_space check_partes
    check_atos check_proprietarios check_onus same one_of
sitio_accepted = refl

queued_IsKeyed : IsKeyed queued.documents
unfolding find
queued_IsKeyed = (refl, tt)

queued-Delivers :
    Delivers plain_db plain_db-IsPostgres id_text no_fault
      (λ step. refl)
      ascii
      digit
      (codes "m")
      (codes "v1")
      3
      turn
      queued
      taken
      sitio
      (codes "{x}")
unfolding results_by_document insert_by_page same
queued-Delivers = record {
  claims = refl;
  loads = refl;
  finishes = refl;
  has_texts = λ e. cc e;
  answers = refl;
  is_valid = sitio_accepted;
  plain = (inr (inl refl), tt);
  dates = sitio-AllDated;
  json = refl;
}

turn-Delivers_example :
    let next =
      turn_from
        (aggregate_tables plain_db no_fault)
        ascii
        digit
        (codes "m")
        (codes "v1")
        3
        none
        turn
        queued in
    (next.0 ≡ false)
    × AnswersWith plain_db plain_db-IsPostgres id_text no_fault
        (λ step. refl)
        ascii
        digit
        (codes "m")
        (codes "v1")
        3
        turn
        queued
        next.1
        taken
        sitio
turn-Delivers_example =
    turn-Delivers plain_db plain_db-IsPostgres id_text no_fault (λ step. refl) ascii digit
      (codes "m") (codes "v1") 3 turn queued taken (taken ∷ []) sitio (codes "{x}") queued_IsKeyed
      no_rows-IsSound claimed_waiting queued-Delivers
