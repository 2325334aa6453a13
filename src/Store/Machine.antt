-- ===== src/Store/Machine.antt =====
-- The document state machine of docs/ARCHITECTURE.md over every statement that the program issues on
-- the table documents: any number of API replicas, pollers and OCR workers are a sequence of
-- statements, each with its instant.
pub mod Step
pub mod History
pub mod Runs
pub mod Attempts
pub mod Quota
use tax_deeds.Store.Statements.{
  fail_exhausted, return_for_retry, claim, mark_ocr_failed, mark_ocr_done, set_ocr_dispatched,
  set_page_count, mark_failed, update_status, create,
}
use tax_deeds.Text.{codes, Text}
use tax_deeds.Store.{
  failed, extracted, extracting, ocr_done, Duration, processing, uploaded, Document, Documents,
  Status,
}
use tax_deeds.Base.{
  ℕ, zero, suc, ◌+◌, ◌-◌, ◌*◌, ◌≤◌, ◌<◌, ◌≡◌, ◌≢◌, refl, sym, ap, ◌∙◌, ◌↔◌, ◌⊎◌, inl, inr, Bool,
  true, false, ◌&&◌, ◌||◌, not, Option, none, some, List, [], ◌∷◌, ◌++◌, map, arith, ltb, leb, ◌==◌,
  if◌then◌else◌, Bool-cases, All, length,
}

-- The statements, with the literal arguments that their callers pass.
pub data Statement : Type 0 where
  insert : Text → Text → Text → Text → Statement  -- Create
  start_ingest : Text → Statement  -- UpdateStatus, uploaded to processing
  fail_ingest : Text → Text → Text → Statement  -- MarkFailed from processing: id, stage, message
  count_pages : Text → ℕ → Statement  -- SetPageCount
  dispatch : Text → Statement  -- SetOCRDispatched
  finish_ocr : Text → Statement  -- MarkOCRDone
  fail_ocr : Text → Text → Statement  -- MarkFailed of the OCR worker
  claim_next : (Document → Bool) → Statement  -- ClaimForExtraction beside the rows that are locked
  finish_extraction : Text → Statement  -- UpdateStatus, extracting to extracted
  fail_extraction : Text → Text → Statement  -- MarkFailed from extracting: id, message
  retry : Text → Duration → Statement  -- ReturnForRetry
  give_up : Statement  -- FailExhausted

module _ (max : ℕ) where
  unfoldable pub apply : ℕ → Statement → Documents → Documents
  apply now (insert id filename bucket object) ds = (create now id filename bucket object ds).1
  apply now (start_ingest id) ds = (update_status now id uploaded processing ds).1
  apply now (fail_ingest id stage msg) ds = (mark_failed now id processing stage msg ds).1
  apply now (count_pages id n) ds = set_page_count now id n ds
  apply now (dispatch id) ds = set_ocr_dispatched now id ds
  apply now (finish_ocr id) ds = (mark_ocr_done now id ds).1
  apply now (fail_ocr id msg) ds = mark_ocr_failed now id msg ds
  apply now (claim_next locked) ds = (claim max now locked ds).1
  apply now (finish_extraction id) ds = (update_status now id extracting extracted ds).1
  apply now (fail_extraction id msg) ds =
      (mark_failed now id extracting (codes "extraction") msg ds).1
  apply now (retry id backoff) ds = return_for_retry now id backoff ds
  apply now give_up ds = (fail_exhausted now max ds).1

  unfoldable pub run : List (ℕ × Statement) → Documents → Documents
  run [] ds = ds
  run ((now, s) ∷ rest) ds = run rest (apply now s ds)

-- The transitions of the diagram, and staying.
infix 40 ◌⟶◌
pub data ◌⟶◌ : Status → Status → Type 0 where
  ingest : uploaded ⟶ processing
  recognise : processing ⟶ ocr_done
  start : ocr_done ⟶ extracting
  store : extracting ⟶ extracted
  requeue : extracting ⟶ ocr_done
  fail_early : processing ⟶ failed
  exhaust : ocr_done ⟶ failed
  refuse : extracting ⟶ failed
  stay : {s : Status} → s ⟶ s
