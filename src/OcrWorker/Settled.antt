-- ===== src/OcrWorker/Settled.antt =====
-- What a job of the OCR service makes of its document.
use tax_deeds.Text.Laws.{same_iff}
use tax_deeds.Store.Find.{find-eq_id, find-update_rows}
use tax_deeds.OcrWorker.Pool.{pool_result, IsOver, pool_start, Runs, Pool}
use tax_deeds.OcrWorker.Pool.Covered.{Runs-HasText}
use tax_deeds.OcrWorker.Pool.Texts.{AnswersPass, HasText}
use tax_deeds.OcrClient.{PageRef}
use tax_deeds.Store.{
  at_status, update_rows, processing, ocr_done, find, OcrRow, Documents, Document,
}
use tax_deeds.Store.Statements.{with_status, with_failure, mark_ocr_failed, mark_ocr_done}
use tax_deeds.OcrWorker.{
  PageIo, mark_failed_unless, flip_unless, cause_of, fail_job, cut_message, Engine, process_result,
  JobError,
}
use tax_deeds.Failure.{message, Failure}
use tax_deeds.Text.{codes, Text}
use tax_deeds.Base.{
  Bool, ℕ, ◌≡◌, refl, inl, inr, Option, none, some, List, arith, if◌then◌else◌, Bool-cases, All,
}

module _ (job_timeout : Text) (flip_fault fail_fault : Option Failure) (now : ℕ) (id : Text) where
  -- A document that MarkOCRDone moves on, and one that MarkFailed records a message in.
  abbrev done_row : Option Failure → Document → Document
  done_row none d = with_status now ocr_done d
  done_row (some e) d = d

  abbrev failed_row : Option Failure → Option Text → Document → Document
  failed_row none (some msg) d = with_failure now (codes "ocr") msg d
  failed_row none none d = d
  failed_row (some e) msg d = d

  abbrev pub errored_row : JobError → Document → Document
  errored_row e d =
      if e.store_write
      then d
      else failed_row fail_fault (cut_message (message (cause_of job_timeout e))) d

  processing_at :
      (set : Document → Document)
      → ((d : Document) → (set d).id ≡ d.id)
      → (ds : Documents) (d : Document) → find id ds ≡ some d
      → d.status ≡ processing
      → find id (update_rows (at_status id processing) set ds) ≡ some (set d)
  processing_at set keep ds d p q =
      rw (find-update_rows (at_status id processing) set keep id ds, p)
        (ground (arith, same_iff d.id id, find-eq_id id ds d p))

  flip_row :
      (fault : Option Failure) (ds : Documents) (d : Document)
      → find id ds ≡ some d
      → d.status ≡ processing
      → find id (flip_unless fault now id ds) ≡ some (done_row fault d)
  unfolding mark_ocr_done
  flip_row none ds d p q = processing_at _ (λ x. refl) ds d p q
  flip_row (some e) ds d p q = p

  fail_row :
      (fault : Option Failure) (msg : Option Text) (ds : Documents) (d : Document)
      → find id ds ≡ some d
      → d.status ≡ processing
      → find id (mark_failed_unless fault now id msg ds) ≡ some (failed_row fault msg d)
  unfolding mark_ocr_failed
  fail_row none (some msg) ds d p q = processing_at _ (λ x. refl) ds d p q
  fail_row none none ds d p q = p
  fail_row (some e) msg ds d p q = p

  errored :
      (e : JobError) (ds : Documents) (d : Document)
      → find id ds ≡ some d
      → d.status ≡ processing
      → find id (process_result job_timeout flip_fault fail_fault now id (some e) ds)
        ≡ some (errored_row e d)
  unfolding process_result fail_job
  errored e ds d p q = elim (Bool-cases e.store_write) [
    | inl f ↦ rw f p
    | inr f ↦ rw f (fail_row fail_fault _ ds d p q)
  ]

  module _ {Num : Type 0} (decimal : ℕ → Text) (engine : Engine) (good : ℕ → Text → Bool)
      (pages : List PageRef) (rows : List (OcrRow Num)) (d : Document) where
    abbrev pub JobSettled : Option JobError → Option Document → Type 0
    JobSettled none found =
        All (HasText decimal engine id good rows) pages × (found ≡ some (done_row flip_fault d))
    JobSettled (some e) found = found ≡ some (errored_row e d)

    settles :
        (outcome : Option JobError) (ds : Documents)
        → find id ds ≡ some d
        → d.status ≡ processing
        → (outcome ≡ none → All (HasText decimal engine id good rows) pages)
        → JobSettled outcome
            (find id (process_result job_timeout flip_fault fail_fault now id outcome ds))
    settles (some e) ds p q texts = errored e ds d p q
    settles none ds p q texts = (texts refl, unfold process_result in flip_row flip_fault ds d p q)

  -- A job on a document in processing, however its pages interleave and whatever its calls answer: if
  -- recognizeAll returns no error, every page has a row by the engine whose text passes every test that
  -- the answers of the engine for this page number pass, and the document is ocr_done, unless
  -- MarkOCRDone fails; after a failed write of a result the document is as it was; and after
  -- any other error it is failed with the stage "ocr" and the message, or that of the timeout, cut to
  -- 500 bytes, unless MarkFailed fails or the cut ends within a character.
  pub process_settles_job :
      {Num : Type 0} (decimal : ℕ → Text) (engine : Engine) (good : ℕ → Text → Bool)
      (concurrency : ℕ) (calls : PageRef → PageIo Num) (pages : List PageRef)
      (before : List (OcrRow Num)) (ds : Documents) (d : Document) {s : Pool Num} {n : ℕ}
      → AnswersPass decimal engine id good calls
      → Runs decimal engine id concurrency calls (pool_start pages before) n s
      → IsOver s
      → find id ds ≡ some d
      → d.status ≡ processing
      → JobSettled decimal engine good pages s.rows d
          (pool_result s)
          (find id (process_result job_timeout flip_fault fail_fault now id (pool_result s) ds))
  process_settles_job decimal engine good concurrency calls pages before ds d {s = s} pass r over p
        q =
      settles decimal engine good pages s.rows d (pool_result s) ds p q
        (Runs-HasText decimal engine id good concurrency calls pass pages before r over)
