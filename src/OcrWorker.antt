-- ===== src/OcrWorker.antt =====
-- cmd/ocr/worker.go: one job of the OCR service, whose statements are in Store.Statements and, for
-- UpsertPage, in OcrClient. The types of a job are those of internal/clients/ocr, which sends it.
pub mod Pool
pub mod Env
pub mod Settled
pub mod Tests
use tax_deeds.Store.{OcrRow, Documents}
use tax_deeds.Failure.{wrapped, ok, message, plain, err, Failure, Result}
use tax_deeds.OcrClient.{upsert_page, PageRef, JobRequest}
use tax_deeds.Text.{codes, is_empty, Text}
use tax_deeds.Store.Statements.{mark_ocr_done, mark_ocr_failed}
use tax_deeds.Base.{
  ℕ, zero, suc, ◌+◌, ◌-◌, ◌*◌, ◌≤◌, ◌<◌, ◌≡◌, ◌≢◌, refl, sym, ap, ◌∙◌, ◌↔◌, ◌⊎◌, inl, inr, Bool,
  true, false, ◌&&◌, ◌||◌, not, Option, none, some, List, [], ◌∷◌, ◌++◌, map, arith, ltb, leb, ◌==◌,
  if◌then◌else◌, Bool-cases, All, length,
}

-- What `errors.Is` is asked about an error: whether context.DeadlineExceeded is in its chain.
pub record IoError : Type 0 where
  pub failure : Failure
  pub timed_out : Bool

pub data Io {ℓ} (A : Type ℓ) : Type ℓ where
  got : A → Io A
  broke : IoError → Io A

-- An error of recognizeAll, with whether errStore is in its chain.
pub record JobError : Type 0 where
  pub failure : Failure
  pub timed_out : Bool
  pub store_write : Bool

-- Result of internal/ocrengine
pub record Recognized (Num : Type 0) : Type 0 where
  pub text : Text
  pub confidence : Option Num

-- What the calls for one page answer: Download, RecognizePage and UpsertPage.
pub record PageIo (Num : Type 0) : Type 0 where
  pub download : Text → Text → Io (List ℕ)
  pub recognize : ℕ → Option (List ℕ) → Io (Recognized Num)
  pub upsert_fault : Option IoError

-- What the worker knows of its engine.
pub record Engine : Type 0 where
  pub name : Text
  pub needs_image : Bool

-- handleJob: the status of the answer, and the job that is started.
abbrev pub start_job : JobRequest → ℕ × Option JobRequest
start_job req =
    if is_empty req.document_id || ltb (length req.pages) 1 then (400, none) else (202, some req)

unfoldable pub handle_job : Result JobRequest → ℕ × Option JobRequest
handle_job (err e) = (400, none)
handle_job (ok req) = start_job req

abbrev pub downloaded : Io (List ℕ) → Io (Option (List ℕ))
downloaded (got png) = got (some png)
downloaded (broke e) = broke e

module _ (decimal : ℕ → Text) where
  abbrev pub page_error : PageRef → IoError → JobError
  page_error p e = record {
    failure = wrapped (codes "ocr: page " ++ decimal p.page_number) e.failure;
    timed_out = e.timed_out;
    store_write = false;
  }

  abbrev pub store_error : PageRef → IoError → JobError
  store_error p e = record {
    failure = wrapped (codes "store write failed: page " ++ decimal p.page_number) e.failure;
    timed_out = e.timed_out;
    store_write = true;
  }

  module _ {Num : Type 0} (engine : Engine) (document : Text) where
    abbrev pub result_row : PageRef → Recognized Num → OcrRow Num
    result_row p res = record {
      document_id = document;
      page_number = p.page_number;
      text = res.text;
      confidence = res.confidence;
      engine = engine.name;
    }

    -- The image, which is not downloaded for an engine that needs none.
    abbrev pub image : PageIo Num → PageRef → Io (Option (List ℕ))
    image io p =
        if engine.needs_image then downloaded (io.download p.gcs_bucket p.gcs_object) else got none

    abbrev pub write_page :
        PageRef
        → Option IoError
        → Io (Recognized Num)
        → List (OcrRow Num)
        → Option JobError × List (OcrRow Num)
    write_page p fault (broke e) rows = (some (page_error p e), rows)
    write_page p (some e) (got res) rows = (some (store_error p e), rows)
    write_page p none (got res) rows = (none, upsert_page (result_row p res) rows)

    abbrev pub recognize_image :
        PageIo Num
        → PageRef
        → Io (Option (List ℕ))
        → List (OcrRow Num)
        → Option JobError × List (OcrRow Num)
    recognize_image io p (broke e) rows = (some (page_error p e), rows)
    recognize_image io p (got png) rows =
        write_page p io.upsert_fault (io.recognize p.page_number png) rows

    -- page
    unfoldable pub page :
        PageIo Num → PageRef → List (OcrRow Num) → Option JobError × List (OcrRow Num)
    unfolding upsert_page
    page io p rows = recognize_image io p (image io p) rows

-- `len(msg)`, of one character in UTF-8
abbrev pub utf8_width : ℕ → ℕ
utf8_width c = if ltb c 128 then 1 else if ltb c 2048 then 2 else if ltb c 65536 then 3 else 4

unfoldable pub utf8_length : Text → ℕ
utf8_length [] = 0
utf8_length (c ∷ s) = utf8_width c + utf8_length s

abbrev before_text : ℕ → Option Text → Option Text
before_text c none = none
before_text c (some s) = some (c ∷ s)

-- `msg[:n]` where it is a text; `none` if it ends within a character.
unfoldable pub byte_prefix : ℕ → Text → Option Text
byte_prefix n [] = some []
byte_prefix n (c ∷ s) =
    let rest = byte_prefix (n - utf8_width c) s in
    if n == 0 then some [] else if ltb n (utf8_width c) then none else before_text c rest

-- `if len(msg) > 500 { msg = msg[:500] }`
unfoldable pub cut_message : Text → Option Text
unfolding utf8_length byte_prefix
cut_message msg = if ltb 500 (utf8_length msg) then byte_prefix 500 msg else some msg

-- MarkFailed of a message; Postgres refuses what is no UTF-8.
abbrev pub mark_failed_unless : Option Failure → ℕ → Text → Option Text → Documents → Documents
mark_failed_unless (some e) now id msg ds = ds
mark_failed_unless none now id none ds = ds
mark_failed_unless none now id (some msg) ds = mark_ocr_failed now id msg ds

-- fail
unfoldable pub fail_job : Option Failure → ℕ → Text → Failure → Documents → Documents
unfolding cut_message mark_ocr_failed
fail_job fault now id cause ds = mark_failed_unless fault now id (cut_message (message cause)) ds

abbrev pub cause_of : Text → JobError → Failure
cause_of job_timeout e =
    if e.timed_out then plain (codes "ocr: job timed out after " ++ job_timeout) else e.failure

abbrev pub flip_unless : Option Failure → ℕ → Text → Documents → Documents
flip_unless (some e) now id ds = ds
flip_unless none now id ds = (mark_ocr_done now id ds).1

-- process, once recognizeAll has returned
unfoldable pub process_result :
    Text → Option Failure → Option Failure → ℕ → Text → Option JobError → Documents → Documents
unfolding fail_job mark_ocr_done
process_result job_timeout flip_fault fail_fault now id none ds = flip_unless flip_fault now id ds
process_result job_timeout flip_fault fail_fault now id (some e) ds =
    if e.store_write then ds else fail_job fail_fault now id (cause_of job_timeout e) ds
