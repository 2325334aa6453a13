-- ===== src/OcrWorker/Tests.antt =====
-- A job of two pages, of which the second is done first.
use tax_deeds.Handlers.Upload.{get_ocr}
use tax_deeds.Pipeline.Transcribed.{job-IsTranscribed, IsTranscribed}
use tax_deeds.Text.Laws.{same_iff}
use tax_deeds.OcrWorker.Pool.Texts.{AnswersPass}
use tax_deeds.OcrWorker.Pool.Bounds.{recognize_all_ends}
use tax_deeds.Samples.{waiting}
use tax_deeds.Text.{codes, same, Text}
use tax_deeds.OcrClient.{upsert_page, PageRef}
use tax_deeds.OcrWorker.Settled.{process_settles_job, JobSettled}
use tax_deeds.OcrWorker.Pool.{
  ended, start, rest, step, pool_start, Runs, pool_result, Step, IsOver, Pool,
}
use tax_deeds.OcrWorker.Env.{page_concurrency, read_int}
use tax_deeds.OcrWorker.{process_result, page, got, Recognized, Io, PageIo, Engine}
use tax_deeds.Store.{processing, OcrRow, find, Document}
use tax_deeds.Base.{
  sym, Bool, ℕ, ◌+◌, ◌*◌, ◌≤◌, ◌≡◌, refl, ◌⊎◌, true, none, some, List, [], ◌∷◌, arith, length,
}

abbrev first_page : PageRef
first_page = record { page_number = 1; gcs_bucket = codes "b"; gcs_object = codes "o1" }

abbrev second_page : PageRef
second_page = record { page_number = 2; gcs_bucket = codes "b"; gcs_object = codes "o2" }

abbrev both : List PageRef
both = first_page ∷ second_page ∷ []

abbrev glm : Engine
glm = record { name = codes "glm-ocr"; needs_image = true }

abbrev reading : Io (Recognized ℕ)
reading = got (record { text = codes "R-1"; confidence = none })

abbrev works : PageIo ℕ
works = record {
  download = λ bucket object. got [];
  recognize = λ n png. reading;
  upsert_fault = none;
}

abbrev digit : ℕ → Text
digit n = (b'0' + n) ∷ []

abbrev row_of : ℕ → OcrRow ℕ
row_of n = record {
  document_id = codes "a";
  page_number = n;
  text = codes "R-1";
  confidence = none;
  engine = codes "glm-ocr";
}

abbrev over : Pool ℕ
over = record {
  pending = [];
  running = [];
  rows = row_of 2 ∷ row_of 1 ∷ [];
  first_error = none;
  cause = none;
}

-- An environment without variables.
abbrev unset : Text → Text
unset key = []

two_at_a_time : page_concurrency unset ≡ 2
unfolding read_int
two_at_a_time = refl

interleaved :
    Runs digit glm (codes "a") (page_concurrency unset) (λ p. works) (pool_start both []) 4 over
unfolding read_int page upsert_page same
interleaved =
    step
      (step
        (step (step rest (start first_page (second_page ∷ []) refl refl (omega arith)))
          (start second_page [] refl refl (omega arith)))
        (ended [] second_page (first_page ∷ []) refl))
      (ended [] first_page [] refl)

recognize_all_ends_example :
    (length over.running ≤ page_concurrency unset)
    × (4 ≤ 2 * length both + 1)
    × (IsOver over
        ⊎ ((s' : Pool ℕ) × Step digit glm
              (codes "a")
              (page_concurrency unset)
              (λ p. works)
              over
              s'))
recognize_all_ends_example =
    recognize_all_ends digit glm (codes "a") unset both [] (λ p. works) interleaved

-- The text that the engine answers.
abbrev is_answer : ℕ → Text → Bool
is_answer n s = same s (codes "R-1")

answers_pass : AnswersPass digit glm (codes "a") is_answer (λ p. works)
answers_pass p png r e =
    let text : codes "R-1" ≡ r.text = cc e in (same_iff r.text (codes "R-1")).1 (sym text)

abbrev in_work : Document
in_work = record waiting { status = processing }

found_in_work : find (codes "a") (in_work ∷ []) ≡ some in_work
unfolding find same
found_in_work = refl

process_settles_job_example :
    JobSettled
      (codes "8m0s")
      none
      none
      9
      (codes "a")
      digit
      glm
      is_answer
      both
      over.rows
      in_work
      (pool_result over)
      (find
        (codes "a")
        (process_result (codes "8m0s") none none 9 (codes "a") (pool_result over) (in_work ∷ [])))
process_settles_job_example =
    process_settles_job (codes "8m0s") none none 9 (codes "a") digit glm is_answer
      (page_concurrency unset) (λ p. works) both [] (in_work ∷ []) in_work answers_pass interleaved
      (refl, refl) found_in_work refl

job-IsTranscribed_example : IsTranscribed digit glm is_answer (codes "a") both in_work (
    get_ocr none none
      (process_result (codes "8m0s") none none 9 (codes "a") (pool_result over) (in_work ∷ []))
      over.rows
      (codes "a"))
job-IsTranscribed_example =
    job-IsTranscribed digit glm is_answer (codes "a") (codes "8m0s") none 9 (page_concurrency unset)
      (λ p. works) first_page (second_page ∷ []) [] (in_work ∷ []) in_work answers_pass interleaved
      (refl, refl) refl found_in_work refl
