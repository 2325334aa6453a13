-- ===== src/OcrClient/Tests.antt =====
-- The theorem on delivering jobs, at a service that is down for the first attempt.
use tax_deeds.Failure.{err, ok, Result, plain}
use tax_deeds.OcrClient.Retries.{dispatch_job_accepted, Accepts}
use tax_deeds.Text.{codes, Text}
use tax_deeds.OcrClient.{
  page_refs, ServiceReply, post_request, dispatch_loop, job_request, dispatch_job, JobRequest,
}
use tax_deeds.Base.{◌≢◌, ℕ, ◌+◌, ◌<◌, ◌≡◌, refl, ◌↔◌, none, [], ◌∷◌, ltb, if◌then◌else◌}

abbrev digits : ℕ → Text
digits n = (b'0' + n) ∷ []

-- The service is down for the first attempt.
abbrev flaky : ℕ → JobRequest → Result ServiceReply
flaky n job =
    if ltb 0 n
    then ok (record { status = 202; line = codes "202 Accepted" })
    else err (plain (codes "down"))

dispatch_job_accepted_example :
    (dispatch_job digits
        (λ n. none)
        (λ n job. post_request none (flaky n job))
        (codes "a")
        (codes "b")
        (codes "x" ∷ [])
      ≡ none)
    ↔ ((n : ℕ) × (n < 3)
        × Accepts none (flaky n (job_request (codes "a") (codes "b") (codes "x" ∷ []))))
dispatch_job_accepted_example =
    dispatch_job_accepted digits (λ n. none) (λ n. none) flaky (codes "a") (codes "b")
      (codes "x" ∷ []) (λ n. refl)

-- A job that is refused three times is not delivered.
refused_job :
    dispatch_job digits
      (λ n. none)
      (λ n job. post_request none (ok (record { status = 500; line = codes "500" })))
      (codes "a")
      (codes "b")
      []
    ≢ none
unfolding dispatch_job dispatch_loop page_refs post_request
refused_job p = absurd (cc p)
