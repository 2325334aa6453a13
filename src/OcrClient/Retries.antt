-- ===== src/OcrClient/Retries.antt =====
-- The attempts of DispatchOCRJob to deliver a job.
use tax_deeds.Failure.{err, ok, Result, plain, Failure}
use tax_deeds.Text.{Text}
use tax_deeds.OcrClient.{
  replied_ok, ServiceReply, post_request, after_attempt, error_or, job_request, waits,
  dispatch_loop, JobRequest, dispatch_job,
}
use tax_deeds.Base.{
  ltb, ==_iff, Option-cases, ℕ, zero, suc, ◌+◌, ◌≤◌, ◌<◌, ◌≡◌, refl, sym, ap, ◌∙◌, ◌↔◌, inl, inr,
  ◌||◌, Option, none, some, List, [], arith, ◌==◌, Bool-cases,
}

attempt_done :
    (wait posted rest : Option Failure)
    → wait ≡ none
    → posted ≡ none
    → after_attempt wait posted rest ≡ none
attempt_done none none rest w p = refl
attempt_done none (some e) rest w p = absurd (cc p)
attempt_done (some e) posted rest w p = absurd (cc w)

attempt_again :
    (wait posted rest : Option Failure) (e : Failure)
    → wait ≡ none
    → posted ≡ some e
    → after_attempt wait posted rest ≡ rest
attempt_again none none rest e w p = absurd (cc p)
attempt_again none (some d) rest e w p = refl
attempt_again (some d) posted rest e w p = absurd (cc w)

module _ (decimal : ℕ → Text) (retries : ℕ) (cancelled : ℕ → Option Failure)
    (post : ℕ → JobRequest → Option Failure) (job : JobRequest)
    (alive : (n : ℕ) → cancelled n ≡ none) where
  waits-none : (n : ℕ) → waits decimal retries cancelled post job n ≡ none
  waits-none n = ground (arith, alive n)

  -- An attempt from `n` on, of those that are left, succeeds.
  abbrev Delivers : ℕ → ℕ → Type 0
  Delivers left n = (k : ℕ) × (n ≤ k) × (k < n + left) × (post k job ≡ none)

  further : (n k : ℕ) (e : Failure) → n ≤ k → post n job ≡ some e → post k job ≡ none → n + 1 ≤ k
  further n k e a p q = elim (Bool-cases (n == k)) [
    | inl t ↦ absurd (cc (p, q, ap (λ i. post i job) ((==_iff n k).0 t)))
    | inr t ↦ ground arith
  ]

  loop-Delivers :
      (left n : ℕ) (last : Failure)
      → (dispatch_loop decimal retries cancelled post job left n last ≡ none) ↔ Delivers left n
  unfolding dispatch_loop
  loop-Delivers zero n last = (λ h. absurd (cc h), λ (k, a, b, p). absurd (omega arith))
  loop-Delivers (suc left) n last =
      let later' = loop-Delivers left (n + 1) (error_or (post n job) last) in
      elim (Option-cases (post n job)) [
        | inl p ↦ (λ h. (n, omega arith, omega arith, p), λ d. attempt_done _ _ _ (waits-none n) p)
        | inr (e, p) ↦
            let again =
              attempt_again _ _
                (dispatch_loop decimal retries cancelled post job left (n + 1)
                  (error_or (post n job) last))
                e (waits-none n) p in
            (
              λ h. let (k, a, b, q) = later'.0 (sym again ∙ h) in (k, omega arith, omega arith, q),
              λ (k, a, b, q). again ∙ later'.1 (k, further n k e a p q, omega arith, q),
            )
      ]

-- An attempt that succeeds, for any outcome of the attempts.
dispatch_job_lem :
    (decimal : ℕ → Text) (cancelled : ℕ → Option Failure) (post : ℕ → JobRequest → Option Failure)
    (id bucket : Text) (objects : List Text)
    → ((n : ℕ) → cancelled n ≡ none)
    → (dispatch_job decimal cancelled post id bucket objects ≡ none)
      ↔ ((n : ℕ) × (n < 3) × (post n (job_request id bucket objects) ≡ none))
unfolding dispatch_job
dispatch_job_lem decimal cancelled post id bucket objects alive =
    let h =
      loop-Delivers decimal 3 cancelled post (job_request id bucket objects) alive 3 0 (plain []) in
    (
      λ d. let (k, a, b, p) = h.0 d in (k, omega arith, p),
      λ (k, b, p). h.1 (k, omega arith, omega arith, p),
    )

-- The service accepted a request: it was built, and answered with a status of the 200s.
abbrev pub Accepts : Option Failure → Result ServiceReply → Type 0
Accepts build reply =
    (build ≡ none) × ((r : ServiceReply) × (reply ≡ ok r) × (200 ≤ r.status) × (r.status ≤ 299))

replied_ok_iff :
    (reply : Result ServiceReply)
    → (replied_ok reply ≡ none)
      ↔ ((r : ServiceReply) × (reply ≡ ok r) × (200 ≤ r.status) × (r.status ≤ 299))
replied_ok_iff (err e) = (λ p. absurd (cc p), λ (r, p, a, b). absurd (cc p))
replied_ok_iff (ok r) = elim (Bool-cases (ltb r.status 200 || ltb 299 r.status)) [
  | inl bad ↦ (
    λ p. absurd (cc (rw bad at p)),
    λ (q, e, a, b). let same_reply : q ≡ r = cc (sym e) in absurd (ground (arith, same_reply)),
  )
  | inr good ↦ (λ p. (r, refl, ground arith, ground arith), λ _. rw good refl)
]

post_request_iff :
    (build : Option Failure) (reply : Result ServiceReply)
    → (post_request build reply ≡ none) ↔ Accepts build reply
unfolding post_request
post_request_iff none reply =
    (λ p. (refl, (replied_ok_iff reply).0 p), λ (_, a). (replied_ok_iff reply).1 a)
post_request_iff (some e) reply = (λ p. absurd (cc p), λ (p, _). absurd (cc p))

-- While the context is not cancelled, DispatchOCRJob returns no error exactly if one of three attempts
-- sends the job (the document, and its objects numbered from 1 in their order) and is answered with a
-- status from 200 to 299.
pub dispatch_job_accepted :
    (decimal : ℕ → Text) (cancelled : ℕ → Option Failure) (build : ℕ → Option Failure)
    (reply : ℕ → JobRequest → Result ServiceReply) (id bucket : Text) (objects : List Text)
    → ((n : ℕ) → cancelled n ≡ none)
    → (dispatch_job decimal cancelled
          (λ n job. post_request (build n) (reply n job))
          id
          bucket
          objects
        ≡ none)
      ↔ ((n : ℕ) × (n < 3) × Accepts (build n) (reply n (job_request id bucket objects)))
dispatch_job_accepted decimal cancelled build reply id bucket objects alive =
    let h =
      dispatch_job_lem decimal cancelled (λ n job. post_request (build n) (reply n job)) id bucket
        objects alive in
    (
      λ d. let (n, lt, p) = h.0 d in (n, lt, (post_request_iff _ _).0 p),
      λ (n, lt, a). h.1 (n, lt, (post_request_iff _ _).1 a),
    )
