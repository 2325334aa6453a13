-- ===== src/OcrEngine/Retry.antt =====
-- doWithRetry of internal/ocrengine/engine.go.
use tax_deeds.Failure.{plain, wrapped}
use tax_deeds.OcrEngine.{replied, gives_up, retries, verdict, Verdict, Exchange}
use tax_deeds.OcrWorker.{got, broke, Io, IoError}
use tax_deeds.Text.{codes, Text}
use tax_deeds.Base.{
  ℕ, zero, suc, ◌+◌, ◌≡◌, refl, false, Option, none, some, List, [], ltb, if◌then◌else◌,
}

module _ (text_of : List ℕ → Text) (cancelled : Option IoError) (build : ℕ → Option IoError)
    (exchange : ℕ → Exchange) where
  abbrev pub exhausted : IoError → IoError
  exhausted e = record e { failure = wrapped (codes "after 2 attempts") e.failure }

  abbrev pub after_verdict : Verdict → (IoError → Io (List ℕ)) → Io (List ℕ)
  after_verdict (replied body) again = got body
  after_verdict (gives_up e) again = broke e
  after_verdict (retries e) again = again e

  abbrev pub after_build : Option IoError → Exchange → (IoError → Io (List ℕ)) → Io (List ℕ)
  after_build (some e) x again = broke e
  after_build none x again = after_verdict (verdict text_of x) again

  -- The wait before every attempt but the first, in which the context may end.
  abbrev pub after_wait : Option IoError → Io (List ℕ) → Io (List ℕ)
  after_wait none r = r
  after_wait (some e) r = broke e

  unfoldable pub call_loop : ℕ → ℕ → IoError → Io (List ℕ)
  unfolding verdict
  call_loop zero attempt last = broke (exhausted last)
  call_loop (suc k) attempt last =
      let again = call_loop k (attempt + 1) in
      after_wait (if ltb 0 attempt then cancelled else none)
        (after_build (build attempt) (exchange attempt) again)

  -- `lastErr` is nil before the first attempt, of which there is one.
  unfoldable pub do_with_retry : Io (List ℕ)
  unfolding call_loop
  do_with_retry = call_loop 2 0 (record { failure = plain []; timed_out = false })

  -- A body is the reply of the first attempt, or, where the first failed in a way that may clear, of
  -- the second; two attempts that may clear end with the error of the second.
  pub do_with_retry_lem :
      cancelled ≡ none
      → ((n : ℕ) → build n ≡ none)
      → ((body : List ℕ) → verdict text_of (exchange 0) ≡ replied body → do_with_retry ≡ got body)
        × ((e : IoError) → verdict text_of (exchange 0) ≡ gives_up e → do_with_retry ≡ broke e)
        × ((e : IoError) (body : List ℕ)
            → verdict text_of (exchange 0) ≡ retries e
            → verdict text_of (exchange 1) ≡ replied body
            → do_with_retry ≡ got body)
        × ((e f : IoError)
            → verdict text_of (exchange 0) ≡ retries e
            → verdict text_of (exchange 1) ≡ retries f
            → do_with_retry ≡ broke (exhausted f))
  unfolding do_with_retry call_loop
  do_with_retry_lem alive built = (
    λ body h. rw (built 0, h) refl,
    λ e h. rw (built 0, h) refl,
    λ e body h k. rw (built 0, h, alive, built 1, k) refl,
    λ e f h k. rw (built 0, h, alive, built 1, k) refl,
  )
