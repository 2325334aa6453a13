-- ===== src/OcrWorker/Pool.antt =====
-- recognizeAll of cmd/ocr/worker.go: its loop, its goroutines and its context, one step at a time in
-- any order. A goroutine holds its slot of the semaphore from its start to its end; its calls answer
-- anything.
pub mod Bounds
pub mod Texts
pub mod Covered
use tax_deeds.Store.{OcrRow}
use tax_deeds.Failure.{plain}
use tax_deeds.OcrClient.{PageRef}
use tax_deeds.Text.{codes, Text}
use tax_deeds.OcrWorker.{page, PageIo, Engine, JobError}
use tax_deeds.Base.{
  ℕ, zero, suc, ◌+◌, ◌-◌, ◌*◌, ◌≤◌, ◌<◌, ◌≡◌, ◌≢◌, refl, sym, ap, ◌∙◌, ◌↔◌, ◌⊎◌, inl, inr, Bool,
  true, false, ◌&&◌, ◌||◌, not, Option, none, some, List, [], ◌∷◌, ◌++◌, map, arith, ltb, leb, ◌==◌,
  if◌then◌else◌, Bool-cases, All, length,
}

-- `ctx.Err()`
pub data Cause : Type 0 where
  canceled deadline_exceeded : Cause

pub record Pool (Num : Type 0) : Type 0 where
  pub pending : List PageRef  -- which the loop has not come to
  pub running : List PageRef  -- whose goroutine has not ended
  pub rows : List (OcrRow Num)
  pub first_error : Option JobError
  pub cause : Option Cause

-- `context.Canceled` and `context.DeadlineExceeded`
abbrev pub cause_error : Cause → JobError
cause_error canceled = record {
  failure = plain (codes "context canceled");
  timed_out = false;
  store_write = false;
}
cause_error deadline_exceeded = record {
  failure = plain (codes "context deadline exceeded");
  timed_out = true;
  store_write = false;
}

abbrev pub cause_result : Option Cause → Option JobError
cause_result none = none
cause_result (some c) = some (cause_error c)

-- cancel()
abbrev pub after_cancel : Option Cause → Option Cause
after_cancel none = some canceled
after_cancel (some c) = some c

abbrev pub first_result : Option JobError → Option Cause → Option JobError
first_result none c = cause_result c
first_result (some e) c = some e

module _ {Num : Type 0} where
  -- The start of the loop.
  abbrev pub pool_start : List PageRef → List (OcrRow Num) → Pool Num
  pool_start pages rows = record {
    pending = pages;
    running = [];
    rows = rows;
    first_error = none;
    cause = none;
  }

  -- What recognizeAll returns, where its loop and its goroutines have ended.
  abbrev pub pool_result : Pool Num → Option JobError
  pool_result s = first_result s.first_error s.cause

  abbrev pub IsOver : Pool Num → Type 0
  IsOver s = (s.pending ≡ []) × (s.running ≡ [])

  abbrev pub keep_first : Option JobError → JobError → Pool Num → Pool Num
  keep_first none e s = record s { first_error = some e; cause = after_cancel s.cause }
  keep_first (some first) e s = s

  -- The end of a goroutine: the first error is kept and cancels the context.
  abbrev pub note_error : Option JobError → Pool Num → Pool Num
  note_error none s = s
  note_error (some e) s = keep_first s.first_error e s

  abbrev pub end_page : List PageRef → Option JobError × List (OcrRow Num) → Pool Num → Pool Num
  end_page running (error, rows) s = note_error error (record s { running = running; rows = rows })

  -- `calls` is what the calls for a page answer.
  module _ (decimal : ℕ → Text) (engine : Engine) (document : Text) (concurrency : ℕ)
      (calls : PageRef → PageIo Num) where
    pub data Step (s : Pool Num) : Pool Num → Type 0 where
      start :
          (p : PageRef) (ps : List PageRef)
          → s.pending ≡ p ∷ ps
          → s.cause ≡ none
          → length s.running < concurrency
          → Step s (record s { pending = ps; running = p ∷ s.running })
      ended :
          (before : List PageRef) (p : PageRef) (after : List PageRef)
          → s.running ≡ before ++ p ∷ after
          → Step s (end_page (before ++ after) (page decimal engine document (calls p) p s.rows) s)
      leave :
          (p : PageRef) (ps : List PageRef) (c : Cause)
          → s.pending ≡ p ∷ ps
          → s.cause ≡ some c
          → Step s (record s { pending = [] })
      deadline : s.cause ≡ none → Step s (record s { cause = some deadline_exceeded })

    -- A run of n steps.
    pub data Runs (s : Pool Num) : ℕ → Pool Num → Type 0 where
      rest : Runs s 0 s
      step : {n : ℕ} {t t' : Pool Num} → Runs s n t → Step t t' → Runs s (n + 1) t'
