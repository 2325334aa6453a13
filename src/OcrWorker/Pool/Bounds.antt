-- ===== src/OcrWorker/Pool/Bounds.antt =====
-- recognizeAll recognises a bounded number of pages at a time, and ends.
use tax_deeds.OcrWorker.Env.{read_int_pos, page_concurrency}
use tax_deeds.Store.{OcrRow}
use tax_deeds.OcrWorker.{page, PageIo, JobError, Engine}
use tax_deeds.OcrClient.{PageRef}
use tax_deeds.Text.{codes, Text}
use tax_deeds.OcrWorker.Pool.{
  pool_start, IsOver, keep_first, start, ended, leave, deadline, rest, step, end_page, Runs, Step,
  after_cancel, Pool, Cause,
}
use tax_deeds.Base.{
  ℕ, suc, ◌+◌, ◌*◌, ◌≤◌, ◌<◌, ◌≡◌, refl, ap, ◌∙◌, ◌⊎◌, inl, inr, Option, none, some, List, [], ◌∷◌,
  ◌++◌, arith, length,
}

alive : Option Cause → ℕ
alive none = 1
alive (some c) = 0

alive-after_cancel : (c : Option Cause) → alive (after_cancel c) ≤ alive c
unfolding alive
alive-after_cancel none = omega arith
alive-after_cancel (some c) = omega arith

length-middle {ℓ} :
    {A : Type ℓ} (before : List A) (a : A) (after : List A)
    → length (before ++ a ∷ after) ≡ suc (length (before ++ after))
length-middle [] a after = refl
length-middle (b ∷ before) a after = ap suc (length-middle before a after)

module _ {Num : Type 0} where
  -- The steps that are left at most.
  pub steps_left : Pool Num → ℕ
  unfolding alive
  steps_left s = 2 * length s.pending + length s.running + alive s.cause

  keep_first_left :
      (first : Option JobError) (e : JobError) (s : Pool Num)
      → (steps_left (keep_first first e s) ≤ steps_left s)
        × ((keep_first first e s).running ≡ s.running)
  unfolding steps_left
  keep_first_left none e s = let fewer = alive-after_cancel s.cause in (omega arith, refl)
  keep_first_left (some first) e s = (omega arith, refl)

  -- The end of a goroutine adds no step and starts no page.
  end_page_left :
      (running : List PageRef) (out : Option JobError × List (OcrRow Num)) (s : Pool Num)
      → (steps_left (end_page running out s) ≤ steps_left (record s { running = running }))
        × ((end_page running out s).running ≡ running)
  unfolding steps_left
  end_page_left running (none, rows) s = (omega arith, refl)
  end_page_left running (some e, rows) s =
      let (fewer, same_pages) =
        keep_first_left s.first_error e (record s { running = running; rows = rows }) in
      (fewer, same_pages)

  module _ (decimal : ℕ → Text) (engine : Engine) (document : Text) (concurrency : ℕ)
      (calls : PageRef → PageIo Num) where
    fewer_each :
        {s t : Pool Num}
        → Step decimal engine document concurrency calls s t
        → (steps_left t + 1 ≤ steps_left s)
          × (length s.running ≤ concurrency → length t.running ≤ concurrency)
    unfolding steps_left alive
    fewer_each {s = s} (start p ps e f g) =
        let one : length s.pending ≡ suc (length ps) = ap length e in
        (omega arith, λ h. omega arith)
    fewer_each {s = s} (ended before p after e) =
        let len : length s.running ≡ suc (length (before ++ after)) =
          ap length e ∙ length-middle before p after in
        let (fewer, pages) =
          end_page_left (before ++ after) (page decimal engine document (calls p) p s.rows) s in
        let pages' = ap length pages in (omega arith, λ h. omega arith)
    fewer_each {s = s} (leave p ps c e f) =
        let one : length s.pending ≡ suc (length ps) = ap length e in (omega arith, λ h. h)
    fewer_each {s = s} (deadline e) =
        let on : alive s.cause ≡ 1 = ap alive e in (omega arith, λ h. h)

    fewer_after :
        {s t : Pool Num} {n : ℕ}
        → Runs decimal engine document concurrency calls s n t
        → length s.running ≤ concurrency
        → (steps_left t + n ≤ steps_left s) × (length t.running ≤ concurrency)
    fewer_after rest h = (omega arith, h)
    fewer_after (step r last) h =
        let (left, bound) = fewer_after r h in
        let (left', bound') = fewer_each last in (omega arith, bound' bound)

    -- Unless it is over, something can happen: a page that runs can end, whatever its calls answer,
    -- the loop can start the next one, or it is left.
    progress_at :
        0 < concurrency
        → (s : Pool Num) (pending running : List PageRef) (cause : Option Cause)
        → s.pending ≡ pending
        → s.running ≡ running
        → s.cause ≡ cause
        → IsOver s ⊎ ((s' : Pool Num) × Step decimal engine document concurrency calls s s')
    progress_at pos s [] [] cause e f g = inl (e, f)
    progress_at pos s pending (q ∷ qs) cause e f g = inr (_, ended [] q qs f)
    progress_at pos s (p ∷ ps) [] none e f g =
        let idle : length s.running ≡ 0 = ap length f in inr (_, start p ps e g (omega arith))
    progress_at pos s (p ∷ ps) [] (some c) e f g = inr (_, leave p ps c e g)

  -- With the number of pages that main reads from the environment, at no time do more pages run than
  -- this number; recognizeAll takes at most two steps for each page and one more; and whatever the
  -- calls for the pages answer, it is over or can go on.
  pub recognize_all_ends :
      (decimal : ℕ → Text) (engine : Engine) (document : Text) (env : Text → Text)
      (pages : List PageRef) (rows : List (OcrRow Num)) (calls : PageRef → PageIo Num)
      {s : Pool Num} {n : ℕ}
      → Runs decimal engine document (page_concurrency env) calls (pool_start pages rows) n s
      → (length s.running ≤ page_concurrency env)
        × (n ≤ 2 * length pages + 1)
        × (IsOver s
            ⊎ ((s' : Pool Num) × Step decimal engine document (page_concurrency env) calls s s'))
  unfolding steps_left alive
  recognize_all_ends decimal engine document env pages rows calls {s = s} r =
      let (left, bound) =
        fewer_after decimal engine document (page_concurrency env) calls r (omega arith) in
      (
        bound,
        omega arith,
        progress_at decimal engine document (page_concurrency env) calls
            (read_int_pos env (codes "OCR_PAGE_CONCURRENCY") 2 (omega arith)) s s.pending s.running
            s.cause refl refl refl,
      )
