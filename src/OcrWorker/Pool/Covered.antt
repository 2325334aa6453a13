-- ===== src/OcrWorker/Pool/Covered.antt =====
-- Where recognizeAll returns no error, every page of the job has its text.
use mathlib.Core.Path.{subst}
use tax_deeds.OcrWorker.Pool.{
  pool_result, IsOver, pool_start, keep_first, after_cancel, first_result, Runs, Step, note_error,
  Pool, Cause, start, ended, leave, deadline, rest, step,
}
use tax_deeds.Store.{OcrRow}
use tax_deeds.OcrWorker.{JobError, page, PageIo, Engine}
use tax_deeds.Text.{Text}
use tax_deeds.OcrClient.{PageRef}
use tax_deeds.Base.{
  All-imp, ℕ, ◌≡◌, refl, ◌⊎◌, inl, inr, Bool, Option, none, some, List, [], ◌∷◌, ◌++◌, All,
}
use tax_deeds.OcrWorker.Pool.Texts.{HasText, AnswersPass, page-HasText}

abbrev In : PageRef → List PageRef → Type 0
In p [] = ⊥
In p (q ∷ ps) = (p ≡ q) ⊎ In p ps

In-middle :
    (p : PageRef) (before : List PageRef) (q : PageRef) (after : List PageRef)
    → In p (before ++ q ∷ after)
    → (p ≡ q) ⊎ In p (before ++ after)
In-middle p [] q after h = h
In-middle p (b ∷ before) q after (inl e) = inr (inl e)
In-middle p (b ∷ before) q after (inr h) = elim (In-middle p before q after h) [
  | inl e ↦ inl e
  | inr k ↦ inr (inr k)
]

after_cancel_some : (c : Option Cause) → after_cancel c ≡ none → ⊥
after_cancel_some none h = cc h
after_cancel_some (some c) h = cc h

first_result-none : (e : Option JobError) (c : Option Cause) → first_result e c ≡ none → c ≡ none
first_result-none none none h = refl
first_result-none none (some c) h = cc h
first_result-none (some e) c h = cc h

All-In : (pages : List PageRef) → All (λ q. In q pages) pages
All-In [] = tt
All-In (p ∷ pages) = (inl refl, All-imp _ _ (λ q h. inr h) pages (All-In pages))

module _ {Num : Type 0} (decimal : ℕ → Text) (engine : Engine) (document : Text)
    (good : ℕ → Text → Bool) where
  module _ (concurrency : ℕ) (calls : PageRef → PageIo Num)
      (pass : AnswersPass decimal engine document good calls) (pages : List PageRef) where
    abbrev IsCovered : Pool Num → PageRef → Type 0
    IsCovered s q =
        In q s.pending ⊎ (In q s.running ⊎ HasText decimal engine document good s.rows q)

    -- While the context is not cancelled, no error was kept and no page is lost.
    abbrev NoneLost : Pool Num → Type 0
    NoneLost s = s.cause ≡ none → (s.first_error ≡ none) × All (IsCovered s) pages

    texts_at_end :
        (s : Pool Num)
        → s.pending ≡ []
        → s.running ≡ []
        → (q : PageRef) → IsCovered s q
        → HasText decimal engine document good s.rows q
    texts_at_end s e f q (inl h) = elim (subst (In q) e h) [ ]
    texts_at_end s e f q (inr (inl h)) = elim (subst (In q) f h) [ ]
    texts_at_end s e f q (inr (inr h)) = h

    kept_at_begin :
        (s : Pool Num) (p : PageRef) (ps : List PageRef)
        → s.pending ≡ p ∷ ps
        → (q : PageRef) → IsCovered s q
        → IsCovered (record s { pending = ps; running = p ∷ s.running }) q
    kept_at_begin s p ps e q (inr (inl h)) = inr (inl (inr h))
    kept_at_begin s p ps e q (inr (inr h)) = inr (inr h)
    kept_at_begin s p ps e q (inl h) = elim (subst (In q) e h) [
      | inl same_page ↦ inr (inl (inl same_page))
      | inr k ↦ inl k
    ]

    kept_at_end :
        (s : Pool Num) (before : List PageRef) (p : PageRef) (after : List PageRef)
        (rows : List (OcrRow Num))
        → s.running ≡ before ++ p ∷ after
        → ((q : PageRef)
            → (q ≡ p) ⊎ HasText decimal engine document good s.rows q
            → HasText decimal engine document good rows q)
        → (q : PageRef) → IsCovered s q
        → IsCovered (record s { running = before ++ after; rows = rows }) q
    kept_at_end s before p after rows e keep q (inl h) = inl h
    kept_at_end s before p after rows e keep q (inr (inr h)) = inr (inr (keep q (inr h)))
    kept_at_end s before p after rows e keep q (inr (inl h)) =
        elim (In-middle q before p after (subst (In q) e h)) [
          | inl same_page ↦ inr (inr (keep q (inl same_page)))
          | inr k ↦ inr (inl k)
        ]

    keep_first_alive :
        (first : Option JobError) (e : JobError) (s : Pool Num)
        → (s.cause ≡ none → first ≡ none)
        → (keep_first first e s).cause ≡ none
        → ⊥
    keep_first_alive (some f) e s quiet h = cc (quiet h)
    keep_first_alive none e s quiet h = after_cancel_some s.cause h

    note_error-NoneLost :
        (error : Option JobError) (s : Pool Num)
        → (s.cause ≡ none → s.first_error ≡ none)
        → (error ≡ none → NoneLost s)
        → NoneLost (note_error error s)
    note_error-NoneLost none s quiet kept = kept refl
    note_error-NoneLost (some e) s quiet kept =
        λ h. absurd (keep_first_alive s.first_error e s quiet h)

    Step-NoneLost :
        {s t : Pool Num}
        → Step decimal engine document concurrency calls s t
        → NoneLost s
        → NoneLost t
    Step-NoneLost {s = s} (start p ps e f g) h =
        λ k. ((h k).0, All-imp _ _ (kept_at_begin s p ps e) pages (h k).1)
    Step-NoneLost {s = s} (leave p ps c e f) h = λ k. cc (k, f)
    Step-NoneLost {s = s} (deadline e) h = λ k. cc k
    Step-NoneLost {s = s} (ended before p after e) h =
        note_error-NoneLost (page decimal engine document (calls p) p s.rows).0
          (record s {
            running = before ++ after;
            rows = (page decimal engine document (calls p) p s.rows).1;
          })
          (λ k. (h k).0)
          (λ worked k. (
            (h k).0,
            All-imp _ _
                (kept_at_end s before p after _ e (λ q.
                  page-HasText decimal engine document good (calls p) p q s.rows (pass p) worked))
                pages (h k).1,
          ))

    Runs-NoneLost :
        {s t : Pool Num} {n : ℕ}
        → Runs decimal engine document concurrency calls s n t
        → NoneLost s
        → NoneLost t
    Runs-NoneLost rest h = h
    Runs-NoneLost (step r last) h = Step-NoneLost last (Runs-NoneLost r h)

    -- Where recognizeAll ends without an error, every page has its text.
    pub Runs-HasText :
        (rows : List (OcrRow Num)) {s : Pool Num} {n : ℕ}
        → Runs decimal engine document concurrency calls (pool_start pages rows) n s
        → IsOver s
        → pool_result s ≡ none
        → All (HasText decimal engine document good s.rows) pages
    Runs-HasText rows {s = s} r (done, ended_all) h =
        let (quiet, covered) =
          Runs-NoneLost r (λ _. (refl, All-imp _ _ (λ q k. inl k) pages (All-In pages)))
            (first_result-none s.first_error s.cause h) in
        All-imp _ _ (texts_at_end s done ended_all) pages covered
