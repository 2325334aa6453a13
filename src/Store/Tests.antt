-- ===== src/Store/Tests.antt =====
-- The theorems on the table documents at small tables.
use tax_deeds.Store.Machine.Attempts.{run_from_empty, AllValid}
use tax_deeds.Store.Machine.Runs.{run_history, RowHistory}
use tax_deeds.Store.Statements.{
  return_for_retry, oldest, claim_picked, mark_ocr_done, set_ocr_dispatched, update_status,
  insert_unless, create, claim,
}
use tax_deeds.Text.{same, codes}
use tax_deeds.Samples.{waiting}
use tax_deeds.Store.Claims.{claim_fits, ClaimFits}
use tax_deeds.Store.{update_rows, ahead, Documents, Document, find}
use tax_deeds.Store.Find.{IsKeyed}
use tax_deeds.Store.Machine.Quota.{extractions_bound, extractions}
use tax_deeds.Store.Machine.{
  finish_ocr, finish_extraction, dispatch, start_ingest, retry, run, claim_next, apply, insert,
  Statement,
}
use tax_deeds.Base.{ℕ, ◌≤◌, ◌≡◌, refl, Bool, false, some, List, [], ◌∷◌}

abbrev table : Documents
table = waiting ∷ []

abbrev free : Document → Bool
free d = false

table-IsKeyed : IsKeyed table
unfolding find
table-IsKeyed = (refl, tt)

found_waiting : find (codes "a") table ≡ some waiting
unfolding find same
found_waiting = refl

-- The document fails once, waits, and is extracted in the second attempt.
abbrev pub second_try : List (ℕ × Statement)
second_try =
    (10, claim_next free)
    ∷ (20, retry (codes "a") (ahead 30))
    ∷ (60, claim_next free)
    ∷ (70, finish_extraction (codes "a"))
    ∷ []

claim_fits_example : ClaimFits 3 9 free table (claim 3 9 free table)
claim_fits_example = claim_fits 3 9 free table table-IsKeyed

run_history_example :
    (d' : Document) × (find (codes "a") (run 3 second_try table) ≡ some d')
    × RowHistory 3 waiting d'
run_history_example = run_history 3 second_try table table-IsKeyed (codes "a") waiting found_waiting

abbrev whole_life : List (ℕ × Statement)
whole_life =
    (1, insert (codes "a") (codes "a.pdf") (codes "b") (codes "o"))
    ∷ (2, start_ingest (codes "a"))
    ∷ (3, dispatch (codes "a"))
    ∷ (5, finish_ocr (codes "a"))
    ∷ second_try

tried_twice : extractions 3 whole_life [] (codes "a") ≡ 2
unfolding extractions apply create insert_unless update_status set_ocr_dispatched mark_ocr_done
    claim claim_picked oldest return_for_retry find update_rows same
tried_twice = refl

run_from_empty_example : IsKeyed (run 3 whole_life []) × AllValid 3 (run 3 whole_life [])
run_from_empty_example = run_from_empty 3 whole_life

extractions_bound_example : extractions 3 whole_life [] (codes "a") ≤ 3
extractions_bound_example = extractions_bound 3 whole_life (codes "a")
