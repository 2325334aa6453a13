-- ===== src/Store/Machine/Attempts.antt =====
-- Tables that grew from the empty one, and the rows that a statement brings into them.
use tax_deeds.Store.Find.{IsKeyed, changed, find-update_rows, find-append_none}
use tax_deeds.Store.Machine.Step.{IsValid}
use tax_deeds.Store.{update_rows, find, Document, Documents}
use tax_deeds.Text.{Text}
use tax_deeds.Store.Statements.{
  fail_exhausted, return_for_retry, mark_ocr_failed, mark_ocr_done, set_ocr_dispatched,
  set_page_count, mark_failed, claim, update_status, create, claim_picked, new_document,
  insert_unless,
}
use tax_deeds.Base.{
  Option-cases, ℕ, ◌≡◌, refl, sym, ap, ◌∙◌, inl, inr, Bool, Option, none, some, List, [], ◌∷◌,
  arith,
}
use mathlib.Core.Option
use mathlib.Core.Path.{subst}
use mathlib.Core.Option.{some-injective}
use tax_deeds.Store.Machine.{
  retry, fail_extraction, finish_extraction, fail_ocr, finish_ocr, dispatch, count_pages,
  fail_ingest, start_ingest, insert, claim_next, Statement, run, apply, give_up,
}
use tax_deeds.Store.Machine.History.{apply-Steps}
use tax_deeds.Store.Machine.Runs.{apply-IsKeyed}

module _ (max : ℕ) where
  abbrev pub AllValid : Documents → Type 0
  AllValid ds = (id : Text) (d : Document) → find id ds ≡ some d → IsValid max d

  -- A row that a statement brings into the table.
  abbrev IsFresh : Option Document → Type 0
  IsFresh o = (d : Document) → o ≡ some d → IsValid max d

  update-IsFresh :
      (test : Document → Bool) (set : Document → Document)
      → ((d : Document) → (set d).id ≡ d.id)
      → (id : Text) (ds : Documents) → find id ds ≡ none
      → IsFresh (find id (update_rows test set ds))
  update-IsFresh test set keep id ds p d q =
      absurd (cc (find-update_rows test set keep id ds, ap (Option.map (changed test set)) p, q))

  new-IsValid : (now : ℕ) (i f b o : Text) → IsValid max (new_document now i f b o)
  new-IsValid now i f b o = ground arith

  insert-IsFresh :
      (id : Text) (ds : Documents) (new : Document) (o : Option Document)
      → IsValid max new
      → find id ds ≡ none
      → IsFresh (find id (insert_unless o new ds).1)
  unfolding insert_unless
  insert-IsFresh id ds new none v p d q = ground (arith, find-append_none id ds new p, v)
  insert-IsFresh id ds new (some e) v p d q = cc

  claim-IsFresh :
      (now : ℕ) (id : Text) (ds : Documents) (o : Option Document)
      → find id ds ≡ none
      → IsFresh (find id (claim_picked now o ds).1)
  unfolding claim_picked
  claim-IsFresh now id ds none p d q = absurd (cc (p, q))
  claim-IsFresh now id ds (some c) p d q = update-IsFresh _ _ (λ x. refl) id ds p d q

  apply-IsFresh :
      (now : ℕ) (s : Statement) (id : Text) (ds : Documents)
      → find id ds ≡ none
      → IsFresh (find id (apply max now s ds))
  unfolding apply create update_status mark_failed set_page_count set_ocr_dispatched mark_ocr_done
      mark_ocr_failed return_for_retry fail_exhausted claim
  apply-IsFresh now (insert i f b o) id ds p =
      insert-IsFresh id ds (new_document now i f b o) (find i ds) (new-IsValid now i f b o) p
  apply-IsFresh now (claim_next locked) id ds p = claim-IsFresh now id ds _ p
  apply-IsFresh now (start_ingest i) id ds p = update-IsFresh _ _ (λ x. refl) id ds p
  apply-IsFresh now (fail_ingest i stage msg) id ds p = update-IsFresh _ _ (λ x. refl) id ds p
  apply-IsFresh now (count_pages i n) id ds p = update-IsFresh _ _ (λ x. refl) id ds p
  apply-IsFresh now (dispatch i) id ds p = update-IsFresh _ _ (λ x. refl) id ds p
  apply-IsFresh now (finish_ocr i) id ds p = update-IsFresh _ _ (λ x. refl) id ds p
  apply-IsFresh now (fail_ocr i msg) id ds p = update-IsFresh _ _ (λ x. refl) id ds p
  apply-IsFresh now (finish_extraction i) id ds p = update-IsFresh _ _ (λ x. refl) id ds p
  apply-IsFresh now (fail_extraction i msg) id ds p = update-IsFresh _ _ (λ x. refl) id ds p
  apply-IsFresh now (retry i backoff) id ds p = update-IsFresh _ _ (λ x. refl) id ds p
  apply-IsFresh now give_up id ds p = update-IsFresh _ _ (λ x. refl) id ds p

  apply-AllValid :
      (now : ℕ) (s : Statement) (ds : Documents)
      → IsKeyed ds
      → AllValid ds
      → AllValid (apply max now s ds)
  apply-AllValid now s ds keyed valid id d p = elim (Option-cases (find id ds)) [
    | inl n ↦ apply-IsFresh now s id ds n d p
    | inr (e, q) ↦
        let (f, r, step) = apply-Steps max now s ds keyed id e q in
        subst (IsValid max) (some-injective _ _ (sym r ∙ p)) (step.valid (valid id e q))
  ]

  run-AllValid :
      (l : List (ℕ × Statement)) (ds : Documents)
      → IsKeyed ds
      → AllValid ds
      → IsKeyed (run max l ds) × AllValid (run max l ds)
  unfolding run
  run-AllValid [] ds keyed valid = (keyed, valid)
  run-AllValid ((now, s) ∷ l) ds keyed valid =
      run-AllValid l (apply max now s ds) (apply-IsKeyed max now s ds keyed)
        (apply-AllValid now s ds keyed valid)

  -- Whatever the statements that built the table, no two of its rows have one identifier, and every
  -- row is valid: at most the allowed number of attempts, at least one where extraction began or was
  -- put off, and a stage and a message recorded exactly for the failed rows.
  pub run_from_empty : (l : List (ℕ × Statement)) → IsKeyed (run max l []) × AllValid (run max l [])
  run_from_empty l = run-AllValid l [] tt (λ id d p. unfold find in cc p)
