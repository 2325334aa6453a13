-- ===== src/Store/Machine/Quota.antt =====
-- How often the statements hand one document to an extraction, against the column
-- extraction_attempts.
use tax_deeds.Store.Machine.Runs.{apply-IsKeyed}
use tax_deeds.Text.Laws.{same_iff}
use tax_deeds.Store.Machine.Attempts.{run_from_empty, AllValid}
use tax_deeds.Store.Find.{
  find-eq_id, find-append_some, oldest_found, find-update_rows, find-append_none, IsKeyed,
}
use tax_deeds.Store.Statements.{
  new_document, fail_exhausted, return_for_retry, mark_ocr_failed, mark_ocr_done,
  set_ocr_dispatched, set_page_count, mark_failed, update_status, create, claimed, has_id, claim,
  oldest, claim_picked, insert_unless,
}
use tax_deeds.Store.Machine.{
  give_up, retry, fail_extraction, finish_extraction, fail_ocr, finish_ocr, dispatch, count_pages,
  fail_ingest, start_ingest, insert, run, apply, claim_next, Statement,
}
use tax_deeds.Store.{update_rows, find, Documents, Document}
use tax_deeds.Text.{same, Text}
use tax_deeds.Base.{
  Option-cases, ℕ, ◌+◌, ◌≤◌, ◌≡◌, refl, ap, inl, inr, Bool, Option, none, some, List, [], ◌∷◌,
  arith, if◌then◌else◌,
}

module _ (max : ℕ) where
  -- Whether a claim picked the document: 1 or 0.
  abbrev is_picked : Text → Option Document → ℕ
  is_picked id none = 0
  is_picked id (some c) = if same c.id id then 1 else 0

  abbrev handed : ℕ → Statement → Documents → Text → ℕ
  handed now (claim_next locked) ds id = is_picked id (claim max now locked ds).0
  handed now _ ds id = 0

  -- How often a history hands the document to an extraction.
  unfoldable pub extractions : List (ℕ × Statement) → Documents → Text → ℕ
  extractions [] ds id = 0
  extractions ((now, s) ∷ l) ds id = handed now s ds id + extractions l (apply max now s ds) id

  abbrev attempts_at : Option Document → ℕ
  attempts_at none = 0
  attempts_at (some d) = d.extraction_attempts

  update_attempts :
      (test : Document → Bool) (set : Document → Document)
      → ((d : Document) → (set d).id ≡ d.id)
      → ((d : Document) → (set d).extraction_attempts ≡ d.extraction_attempts)
      → (id : Text) (ds : Documents)
      → attempts_at (find id (update_rows test set ds)) ≡ attempts_at (find id ds) + 0
  update_attempts test set keep keep_count id ds =
      rw (find-update_rows test set keep id ds) (elim (Option-cases (find id ds)) [
        | inl n ↦ rw n refl
        | inr (d, p) ↦ rw p (ground (arith, keep_count d))
      ])

  insert_attempts :
      (id : Text) (ds : Documents) (new : Document) (o : Option Document)
      → new.extraction_attempts ≡ 0
      → attempts_at (find id (insert_unless o new ds).1) ≡ attempts_at (find id ds) + 0
  unfolding insert_unless
  insert_attempts id ds new none z = elim (Option-cases (find id ds)) [
    | inl n ↦ rw (find-append_none id ds new n, n) (ground arith)
    | inr (d, p) ↦ rw (find-append_some id ds (new ∷ []) d p, p) (omega arith)
  ]
  insert_attempts id ds new (some e) z = omega arith

  picked_attempts :
      (now : ℕ) (id : Text) (ds : Documents) (test : Document → Bool) (o : Option Document)
      → IsKeyed ds
      → oldest test ds ≡ o
      → attempts_at (find id (claim_picked now o ds).1)
        ≡ attempts_at (find id ds) + is_picked id (claim_picked now o ds).0
  unfolding claim_picked
  picked_attempts now id ds test none keyed e = omega arith
  picked_attempts now id ds test (some c) keyed e =
      let (t, found) = oldest_found test ds c keyed e in
      rw (find-update_rows (has_id c.id) (claimed now) (λ d. refl) id ds)
        (elim (Option-cases (find id ds)) [
          | inl n ↦ rw n (ground (arith, same_iff c.id id, ap (λ i. find i ds), n, found))
          | inr (d, p) ↦
              let of_id = find-eq_id id ds d p in
              rw p (ground (arith, same_iff c.id id, same_iff d.id c.id, of_id))
        ])

  apply_attempts :
      (now : ℕ) (s : Statement) (ds : Documents) (id : Text)
      → IsKeyed ds
      → attempts_at (find id (apply max now s ds)) ≡ attempts_at (find id ds) + handed now s ds id
  unfolding apply create update_status mark_failed set_page_count set_ocr_dispatched mark_ocr_done
      mark_ocr_failed return_for_retry fail_exhausted claim
  apply_attempts now (insert i f b o) ds id k =
      insert_attempts id ds (new_document now i f b o) (find i ds) refl
  apply_attempts now (claim_next locked) ds id k = picked_attempts now id ds _ _ k refl
  apply_attempts now (start_ingest i) ds id k = update_attempts _ _ (λ x. refl) (λ x. refl) id ds
  apply_attempts now (fail_ingest i stage msg) ds id k =
      update_attempts _ _ (λ x. refl) (λ x. refl) id ds
  apply_attempts now (count_pages i n) ds id k = update_attempts _ _ (λ x. refl) (λ x. refl) id ds
  apply_attempts now (dispatch i) ds id k = update_attempts _ _ (λ x. refl) (λ x. refl) id ds
  apply_attempts now (finish_ocr i) ds id k = update_attempts _ _ (λ x. refl) (λ x. refl) id ds
  apply_attempts now (fail_ocr i msg) ds id k = update_attempts _ _ (λ x. refl) (λ x. refl) id ds
  apply_attempts now (finish_extraction i) ds id k =
      update_attempts _ _ (λ x. refl) (λ x. refl) id ds
  apply_attempts now (fail_extraction i msg) ds id k =
      update_attempts _ _ (λ x. refl) (λ x. refl) id ds
  apply_attempts now (retry i backoff) ds id k = update_attempts _ _ (λ x. refl) (λ x. refl) id ds
  apply_attempts now give_up ds id k = update_attempts _ _ (λ x. refl) (λ x. refl) id ds

  run_attempts :
      (l : List (ℕ × Statement)) (ds : Documents) (id : Text)
      → IsKeyed ds
      → attempts_at (find id (run max l ds)) ≡ attempts_at (find id ds) + extractions l ds id
  unfolding run extractions
  run_attempts [] ds id k = omega arith
  run_attempts ((now, s) ∷ l) ds id k =
      let later' = run_attempts l (apply max now s ds) id (apply-IsKeyed max now s ds k) in
      let here = apply_attempts now s ds id k in omega arith

  attempts_bound : (ds : Documents) (id : Text) → AllValid max ds → attempts_at (find id ds) ≤ max
  attempts_bound ds id valid = elim (Option-cases (find id ds)) [
    | inl n ↦ rw n (omega arith)
    | inr (d, p) ↦ rw p ((valid id d p).attempts_le)
  ]

  -- From the empty table, whatever the statements, their order and their instants, a document is
  -- handed to an extraction at most max times.
  pub extractions_bound : (l : List (ℕ × Statement)) (id : Text) → extractions l [] id ≤ max
  extractions_bound l id =
      let total = run_attempts l [] id tt in
      let bound = attempts_bound (run max l []) id (run_from_empty max l).1 in
      let start : attempts_at (find id []) ≡ 0 = unfold find in refl in omega arith
