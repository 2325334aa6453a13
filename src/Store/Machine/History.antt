-- ===== src/Store/Machine/History.antt =====
-- Each statement of the program, seen from every row of the table.
use tax_deeds.Text.Laws.{same_iff}
use tax_deeds.Text.{codes, same, Text}
use tax_deeds.Store.Machine.Step.{
  exhaust_row, requeue_row, fail_extracting_row, finish_extraction_row, finish_ocr_row,
  dispatch_row, count_pages_row, fail_processing_row, claim_row, start_ingest_row,
  update_rows-Steps, RowStep-refl, Steps,
}
use tax_deeds.Store.Find.{oldest_found, find-eq_id, find-append_some, IsKeyed}
use tax_deeds.Store.{find, Documents, Document}
use tax_deeds.Store.Machine.{
  give_up, retry, fail_extraction, finish_extraction, claim_next, fail_ocr, finish_ocr, dispatch,
  count_pages, fail_ingest, start_ingest, insert, Statement, apply,
}
use tax_deeds.Store.Statements.{
  new_document, is_claimable, oldest, insert_unless, claim_picked, fail_exhausted, return_for_retry,
  mark_ocr_failed, mark_ocr_done, set_ocr_dispatched, set_page_count, mark_failed, update_status,
  create, claim,
}
use mathlib.Core.Option.{some-injective}
use tax_deeds.Base.{ℕ, ◌≡◌, refl, sym, ap, ◌∙◌, Bool, true, ◌&&◌, not, Option, none, some, arith}

-- Two rows that are found, of which one is looked up by the other's identifier.
found_same :
    (ds : Documents) (id : Text) (d c : Document)
    → find id ds ≡ some d
    → find c.id ds ≡ some c
    → same d.id c.id ≡ true
    → d ≡ c
found_same ds id d c p q e =
    let one_id : id ≡ c.id = sym (find-eq_id id ds d p) ∙ (same_iff d.id c.id).0 e in
    some-injective _ _ (sym p ∙ ap (λ i. find i ds) one_id ∙ q)

module _ (max now : ℕ) where
  picked-Steps :
      (locked : Document → Bool) (ds : Documents) (o : Option Document)
      → IsKeyed ds
      → oldest (λ d. is_claimable max now d && not (locked d)) ds ≡ o
      → Steps max ds (claim_picked now o ds).1
  unfolding claim_picked
  picked-Steps locked ds none keyed e id d p = (d, p, RowStep-refl max d)
  picked-Steps locked ds (some c) keyed e id d p =
      let (t, found) = oldest_found _ ds c keyed e in
      update_rows-Steps max _ _ (λ x. refl) ds
        (λ i x q same'.
          let is_c : x ≡ c = found_same ds i x c q found same' in
          claim_row max now x (ground arith) (ground arith))
        id d p

  insert-Steps :
      (o : Option Document) (new : Document) (ds : Documents)
      → Steps max ds (insert_unless o new ds).1
  unfolding insert_unless
  insert-Steps none new ds id d p = (d, find-append_some id ds _ d p, RowStep-refl max d)
  insert-Steps (some e) new ds id d p = (d, p, RowStep-refl max d)

  -- Every row of the table is in the table that a statement leaves, one step on.
  pub apply-Steps :
      (s : Statement) (ds : Documents) → IsKeyed ds → Steps max ds (apply max now s ds)
  unfolding apply create update_status mark_failed set_page_count set_ocr_dispatched mark_ocr_done
      mark_ocr_failed return_for_retry fail_exhausted claim
  apply-Steps (insert i f b o) ds keyed = insert-Steps (find i ds) (new_document now i f b o) ds
  apply-Steps (start_ingest i) ds keyed =
      update_rows-Steps max _ _ (λ d. refl) ds
        (λ id d p t. start_ingest_row max now d (ground arith))
  apply-Steps (fail_ingest i stage msg) ds keyed =
      update_rows-Steps max _ _ (λ d. refl) ds
        (λ id d p t. fail_processing_row max now d stage msg (ground arith))
  apply-Steps (count_pages i n) ds keyed =
      update_rows-Steps max _ _ (λ d. refl) ds (λ id d p t. count_pages_row max now d n)
  apply-Steps (dispatch i) ds keyed =
      update_rows-Steps max _ _ (λ d. refl) ds (λ id d p t. dispatch_row max now d)
  apply-Steps (finish_ocr i) ds keyed =
      update_rows-Steps max _ _ (λ d. refl) ds (λ id d p t. finish_ocr_row max now d (ground arith))
  apply-Steps (fail_ocr i msg) ds keyed =
      update_rows-Steps max _ _ (λ d. refl) ds
        (λ id d p t. fail_processing_row max now d (codes "ocr") msg (ground arith))
  apply-Steps (claim_next locked) ds keyed = picked-Steps locked ds _ keyed refl
  apply-Steps (finish_extraction i) ds keyed =
      update_rows-Steps max _ _ (λ d. refl) ds
        (λ id d p t. finish_extraction_row max now d (ground arith))
  apply-Steps (fail_extraction i msg) ds keyed =
      update_rows-Steps max _ _ (λ d. refl) ds
        (λ id d p t. fail_extracting_row max now d (codes "extraction") msg (ground arith))
  apply-Steps (retry i backoff) ds keyed =
      update_rows-Steps max _ _ (λ d. refl) ds
        (λ id d p t. requeue_row max now d backoff (ground arith))
  apply-Steps give_up ds keyed =
      update_rows-Steps max _ _ (λ d. refl) ds
        (λ id d p t.
          exhaust_row max now d (codes "extraction") (codes "extraction attempts exhausted")
            (ground arith))
