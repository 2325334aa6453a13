-- ===== src/Store/Machine/Runs.antt =====
-- Histories: from any table, after any sequence of statements of the program.
use tax_deeds.Text.{Text}
use tax_deeds.Store.Find.{append-IsKeyed, update_rows-IsKeyed, IsKeyed}
use tax_deeds.Store.Machine.Step.{IsTerminal, IsValid, RowStep}
use tax_deeds.Store.Statements.{
  new_document, claim, fail_exhausted, return_for_retry, mark_ocr_failed, mark_ocr_done,
  set_ocr_dispatched, set_page_count, mark_failed, update_status, create, claim_picked,
  insert_unless,
}
use tax_deeds.Store.Machine.{
  give_up, retry, fail_extraction, finish_extraction, fail_ocr, finish_ocr, dispatch, count_pages,
  fail_ingest, start_ingest, claim_next, insert, Statement, ◌⟶◌, run, apply,
}
use tax_deeds.Store.{find, Documents, Status, Document}
use tax_deeds.Base.{◌≢◌, ℕ, ◌≤◌, ◌≡◌, refl, ◌∙◌, Option, none, some, List, [], ◌∷◌, arith}
use tax_deeds.Store.Machine.History.{apply-Steps}

-- Statuses reached by transitions of the diagram.
infix 40 ◌⟶*◌
pub data ◌⟶*◌ : Status → Status → Type 0 where
  here : {s : Status} → s ⟶* s
  after : {s t u : Status} → s ⟶ t → t ⟶* u → s ⟶* u

insert_unless-IsKeyed :
    (d : Document) (ds : Documents)
    → IsKeyed ds
    → (o : Option Document) → find d.id ds ≡ o
    → IsKeyed (insert_unless o d ds).1
unfolding insert_unless
insert_unless-IsKeyed d ds h none e = append-IsKeyed ds d h e
insert_unless-IsKeyed d ds h (some c) e = h

claim_picked-IsKeyed :
    (now : ℕ) (o : Option Document) (ds : Documents)
    → IsKeyed ds
    → IsKeyed (claim_picked now o ds).1
unfolding claim_picked
claim_picked-IsKeyed now none ds h = h
claim_picked-IsKeyed now (some d) ds h = update_rows-IsKeyed _ _ (λ x. refl) ds h

module _ (max : ℕ) where
  pub apply-IsKeyed :
      (now : ℕ) (s : Statement) (ds : Documents) → IsKeyed ds → IsKeyed (apply max now s ds)
  unfolding apply create update_status mark_failed set_page_count set_ocr_dispatched mark_ocr_done
      mark_ocr_failed return_for_retry fail_exhausted claim
  apply-IsKeyed now (insert i f b o) ds h =
      insert_unless-IsKeyed (new_document now i f b o) ds h (find i ds) refl
  apply-IsKeyed now (claim_next locked) ds h = claim_picked-IsKeyed now _ ds h
  apply-IsKeyed now (start_ingest i) ds h = update_rows-IsKeyed _ _ (λ x. refl) ds h
  apply-IsKeyed now (fail_ingest i stage msg) ds h = update_rows-IsKeyed _ _ (λ x. refl) ds h
  apply-IsKeyed now (count_pages i n) ds h = update_rows-IsKeyed _ _ (λ x. refl) ds h
  apply-IsKeyed now (dispatch i) ds h = update_rows-IsKeyed _ _ (λ x. refl) ds h
  apply-IsKeyed now (finish_ocr i) ds h = update_rows-IsKeyed _ _ (λ x. refl) ds h
  apply-IsKeyed now (fail_ocr i msg) ds h = update_rows-IsKeyed _ _ (λ x. refl) ds h
  apply-IsKeyed now (finish_extraction i) ds h = update_rows-IsKeyed _ _ (λ x. refl) ds h
  apply-IsKeyed now (fail_extraction i msg) ds h = update_rows-IsKeyed _ _ (λ x. refl) ds h
  apply-IsKeyed now (retry i backoff) ds h = update_rows-IsKeyed _ _ (λ x. refl) ds h
  apply-IsKeyed now give_up ds h = update_rows-IsKeyed _ _ (λ x. refl) ds h

  -- What a history makes of a row.
  pub record RowHistory (d d' : Document) : Type 0 where
    pub same_id : d'.id ≡ d.id
    pub path : d.status ⟶* d'.status
    pub attempts_grow : d.extraction_attempts ≤ d'.extraction_attempts
    pub counted : d.page_count ≢ none → d'.page_count ≢ none
    pub dispatched : d.ocr_dispatched_at ≢ none → d'.ocr_dispatched_at ≢ none
    pub valid : IsValid max d → IsValid max d'
    pub final :
        IsTerminal d.status
        → (d'.status ≡ d.status)
          × (d'.failed_stage ≡ d.failed_stage)
          × (d'.error_message ≡ d.error_message)

  RowHistory-refl : (d : Document) → RowHistory d d
  RowHistory-refl d = record {
    same_id = refl;
    path = here;
    attempts_grow = omega arith;
    counted = λ h. h;
    dispatched = λ h. h;
    valid = λ v. v;
    final = λ t. (refl, refl, refl);
  }

  RowHistory-step : (d e f : Document) → RowStep max d e → RowHistory e f → RowHistory d f
  RowHistory-step d e f s h = record {
    same_id = h.same_id ∙ s.same_id;
    path = after s.edge h.path;
    attempts_grow = omega arith;
    counted = λ n. h.counted (s.counted n);
    dispatched = λ n. h.dispatched (s.dispatched n);
    valid = λ v. h.valid (s.valid v);
    final = λ t.
        let (a, b, c) = s.final t in
        let (a', b', c') = h.final (rw a t) in (a' ∙ a, b' ∙ b, c' ∙ c);
  }

  pub run-IsKeyed :
      (l : List (ℕ × Statement)) (ds : Documents) → IsKeyed ds → IsKeyed (run max l ds)
  unfolding run
  run-IsKeyed [] ds h = h
  run-IsKeyed ((now, s) ∷ l) ds h = run-IsKeyed l _ (apply-IsKeyed now s ds h)

  -- After any sequence of statements a row of the table is still there: its status has moved along
  -- the diagram, its attempts have not fallen, its count of pages and the instant of its dispatch are
  -- not lost, it is valid if it was, and if its status was terminal then that and what was recorded of
  -- a failure are unchanged.
  pub run_history :
      (l : List (ℕ × Statement)) (ds : Documents)
      → IsKeyed ds
      → (id : Text) (d : Document) → find id ds ≡ some d
      → (d' : Document) × (find id (run max l ds) ≡ some d') × RowHistory d d'
  unfolding run
  run_history [] ds keyed id d p = (d, p, RowHistory-refl d)
  run_history ((now, s) ∷ l) ds keyed id d p =
      let (e, q, step) = apply-Steps max now s ds keyed id d p in
      let (f, r, h) = run_history l (apply max now s ds) (apply-IsKeyed now s ds keyed) id e q in
      (f, r, RowHistory-step d e f step h)
