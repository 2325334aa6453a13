-- ===== src/Store/Machine/Step.antt =====
-- One statement, seen from one row: where its status may go, and what stays true of it.
use tax_deeds.Text.{Text}
use tax_deeds.Store.Find.{find-update_rows, changed}
use tax_deeds.Store.Statements.{requeued, claimed, with_failure, with_status}
use tax_deeds.Store.{
  update_rows, find, Duration, ocr_done, Documents, processing, extracting, uploaded, failed,
  same_status, extracted, Status, Document,
}
use tax_deeds.Base.{
  ℕ, ◌≤◌, ◌<◌, ◌≡◌, ◌≢◌, refl, ◌⊎◌, inl, inr, Bool, true, none, some, arith, Bool-cases,
}
use tax_deeds.Store.Machine.{
  ◌⟶◌, ingest, recognise, start, store, requeue, fail_early, exhaust, refuse, stay,
}

-- What holds of every row.
pub record IsValid (max : ℕ) (d : Document) : Type 0 where
  pub attempts_le : d.extraction_attempts ≤ max
  pub failure_known : d.status ≡ failed → (d.failed_stage ≢ none) × (d.error_message ≢ none)
  pub failure_only : d.status ≢ failed → (d.failed_stage ≡ none) × (d.error_message ≡ none)
  pub tried : (d.status ≡ extracting) ⊎ (d.status ≡ extracted) → 1 ≤ d.extraction_attempts
  pub waited : d.next_extraction_at ≢ none → 1 ≤ d.extraction_attempts

abbrev pub IsTerminal : Status → Type 0
IsTerminal s = (s ≡ extracted) ⊎ (s ≡ failed)

-- What a statement may make of a row.
pub record RowStep (max : ℕ) (d d' : Document) : Type 0 where
  pub same_id : d'.id ≡ d.id
  pub edge : d.status ⟶ d'.status
  pub attempts_grow : d.extraction_attempts ≤ d'.extraction_attempts
  pub counted : d.page_count ≢ none → d'.page_count ≢ none
  pub dispatched : d.ocr_dispatched_at ≢ none → d'.ocr_dispatched_at ≢ none
  pub valid : IsValid max d → IsValid max d'
  pub final :
      IsTerminal d.status
      → (d'.status ≡ d.status)
        × (d'.failed_stage ≡ d.failed_stage)
        × (d'.error_message ≡ d.error_message)

ruleset edges = (ingest, recognise, start, store, requeue, fail_early, exhaust, refuse)

pub RowStep-refl : (max : ℕ) (d : Document) → RowStep max d d
RowStep-refl max d = record {
  same_id = refl;
  edge = stay;
  attempts_grow = omega arith;
  counted = λ h. h;
  dispatched = λ h. h;
  valid = λ h. h;
  final = λ t. (refl, refl, refl);
}

module _ (max now : ℕ) (d : Document) where
  pub start_ingest_row : d.status ≡ uploaded → RowStep max d (with_status now processing d)
  start_ingest_row h = record {
    same_id = refl;
    edge = rw h ingest;
    attempts_grow = omega arith;
    counted = λ h. h;
    dispatched = λ h. h;
    valid = λ v. ground arith;
    final = λ t. ground arith;
  }

  pub finish_ocr_row : d.status ≡ processing → RowStep max d (with_status now ocr_done d)
  finish_ocr_row h = record {
    same_id = refl;
    edge = rw h recognise;
    attempts_grow = omega arith;
    counted = λ h. h;
    dispatched = λ h. h;
    valid = λ v. ground arith;
    final = λ t. ground arith;
  }

  pub finish_extraction_row : d.status ≡ extracting → RowStep max d (with_status now extracted d)
  finish_extraction_row h = record {
    same_id = refl;
    edge = rw h store;
    attempts_grow = omega arith;
    counted = λ h. h;
    dispatched = λ h. h;
    valid = λ v. ground arith;
    final = λ t. ground arith;
  }

  fail_row :
      (stage msg : Text)
      → d.status ⟶ failed
      → ¬ IsTerminal d.status
      → RowStep max d (with_failure now stage msg d)
  fail_row stage msg e h = record {
    same_id = refl;
    edge = e;
    attempts_grow = omega arith;
    counted = λ h. h;
    dispatched = λ h. h;
    valid = λ v. ground arith;
    final = λ t. absurd (h t);
  }

  pub fail_processing_row :
      (stage msg : Text) → d.status ≡ processing → RowStep max d (with_failure now stage msg d)
  fail_processing_row stage msg h = fail_row stage msg (rw h fail_early) (λ t. ground arith)

  pub fail_extracting_row :
      (stage msg : Text) → d.status ≡ extracting → RowStep max d (with_failure now stage msg d)
  fail_extracting_row stage msg h = fail_row stage msg (rw h refuse) (λ t. ground arith)

  pub exhaust_row :
      (stage msg : Text) → d.status ≡ ocr_done → RowStep max d (with_failure now stage msg d)
  exhaust_row stage msg h = fail_row stage msg (rw h exhaust) (λ t. ground arith)

  pub requeue_row :
      (backoff : Duration) → d.status ≡ extracting → RowStep max d (requeued now backoff d)
  requeue_row backoff h = record {
    same_id = refl;
    edge = rw h requeue;
    attempts_grow = omega arith;
    counted = λ h. h;
    dispatched = λ h. h;
    valid = λ v. ground arith;
    final = λ t. ground arith;
  }

  pub claim_row : d.status ≡ ocr_done → d.extraction_attempts < max → RowStep max d (claimed now d)
  claim_row h room = record {
    same_id = refl;
    edge = rw h start;
    attempts_grow = omega arith;
    counted = λ h. h;
    dispatched = λ h. h;
    valid = λ v. ground arith;
    final = λ t. ground arith;
  }

  -- Columns that the state machine does not read.
  pub count_pages_row : (n : ℕ) → RowStep max d (record d { page_count = some n; updated_at = now })
  count_pages_row n = record {
    same_id = refl;
    edge = stay;
    attempts_grow = omega arith;
    counted = λ h e. cc e;
    dispatched = λ h. h;
    valid = λ v. ground arith;
    final = λ t. (refl, refl, refl);
  }

  pub dispatch_row : RowStep max d (record d { ocr_dispatched_at = some now; updated_at = now })
  dispatch_row = record {
    same_id = refl;
    edge = stay;
    attempts_grow = omega arith;
    counted = λ h. h;
    dispatched = λ h e. cc e;
    valid = λ v. ground arith;
    final = λ t. (refl, refl, refl);
  }

same_status-eq : (s t : Status) → same_status s t ≡ true → s ≡ t
same_status-eq s t h = ground arith

-- The rows of one table, step by step, are those of the other.
abbrev pub Steps : ℕ → Documents → Documents → Type 0
Steps max ds ds' =
    (id : Text) (d : Document)
    → find id ds ≡ some d
    → (d' : Document) × (find id ds' ≡ some d') × RowStep max d d'

module _ (max : ℕ) (test : Document → Bool) (set : Document → Document)
    (keep : (d : Document) → (set d).id ≡ d.id) where
  pub changed_step :
      (d : Document) → (test d ≡ true → RowStep max d (set d)) → RowStep max d (changed test set d)
  changed_step d h = elim (Bool-cases (test d)) [
    | inl t ↦ rw t (h t)
    | inr f ↦ rw f (RowStep-refl max d)
  ]

  -- An update whose rows make a step, where its test passes.
  pub update_rows-Steps :
      (ds : Documents)
      → ((id : Text) (d : Document) → find id ds ≡ some d → test d ≡ true → RowStep max d (set d))
      → Steps max ds (update_rows test set ds)
  update_rows-Steps ds h id d p =
      (changed test set d, rw (find-update_rows test set keep id ds, p), changed_step d (h id d p))
