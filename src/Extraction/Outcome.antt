-- ===== src/Extraction/Outcome.antt =====
-- What one extraction makes of the claimed document, on every path of extract.
use mathlib.Core.Path.{subst}
use tax_deeds.Text.Laws.{same_iff}
use tax_deeds.Store.Find.{find-eq_id, find-update_rows}
use tax_deeds.Extraction.Backoff.{retry_backoff}
use tax_deeds.Store.Statements.{
  with_failure, return_for_retry, requeued, mark_failed, with_status, update_status,
}
use tax_deeds.Failure.{message, ok, err, is_transient, Result, Failure}
use tax_deeds.Store.{
  at_status, update_rows, OcrRow, find, Documents, extracted, extracting, Document,
}
use tax_deeds.Dto.{ExtractedMatricula}
use tax_deeds.Llm.Chain.{Usage, Answer}
use tax_deeds.Text.{codes, Text, Unicode}
use tax_deeds.Extraction.Service.{
  unless_fault, extract, settle, extract_document, extract_from, answered, loaded, Faults, saved,
  finish, World, AggregateTables,
}
use tax_deeds.Base.{
  ℕ, ◌≡◌, refl, sym, inl, inr, Bool, Option, none, some, List, [], ◌∷◌, arith, if◌then◌else◌,
  Bool-cases,
}

unless_keeps :
    (P : Documents → Type 0) (fault : Option Failure) {after before : Documents}
    → P after
    → P before
    → P (unless_fault fault after before)
unless_keeps P none p q = p
unless_keeps P (some e) p q = q

module _ {Num : Type 0} (store : AggregateTables Num) (u : Unicode) (decimal : ℕ → Text)
    (extractor : Text → Answer (ExtractedMatricula Num × Text)) (model prompt_version : Text)
    (now : ℕ) (doc : Document) where
  -- The documents after extract: moved to `extracted`, or as before if there is an error.
  abbrev DocumentsFit : World Num store.Tables → Option Failure × World Num store.Tables → Type 0
  DocumentsFit w (none, after) =
      after.documents ≡ (update_status now doc.id extracting extracted w.documents).1
  DocumentsFit w (some e, after) = after.documents ≡ w.documents

  finish_fits :
      (fault : Option Failure) (w : World Num store.Tables)
      → DocumentsFit w (finish store u decimal extractor model prompt_version now fault doc.id w)
  unfolding finish
  finish_fits none w = refl
  finish_fits (some e) w = refl

  saved_fits :
      (fault : Option Failure) (r : Result store.Tables) (w : World Num store.Tables)
      → DocumentsFit w (saved store u decimal extractor model prompt_version now fault doc.id r w)
  unfolding saved
  saved_fits fault (err e) w = refl
  saved_fits fault (ok tables) w =
      elim fault
        as (λ f. DocumentsFit w (
          finish store u decimal extractor model prompt_version now f doc.id
            (record w { aggregates = tables }))) [
              | none ↦ unfold finish in refl
              | some e ↦ unfold finish in refl
            ]

  answered_fits :
      (fault : Option Failure) (used : Usage) (r : Result (ExtractedMatricula Num × Text))
      (w : World Num store.Tables)
      → DocumentsFit w
          (answered store u decimal extractor model prompt_version now fault doc.id used r w)
  unfolding answered
  answered_fits fault used (err e) w = refl
  answered_fits fault used (ok (m, raw)) w = saved_fits fault _ w

  loaded_fits :
      (fault : Option Failure) (rows : List (OcrRow Num)) (w : World Num store.Tables)
      → DocumentsFit w
          (loaded store u decimal extractor model prompt_version now fault doc.id rows w)
  unfolding loaded
  loaded_fits fault [] w = refl
  loaded_fits fault (r ∷ rows) w = answered_fits fault _ _ w

  extract_from_fits :
      (load fault : Option Failure) (w : World Num store.Tables)
      → DocumentsFit w
          (extract_from store u decimal extractor model prompt_version now load fault doc.id w)
  unfolding extract_from
  extract_from_fits (some e) fault w = refl
  extract_from_fits none fault w = loaded_fits fault _ w

  -- The row that the document has in the end.
  abbrev pub settled_row : Document → Option Failure → Document
  settled_row d none = with_status now extracted d
  settled_row d (some e) =
      if is_transient e
      then requeued now (retry_backoff doc.extraction_attempts) d
      else with_failure now (codes "extraction") (message e) d

  found_at :
      (set : Document → Document)
      → ((d : Document) → (set d).id ≡ d.id)
      → (ds : Documents) (d : Document) → find doc.id ds ≡ some d
      → d.status ≡ extracting
      → find doc.id (update_rows (at_status doc.id extracting) set ds) ≡ some (set d)
  found_at set keep ds d p q =
      rw (find-update_rows (at_status doc.id extracting) set keep doc.id ds, p)
        (ground (arith, same_iff d.id doc.id, find-eq_id doc.id ds d p))

  module _ (faults : Faults) (requeue_works : faults.requeue_fault ≡ none)
      (fail_works : faults.fail_fault ≡ none) where
    settle_row :
        (o : Option Failure) (w after : World Num store.Tables) (d : Document)
        → DocumentsFit w (o, after)
        → find doc.id w.documents ≡ some d
        → d.status ≡ extracting
        → find doc.id
            (settle store u decimal extractor model prompt_version now faults doc o after).documents
          ≡ some (settled_row d o)
    unfolding settle update_status mark_failed return_for_retry
    settle_row none w after d fit p q = rw fit (found_at _ (λ x. refl) w.documents d p q)
    settle_row (some e) w after d fit p q = elim (Bool-cases (is_transient e)) [
      | inl t ↦ rw (t, requeue_works, fit) (found_at _ (λ x. refl) w.documents d p q)
      | inr t ↦ rw (t, fail_works, fit) (found_at _ (λ x. refl) w.documents d p q)
    ]

    -- A document that is extracting leaves that status in one run, provided that the call of
    -- ReturnForRetry or MarkFailed that may come last succeeds: it is extracted if extract returns
    -- no error, waits as ocr_done for the backoff of its attempts if the error is transient, and is
    -- failed with the stage "extraction" and the error's message otherwise.
    pub extract_document_settles :
        (w : World Num store.Tables) (d : Document)
        → find doc.id w.documents ≡ some d
        → d.status ≡ extracting
        → find doc.id
            (extract_document store u decimal extractor model prompt_version now faults doc
              w).documents
          ≡ some (
              settled_row d
                (extract store u decimal extractor model prompt_version now faults doc w).0)
    unfolding extract_document extract
    extract_document_settles w d p q =
        settle_row _ w _ d (extract_from_fits faults.load_fault faults.finish_fault w) p q

  extracted_row :
      (faults : Faults) (o : Option Failure) (w after : World Num store.Tables) (d : Document)
      → DocumentsFit w (o, after)
      → find doc.id w.documents ≡ some d
      → d.status ≡ extracting
      → o ≡ none
      → find doc.id
          (settle store u decimal extractor model prompt_version now faults doc o after).documents
        ≡ some (settled_row d none)
  unfolding settle update_status
  extracted_row faults none w after d fit p q h = rw fit (found_at _ (λ x. refl) w.documents d p q)
  extracted_row faults (some e) w after d fit p q h = absurd (cc h)

  -- Where extract returns no error, the document is extracted.
  pub extract_document_extracted :
      (faults : Faults) (w : World Num store.Tables) (d : Document)
      → find doc.id w.documents ≡ some d
      → d.status ≡ extracting
      → (extract store u decimal extractor model prompt_version now faults doc w).0 ≡ none
      → find doc.id
          (extract_document store u decimal extractor model prompt_version now faults doc
            w).documents
        ≡ some (settled_row d none)
  unfolding extract_document extract
  extract_document_extracted faults w d p q h =
      extracted_row faults _ w _ d (extract_from_fits faults.load_fault faults.finish_fault w) p q h

  settle_aggregates :
      (faults : Faults) (o : Option Failure) (after : World Num store.Tables)
      → (settle store u decimal extractor model prompt_version now faults doc o after).aggregates
        ≡ after.aggregates
  unfolding settle
  settle_aggregates faults none after = refl
  settle_aggregates faults (some e) after = elim (Bool-cases (is_transient e)) [
    | inl t ↦ rw t refl
    | inr t ↦ rw t refl
  ]

  -- What comes behind extract leaves the aggregates alone.
  pub extract_document_aggregates :
      (faults : Faults) (w : World Num store.Tables)
      → (extract_document store u decimal extractor model prompt_version now faults doc
          w).aggregates
        ≡ (extract store u decimal extractor model prompt_version now faults doc w).1.aggregates
  unfolding extract_document
  extract_document_aggregates faults w = settle_aggregates faults _ _

  settle_keeps :
      (faults : Faults) (o : Option Failure) (after w : World Num store.Tables)
      (P : Documents → Type 0)
      → P w.documents
      → ((test : Document → Bool) (set : Document → Document)
          → ((d : Document) → (set d).id ≡ d.id)
          → ((d : Document) → (set d).extraction_attempts ≡ d.extraction_attempts)
          → P (update_rows test set w.documents))
      → DocumentsFit w (o, after)
      → P (settle store u decimal extractor model prompt_version now faults doc o after).documents
  unfolding settle update_status mark_failed return_for_retry
  settle_keeps faults none after w P before step fit =
      subst P (sym fit) (step _ _ (λ d. refl) (λ d. refl))
  settle_keeps faults (some e) after w P before step fit = elim (Bool-cases (is_transient e)) [
    | inl t ↦
        rw (t, fit) (unless_keeps P faults.requeue_fault (step _ _ (λ d. refl) (λ d. refl)) before)
    | inr t ↦
        rw (t, fit) (unless_keeps P faults.fail_fault (step _ _ (λ d. refl) (λ d. refl)) before)
  ]

  -- What holds of the documents before one extraction, and stays true when rows are written that
  -- keep their identifiers and their attempts, holds after it.
  pub extract_document_keeps :
      (faults : Faults) (w : World Num store.Tables) (P : Documents → Type 0)
      → P w.documents
      → ((test : Document → Bool) (set : Document → Document)
          → ((d : Document) → (set d).id ≡ d.id)
          → ((d : Document) → (set d).extraction_attempts ≡ d.extraction_attempts)
          → P (update_rows test set w.documents))
      → P
          (extract_document store u decimal extractor model prompt_version now faults doc
            w).documents
  unfolding extract_document extract
  extract_document_keeps faults w P before step =
      settle_keeps faults _ _ w P before step
        (extract_from_fits faults.load_fault faults.finish_fault w)
