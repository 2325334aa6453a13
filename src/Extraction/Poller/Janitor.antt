-- ===== src/Extraction/Poller/Janitor.antt =====
-- janitor of internal/services/extraction/poller.go.
use tax_deeds.Store.Find.{changed, IsKeyed}
use tax_deeds.Ingest.Settles.{
  any_lasts, meanwhile-Phase, update-Phase, Phase, HasMovedOn, process_settles,
}
use tax_deeds.Extraction.Service.{unless_fault}
use tax_deeds.Store.{
  same_status, at_status, extracting, ahead, processing, find, Status, Document, Documents,
}
use tax_deeds.Store.Statements.{requeued, return_for_retry, stuck_documents}
use tax_deeds.Failure.{Failure}
use tax_deeds.Ingest.{call_start, meanwhile, redispatch, Tables, Env, process}
use tax_deeds.Text.{same, Text}
use tax_deeds.Base.{
  Bool-cases, ◌≢◌, true, ℕ, ◌≡◌, refl, ◌⊎◌, inl, inr, Option, none, some, List, ◌∷◌,
}

module _ (decimal decimal4 : ℕ → Text) (max : ℕ) where
  -- `case store.StatusProcessing`
  abbrev pub rescue_ingest : Env → Document → Option ℕ → Tables → Tables
  rescue_ingest env doc none t = process decimal decimal4 max env doc.id t
  rescue_ingest env doc (some stamp') t = redispatch decimal decimal4 max env doc.id t

  -- `case store.StatusExtracting`; ReturnForRetry fails with `requeue_fault`. The statements of others
  -- since the call before come first.
  abbrev pub rescue_extraction : Env → Option Failure → Document → Tables → Tables
  rescue_extraction env requeue_fault doc t =
      let t = meanwhile decimal decimal4 max env doc.id call_start t in
      record t {
        documents =
            unless_fault requeue_fault
              (return_for_retry (env.pauses call_start).now doc.id (ahead 0) t.documents)
              t.documents;
      }

  -- One turn of the loop.
  unfoldable pub rescue_at : Env → Option Failure → Document → Status → Tables → Tables
  unfolding process redispatch
  rescue_at env requeue_fault doc processing t = rescue_ingest env doc doc.ocr_dispatched_at t
  rescue_at env requeue_fault doc extracting t = rescue_extraction env requeue_fault doc t
  rescue_at env requeue_fault doc s t = t

  unfoldable pub rescue_all : List (Env × Option Failure) → Documents → Tables → Tables
  unfolding rescue_at
  rescue_all ((env, fault) ∷ turns) (doc ∷ docs) t =
      rescue_all turns docs (rescue_at env fault doc doc.status t)
  rescue_all turns docs t = t

  abbrev pub rescue_listed :
      Option Failure → List (Env × Option Failure) → Documents → Tables → Tables
  rescue_listed (some e) turns docs t = t
  rescue_listed none turns docs t = rescue_all turns docs t

  -- janitor: the list is read once, before the loop; each turn has its instants and its outcomes.
  unfoldable pub janitor : ℕ → Option Failure → List (Env × Option Failure) → Tables → Tables
  unfolding rescue_all stuck_documents
  janitor cutoff list_fault turns t =
      rescue_listed list_fault turns (stuck_documents cutoff t.documents) t

  -- What the list says of a document that was never dispatched or whose extraction stopped.
  abbrev pub IsAbandoned : Document → Type 0
  IsAbandoned d = ((d.status ≡ processing) × (d.ocr_dispatched_at ≡ none)) ⊎ (d.status ≡ extracting)

  -- What a turn brings about, by the status that the list gave.
  abbrev pub IsRescued : Status → Document → Type 0
  IsRescued processing e = HasMovedOn e
  IsRescued extracting e = e.status ≢ extracting
  IsRescued _ e = Unit

  requeued_update :
      (now : ℕ) (id : Text) (d : Document)
      → same d.id id ≡ true
      → (changed (at_status id extracting) (requeued now (ahead 0)) d).status ≢ extracting
  requeued_update now id d e = elim (Bool-cases (same_status d.status extracting)) [
    | inl q ↦ rw (e, q) (λ p. cc p)
    | inr q ↦ rw (e, q) (λ p. cc (p, q))
  ]

  module _ (env : Env) (t : Tables) (d c : Document) (status_works : env.status_fault ≡ none)
      (fail_works : env.fail_fault ≡ none) (keyed : IsKeyed t.documents)
      (there : find d.id t.documents ≡ some c) where
    kept : Phase d.id (λ e. Unit) t.documents
    kept = record { keyed = keyed; row = c; found = there; holds = tt }

    extraction_rescued :
        Phase d.id (λ e. e.status ≢ extracting) (rescue_extraction env none d t).documents
    unfolding return_for_retry
    extraction_rescued =
        update-Phase decimal decimal4 max env d.id _ _ (λ x. refl) _
          (λ e same_id _. requeued_update _ d.id e same_id)
          (meanwhile-Phase decimal decimal4 max env d.id call_start t (any_lasts max) kept)

    -- A document that was listed as stuck and either never dispatched or in an extraction that stopped
    -- moves on in its turn of the janitor, if the calls that record it work, whatever became of its
    -- row since the list was read and whatever statements others issue: after the first it is no
    -- longer `uploaded`, and in `processing` only with its pages counted and a dispatch recorded, and
    -- after the second it is no longer `extracting`.
    pub rescue_at_lem :
        IsAbandoned d → Phase d.id (IsRescued d.status) (rescue_at env none d d.status t).documents
    unfolding rescue_at
    rescue_at_lem (inl (q, r)) =
        rw (q, r)
          (process_settles decimal decimal4 max env d.id fail_works status_works t c keyed there)
    rescue_at_lem (inr q) = rw q extraction_rescued
