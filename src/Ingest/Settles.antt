-- ===== src/Ingest/Settles.antt =====
-- What one run of Process makes of the document's row, whatever others do to it between its calls.
use tax_deeds.Text.Laws.{same_iff}
use tax_deeds.Store.Statements.{
  update_status, with_failure, with_status, set_page_count, set_ocr_dispatched, mark_failed,
}
use tax_deeds.Failure.{message, ok, err, Result, Failure}
use tax_deeds.Ingest.{
  call_count, call_pages, call_start, call_stamp, call_read, call_fail, call_give_up, meanwhile,
  give_up, process_steps, record_failure, process, stamp, ingest_moved, DatabaseCall, ingest_found,
  converted, attempt, dispatched, recorded, ingest_owned, Tables, Env,
}
use tax_deeds.Store.{
  same_status, update_rows, at_status, processing, find, Documents, uploaded, Document, Status,
}
use mathlib.Core.Option.{some-injective}
use tax_deeds.Store.Find.{find-eq_id, update_rows-IsKeyed, IsKeyed, find-update_rows, changed}
use tax_deeds.Store.Machine.{
  run, Statement, ◌⟶◌, ingest, recognise, start, store, requeue, fail_early, exhaust, refuse, stay,
}
use tax_deeds.Store.Machine.Runs.{RowHistory, run_history, run-IsKeyed, ◌⟶*◌, here, after}
use tax_deeds.Text.{same, Text}
use tax_deeds.Base.{
  Bool-cases, ℕ, ◌≡◌, ◌≢◌, refl, sym, ap, ◌∙◌, inl, inr, Bool, true, false, Option, none, some,
  List,
}

-- No status that was left is reached again.
moves_on :
    {s t : Status}
    → s ⟶ t
    → (s ≢ uploaded → t ≢ uploaded) × (s ≢ uploaded → t ≡ processing → s ≡ processing)
moves_on ingest = (λ n. absurd (n refl), λ n. absurd (n refl))
moves_on recognise = (λ n p. cc p, λ n p. refl)
moves_on start = (λ n p. cc p, λ n p. cc p)
moves_on store = (λ n p. cc p, λ n p. cc p)
moves_on requeue = (λ n p. cc p, λ n p. cc p)
moves_on fail_early = (λ n p. cc p, λ n p. refl)
moves_on exhaust = (λ n p. cc p, λ n p. cc p)
moves_on refuse = (λ n p. cc p, λ n p. cc p)
moves_on stay = (λ n. n, λ n p. p)

move_on :
    {s t : Status}
    → s ⟶* t
    → (s ≢ uploaded → t ≢ uploaded) × (s ≢ uploaded → t ≡ processing → s ≡ processing)
move_on here = (λ n. n, λ n p. p)
move_on (after e path) =
    let (first, back) = moves_on e in
    let (rest, further) = move_on path in (λ n. rest (first n), λ n p. back n (further (first n) p))

-- The run has begun on the row.
abbrev IsStarted : Document → Type 0
IsStarted d = d.status ≢ uploaded

abbrev IsCounted : Document → Type 0
IsCounted d = (d.status ≢ uploaded) × (d.page_count ≢ none)

-- The row waits for the OCR service only with its pages counted and the instant of a dispatch.
abbrev pub HasMovedOn : Document → Type 0
HasMovedOn d =
    (d.status ≢ uploaded)
    × (d.status ≡ processing → (d.page_count ≢ none) × (d.ocr_dispatched_at ≢ none))

module _ (max : ℕ) where
  abbrev pub Lasts : (Document → Type 0) → Type 0
  Lasts P = (d d' : Document) → RowHistory max d d' → P d → P d'

  IsStarted-lasts : Lasts IsStarted
  IsStarted-lasts d e h n = (move_on h.path).0 n

  IsCounted-lasts : Lasts IsCounted
  IsCounted-lasts d e h (n, c) = ((move_on h.path).0 n, h.counted c)

  pub any_lasts : Lasts (λ d. Unit)
  any_lasts d e h u = tt

  moved_lasts : Lasts HasMovedOn
  moved_lasts d e h (n, w) = (
    (move_on h.path).0 n,
    λ p. let (c, s) = w ((move_on h.path).1 n p) in (h.counted c, h.dispatched s),
  )

module _ (id : Text) where
  -- The row of the document is there, and `P` holds of it.
  pub record Phase (P : Document → Type 0) (ds : Documents) : Type 0 where
    pub keyed : IsKeyed ds
    pub row : Document
    pub found : find id ds ≡ some row
    pub holds : P row

module _ (decimal decimal4 : ℕ → Text) (max : ℕ) (env : Env) (id : Text) where
  -- After process: settled, or begun with an error for Process.
  abbrev StepFits : Option Failure × Tables → Type 0
  StepFits (none, t) = Phase id HasMovedOn t.documents
  StepFits (some e, t) = Phase id IsStarted t.documents

  run-Phase :
      {P : Document → Type 0} (l : List (ℕ × Statement)) (ds : Documents)
      → Lasts max P
      → Phase id P ds
      → Phase id P (run max l ds)
  run-Phase l ds lasts h =
      let (d', p, history) = run_history max l ds h.keyed id h.row h.found in
      record {
        keyed = run-IsKeyed max l ds h.keyed;
        row = d';
        found = p;
        holds = lasts h.row d' history h.holds;
      }

  weaken :
      {P Q : Document → Type 0} {ds : Documents}
      → ((d : Document) → P d → Q d)
      → Phase id P ds
      → Phase id Q ds
  weaken f h = record { keyed = h.keyed; row = h.row; found = h.found; holds = f h.row h.holds }

  pub update-Phase :
      {P Q : Document → Type 0} (test : Document → Bool) (set : Document → Document)
      (keep : (d : Document) → (set d).id ≡ d.id) (ds : Documents)
      → ((d : Document) → same d.id id ≡ true → P d → Q (changed test set d))
      → Phase id P ds
      → Phase id Q (update_rows test set ds)
  update-Phase test set keep ds step h = record {
    keyed = update_rows-IsKeyed test set keep ds h.keyed;
    row = changed test set h.row;
    found = rw (find-update_rows test set keep id ds, h.found) refl;
    holds = step h.row ((same_iff h.row.id id).1 (find-eq_id id ds h.row h.found)) h.holds;
  }

  pub meanwhile-Phase :
      {P : Document → Type 0} (c : DatabaseCall) (t : Tables)
      → Lasts max P
      → Phase id P t.documents
      → Phase id P (meanwhile decimal decimal4 max env id c t).documents
  meanwhile-Phase c t lasts h = run-Phase _ t.documents lasts h

  attempt_fits :
      (fault : Option Failure) (wrap : Failure → Failure) (next : Option Failure × Tables)
      (t : Tables)
      → Phase id IsStarted t.documents
      → StepFits next
      → StepFits (attempt fault wrap next t)
  attempt_fits none wrap next t owned fits = fits
  attempt_fits (some e) wrap next t owned fits = owned

  attempt_works :
      (fault : Option Failure) (wrap : Failure → Failure) (next : Option Failure × Tables)
      (t : Tables)
      → fault ≡ none
      → StepFits next
      → StepFits (attempt fault wrap next t)
  attempt_works none wrap next t works fits = fits
  attempt_works (some e) wrap next t works fits = absurd (cc works)

  -- Starting the run: a row that was `uploaded` is so no more.
  start_update :
      (now : ℕ) (d : Document)
      → same d.id id ≡ true
      → IsStarted (changed (at_status id uploaded) (with_status now processing) d)
  start_update now d e = elim (Bool-cases (same_status d.status uploaded)) [
    | inl q ↦ rw (e, q) (λ p. cc p)
    | inr q ↦ rw (e, q) (λ p. cc (p, q))
  ]

  failed_update :
      (now : ℕ) (stage msg : Text) (d : Document)
      → same d.id id ≡ true
      → IsStarted d
      → HasMovedOn (changed (at_status id processing) (with_failure now stage msg) d)
  failed_update now stage msg d e n = elim (Bool-cases (same_status d.status processing)) [
    | inl q ↦ rw (e, q) (λ p. cc p, λ p. absurd (cc p))
    | inr q ↦ rw (e, q) (n, λ p. absurd (cc (p, q)))
  ]

  module _ (fail_works : env.fail_fault ≡ none) where
    give_up_settles :
        (c : DatabaseCall) (stage : Text) (e : Failure) (t : Tables)
        → Phase id IsStarted t.documents
        → Phase id HasMovedOn (give_up decimal decimal4 max env id c stage e t).documents
    unfolding mark_failed
    give_up_settles c stage e t h = rw fail_works (
        update-Phase (at_status id processing) (with_failure (env.pauses c).now stage (message e))
          (λ x. refl) _ (failed_update _ stage _) (meanwhile-Phase c t (IsStarted-lasts max) h))

    stamp_fits :
        (t : Tables)
        → Phase id IsCounted t.documents
        → StepFits (stamp decimal decimal4 max env id t)
    unfolding stamp set_ocr_dispatched
    stamp_fits t h =
        let paused = meanwhile-Phase call_stamp t (IsCounted-lasts max) h in
        attempt_fits env.stamp_fault _ _ _ (weaken (λ d c. c.0) paused)
          (update-Phase _ _ (λ x. refl) _ (λ d e c. rw e (c.0, λ _. (c.1, λ x. cc x))) paused)

    dispatched_fits :
        (o : Option Failure) (t : Tables)
        → Phase id IsCounted t.documents
        → StepFits (dispatched decimal decimal4 max env id o t)
    unfolding dispatched
    dispatched_fits (some e) t h = give_up_settles call_give_up _ e t (weaken (λ d c. c.0) h)
    dispatched_fits none t h = stamp_fits t h

    recorded_fits :
        (r : Result (List Text)) (t : Tables)
        → Phase id IsStarted t.documents
        → StepFits (recorded decimal decimal4 max env id r t)
    unfolding recorded set_page_count
    recorded_fits (err e) t h = h
    recorded_fits (ok objects) t h =
        let paged = meanwhile-Phase call_pages t (IsStarted-lasts max) h in
        let paused = run-Phase (env.pauses call_count).statements _ (IsStarted-lasts max) paged in
        attempt_fits env.pages_fault _ _ _ paged (
          attempt_fits env.count_fault _ _ _ paused (
            dispatched_fits (env.send_job objects) _
              (update-Phase _ _ (λ x. refl) _ (λ d e n. rw e (n, λ x. cc x)) paused)))

    converted_fits :
        (r : Result (List Text)) (t : Tables)
        → Phase id IsStarted t.documents
        → StepFits (converted decimal decimal4 max env id r t)
    unfolding converted
    converted_fits (err e) t h = h
    converted_fits (ok paths) t h = recorded_fits _ t h

    owned_fits :
        (t : Tables)
        → Phase id IsStarted t.documents
        → StepFits (ingest_owned decimal decimal4 max env id t)
    unfolding ingest_owned
    owned_fits t h =
        attempt_fits env.temp_fault _ _ t h
          (attempt_fits env.fetch_fault _ _ t h (converted_fits env.convert t h))

    found_fits :
        (o : Option Document) (t : Tables)
        → find id t.documents ≡ o
        → Phase id IsStarted t.documents
        → StepFits (ingest_found decimal decimal4 max env id o t)
    unfolding ingest_found
    found_fits none t e h = h
    found_fits (some c) t e h = elim (Bool-cases (same_status c.status processing)) [
      | inl q ↦ rw q (owned_fits t h)
      | inr q ↦
          let same_row : h.row ≡ c = some-injective _ _ (sym h.found ∙ e) in
          let elsewhere : c.status ≢ processing = λ p. cc (p, q) in
          rw q (record {
            keyed = h.keyed;
            row = h.row;
            found = h.found;
            holds = (h.holds, λ p. absurd (elsewhere (ap (λ d. d.status) (sym same_row) ∙ p)));
          })
    ]

    moved_fits :
        (moved : Bool) (t : Tables)
        → Phase id IsStarted t.documents
        → StepFits (ingest_moved decimal decimal4 max env id moved t)
    unfolding ingest_moved
    moved_fits true t h = owned_fits t h
    moved_fits false t h =
        let paused = meanwhile-Phase call_read t (IsStarted-lasts max) h in
        attempt_fits env.read_fault _ _ _ paused (found_fits _ _ refl paused)

    record_failure_settles :
        (r : Option Failure × Tables)
        → StepFits r
        → Phase id HasMovedOn (record_failure decimal decimal4 max env id r).documents
    unfolding record_failure
    record_failure_settles (none, t) fits = fits
    record_failure_settles (some e, t) h = give_up_settles call_fail _ e t h

    -- One run of Process on a document of any status, in which UpdateStatus and MarkFailed work,
    -- whatever else fails and whatever statements of the program others issue between its calls, ends
    -- with the document no longer `uploaded`, and with its pages counted and the instant of a dispatch
    -- recorded if it is in `processing`: nothing but the OCR service is then waited for.
    pub process_settles :
        env.status_fault ≡ none
        → (t : Tables) (d : Document) → IsKeyed t.documents
        → find id t.documents ≡ some d
        → Phase id HasMovedOn (process decimal decimal4 max env id t).documents
    unfolding process process_steps update_status
    process_settles status_works t d keyed p =
        let begun : Phase id (λ d. Unit) t.documents = record {
          keyed = keyed;
          row = d;
          found = p;
          holds = tt;
        } in
        record_failure_settles (process_steps decimal decimal4 max env id t) (
          attempt_works env.status_fault _ _ _ status_works (
            moved_fits _ _ (
              update-Phase _ _ (λ x. refl) _ (λ c e _. start_update _ c e)
                (meanwhile-Phase call_start t (any_lasts max) begun))))
