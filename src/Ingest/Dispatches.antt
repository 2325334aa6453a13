-- ===== src/Ingest/Dispatches.antt =====
-- A run of Process in which nothing fails.
use tax_deeds.Store.Machine.{run}
use tax_deeds.Store.Statements.{with_status, update_status, set_page_count, set_ocr_dispatched}
use tax_deeds.Aggregate.Results.{ok-injective}
use tax_deeds.Store.{Documents, at_status, uploaded, find, processing, Document}
use tax_deeds.Ingest.{
  call_pages, call_start, call_count, call_stamp, page_object, process_steps, attempt, call_read,
  converted, record_failure, ingest_moved, upload_pages, DatabaseCall, dispatched, Tables, recorded,
  ingest_owned, process, stamp, ingest_found, Env,
}
use mathlib.Core.Option.{some-injective}
use tax_deeds.Ingest.Settles.{Phase, update-Phase}
use tax_deeds.Store.Find.{IsKeyed, changed}
use tax_deeds.Failure.{ok, err, Result, Failure}
use tax_deeds.Text.{same, Text}
use tax_deeds.Base.{
  suc, ℕ, ◌+◌, ◌≡◌, refl, sym, ap, ◌∙◌, ◌⊎◌, inl, inr, Bool, true, false, Option, none, some, List,
  [], ◌∷◌, length,
}

-- Every call works, and others issue no statements between the calls of the database.
pub record AllWork (env : Env) (paths : List Text) : Type 0 where
  pub status_works : env.status_fault ≡ none
  pub read_works : env.read_fault ≡ none
  pub temp_works : env.temp_fault ≡ none
  pub fetch_works : env.fetch_fault ≡ none
  pub converts : env.convert ≡ ok paths
  pub uploads : (object : Text) → env.upload_page object ≡ none
  pub pages_work : env.pages_fault ≡ none
  pub count_works : env.count_fault ≡ none
  pub sends : (objects : List Text) → env.send_job objects ≡ none
  pub stamp_works : env.stamp_fault ≡ none
  pub quiet : (c : DatabaseCall) → (env.pauses c).statements ≡ []

module _ (decimal decimal4 : ℕ → Text) (max : ℕ) (env : Env) (id : Text) (paths : List Text)
    (works : AllWork env paths) where
  abbrev IsBegun : Document → Type 0
  IsBegun d = d.status ≡ processing

  abbrev IsNumbered : Document → Type 0
  IsNumbered d = (d.status ≡ processing) × (d.page_count ≡ some (length paths))

  -- The row waits for the OCR service since the instant of the dispatch, with its pages counted.
  abbrev pub IsDispatched : Document → Type 0
  IsDispatched d =
      (d.status ≡ processing)
      × (d.page_count ≡ some (length paths))
      × (d.ocr_dispatched_at ≡ some (env.pauses call_stamp).now)

  abbrev Succeeds : Option Failure × Tables → Type 0
  Succeeds r = (r.0 ≡ none) × Phase id IsDispatched r.1.documents

  attempt-Succeeds :
      (fault : Option Failure) (wrap : Failure → Failure) (next : Option Failure × Tables)
      (t : Tables)
      → fault ≡ none
      → Succeeds next
      → Succeeds (attempt fault wrap next t)
  attempt-Succeeds none wrap next t w h = h
  attempt-Succeeds (some e) wrap next t w h = absurd (cc w)

  undisturbed :
      {P : Document → Type 0} (c : DatabaseCall) (ds : Documents)
      → Phase id P ds
      → Phase id P (run max (env.pauses c).statements ds)
  unfolding run
  undisturbed c ds h = rw (works.quiet c) h

  uploaded_pages :
      (n : ℕ) (ps : List Text)
      → (objects : List Text) × (upload_pages decimal decimal4 max env id n ps ≡ ok objects)
        × (length objects ≡ length ps)
  unfolding upload_pages
  uploaded_pages n [] = ([], refl, refl)
  uploaded_pages n (p ∷ ps) =
      let (objects, e, l) = uploaded_pages (n + 1) ps in
      (
        page_object decimal4 id n ∷ objects,
        rw (upload_pages, works.uploads (page_object decimal4 id n), e) refl,
        ap (λ k. suc k) l,
      )

  stamp-Succeeds :
      (t : Tables)
      → Phase id IsNumbered t.documents
      → Succeeds (stamp decimal decimal4 max env id t)
  unfolding stamp set_ocr_dispatched
  stamp-Succeeds t h = attempt-Succeeds env.stamp_fault _ _ _ works.stamp_works (
    refl,
    update-Phase decimal decimal4 max env id _ _ (λ x. refl) _ (λ d e n. rw e (n.0, n.1, refl))
        (undisturbed call_stamp t.documents h),
  )

  sent-Succeeds :
      (o : Option Failure) (t : Tables)
      → o ≡ none
      → Phase id IsNumbered t.documents
      → Succeeds (dispatched decimal decimal4 max env id o t)
  unfolding dispatched
  sent-Succeeds none t w h = stamp-Succeeds t h
  sent-Succeeds (some e) t w h = absurd (cc w)

  recorded-Succeeds :
      (r : Result (List Text)) (objects : List Text) (t : Tables)
      → r ≡ ok objects
      → length objects ≡ length paths
      → Phase id IsBegun t.documents
      → Succeeds (recorded decimal decimal4 max env id r t)
  unfolding recorded set_page_count
  recorded-Succeeds (err e) objects t p l h = absurd (cc p)
  recorded-Succeeds (ok names) objects t p l h =
      let same_length : length names ≡ length paths = ap length (ok-injective _ _ p) ∙ l in
      attempt-Succeeds env.pages_fault _ _ _ works.pages_work (
        attempt-Succeeds env.count_fault _ _ _ works.count_works (
          sent-Succeeds (env.send_job names) _ (works.sends names) (
            update-Phase decimal decimal4 max env id _ _ (λ x. refl) _
              (λ d e q. rw e (q, ap (λ n. some n) same_length))
              (undisturbed call_count _ (undisturbed call_pages t.documents h)))))

  converted-Succeeds :
      (r : Result (List Text)) (t : Tables)
      → r ≡ ok paths
      → Phase id IsBegun t.documents
      → Succeeds (converted decimal decimal4 max env id r t)
  unfolding converted
  converted-Succeeds (err e) t p h = absurd (cc p)
  converted-Succeeds (ok names) t p h =
      let (objects, e, l) = uploaded_pages 1 names in
      recorded-Succeeds _ objects t e (l ∙ ap length (ok-injective _ _ p)) h

  owned-Succeeds :
      (t : Tables)
      → Phase id IsBegun t.documents
      → Succeeds (ingest_owned decimal decimal4 max env id t)
  unfolding ingest_owned
  owned-Succeeds t h = attempt-Succeeds env.temp_fault _ _ t works.temp_works (
      attempt-Succeeds env.fetch_fault _ _ t works.fetch_works
        (converted-Succeeds env.convert t works.converts h))

  found-Succeeds :
      (o : Option Document) (t : Tables)
      → find id t.documents ≡ o
      → Phase id IsBegun t.documents
      → Succeeds (ingest_found decimal decimal4 max env id o t)
  unfolding ingest_found
  found-Succeeds none t e h = absurd (cc (e, h.found))
  found-Succeeds (some c) t e h =
      let same_row : h.row ≡ c = some-injective _ _ (sym h.found ∙ e) in
      let begun : c.status ≡ processing = ap (λ d. d.status) (sym same_row) ∙ h.holds in
      rw begun (owned-Succeeds t h)

  moved-Succeeds :
      (moved : Bool) (t : Tables)
      → Phase id IsBegun t.documents
      → Succeeds (ingest_moved decimal decimal4 max env id moved t)
  unfolding ingest_moved
  moved-Succeeds true t h = owned-Succeeds t h
  moved-Succeeds false t h =
      attempt-Succeeds env.read_fault _ _ _ works.read_works
        (found-Succeeds _ _ refl (undisturbed call_read t.documents h))

  begins :
      (now : ℕ) (d : Document)
      → same d.id id ≡ true
      → (d.status ≡ uploaded) ⊎ (d.status ≡ processing)
      → IsBegun (changed (at_status id uploaded) (with_status now processing) d)
  begins now d e (inl q) = rw (e, q) refl
  begins now d e (inr q) = rw (e, q) refl

  unrecorded :
      (r : Option Failure × Tables)
      → Succeeds r
      → Phase id IsDispatched (record_failure decimal decimal4 max env id r).documents
  unfolding record_failure
  unrecorded (none, t) h = h.1
  unrecorded (some e, t) h = absurd (cc h.0)

  -- If every call works and others issue no statements between the calls of the database, Process
  -- leaves a document that is `uploaded` or in `processing` in `processing`, with as many pages as the
  -- converter gave images and with the instant of SetOCRDispatched.
  pub process_dispatches :
      (t : Tables) (d : Document)
      → IsKeyed t.documents
      → find id t.documents ≡ some d
      → (d.status ≡ uploaded) ⊎ (d.status ≡ processing)
      → Phase id IsDispatched (process decimal decimal4 max env id t).documents
  unfolding process process_steps update_status
  process_dispatches t d keyed p q =
      let there : Phase id (λ c. (c.status ≡ uploaded) ⊎ (c.status ≡ processing)) t.documents =
        record { keyed = keyed; row = d; found = p; holds = q } in
      unrecorded (process_steps decimal decimal4 max env id t) (
        attempt-Succeeds env.status_fault _ _ _ works.status_works (
          moved-Succeeds _ _ (
            update-Phase decimal decimal4 max env id _ _ (λ x. refl) _ (λ c e h. begins _ c e h)
              (undisturbed call_start t.documents there))))
