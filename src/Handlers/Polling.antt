-- ===== src/Handlers/Polling.antt =====
-- How long a client that polls GET /api/v1/documents/{id}/matricula is told to keep polling.
use tax_deeds.Store.Machine.Runs.{run_history}
use tax_deeds.Store.Find.{IsKeyed}
use tax_deeds.Store.Machine.{run, Statement}
use tax_deeds.Store.{uploaded, processing, ocr_done, extracting, extracted, failed}
use mathlib.Core.Option.{some-injective}
use tax_deeds.Dto.{MatriculaResponse}
use tax_deeds.Failure.{ok, err, Result}
use tax_deeds.Store.Machine.Step.{IsTerminal}
use tax_deeds.Text.{same, Text, codes}
use tax_deeds.Matriculas.{
  scanned, for_document, as_read, get_document, by_document, for_status, AggregateReads,
}
use tax_deeds.Handlers.{reply_read, error, write_error, get_matricula, json, Reply}
use tax_deeds.Store.{find, Documents, Document, Status}
use tax_deeds.Base.{
  ℕ, ◌≡◌, refl, sym, ◌∙◌, ◌↔◌, ◌⊎◌, inl, inr, true, Option, none, some, List, [], arith,
}

abbrev pub error_code : {A : Type 0} → Reply A → Text
error_code (json n a) = []
error_code (error n code msg) = code

abbrev pub IsNotReady : {A : Type 0} → Reply A → Type 0
IsNotReady r = same (error_code r) (codes "not_ready") ≡ true

Terminal-cases : (s : Status) → IsTerminal s ⊎ (IsTerminal s → ⊥)
Terminal-cases uploaded = inr (λ t. ground arith)
Terminal-cases processing = inr (λ t. ground arith)
Terminal-cases ocr_done = inr (λ t. ground arith)
Terminal-cases extracting = inr (λ t. ground arith)
Terminal-cases extracted = inl (inl refl)
Terminal-cases failed = inl (inr refl)

module _ {Num : Type 0} (reads : AggregateReads Num) (id : Text) where
  stored_ready :
      (r : Result (Option (MatriculaResponse Num)))
      → IsNotReady (reply_read (codes "document") (as_read r))
      → ⊥
  unfolding write_error same
  stored_ready (err e) h = cc h
  stored_ready (ok none) h = cc h
  stored_ready (ok (some m)) h = cc h

  for_status_ready :
      (d : Document) (s : Status)
      → IsNotReady (reply_read (codes "document") (for_status reads id d s)) ↔ (IsTerminal s → ⊥)
  unfolding for_status write_error same
  for_status_ready d uploaded = (λ h t. ground arith, λ h. refl)
  for_status_ready d processing = (λ h t. ground arith, λ h. refl)
  for_status_ready d ocr_done = (λ h t. ground arith, λ h. refl)
  for_status_ready d extracting = (λ h t. ground arith, λ h. refl)
  for_status_ready d extracted =
      (λ h t. stored_ready (reads.get_by_document_id id) h, λ h. absurd (h (inl refl)))
  for_status_ready d failed = (λ h t. cc h, λ h. absurd (h (inr refl)))

  document_ready :
      (o : Option Document)
      → IsNotReady (reply_read (codes "document") (for_document reads id (scanned o)))
        ↔ ((d : Document) × (o ≡ some d) × (IsTerminal d.status → ⊥))
  unfolding write_error same
  document_ready none = (λ h. absurd (cc h), λ (d, p, t). absurd (cc p))
  document_ready (some d) = (
    λ h. (d, refl, (for_status_ready d d.status).0 h),
    λ (c, p, t). (for_status_ready d d.status).1 (rw (some-injective _ _ p) t),
  )

  get_matricula-IsNotReady :
      (ds : Documents)
      → IsNotReady (get_matricula reads none ds id)
        ↔ ((d : Document) × (find id ds ≡ some d) × (IsTerminal d.status → ⊥))
  unfolding get_matricula by_document get_document
  get_matricula-IsNotReady ds = document_ready (find id ds)

  -- While the queries of the document work and no two rows have its identifier: the client of a
  -- document that is there is told to keep polling exactly if its status is neither extracted nor
  -- failed; and if it is told so after any further statements, it was told so before: once polling
  -- has ended, it has ended for good.
  pub polling_ends :
      (max : ℕ) (l : List (ℕ × Statement)) (ds : Documents) (d : Document)
      → IsKeyed ds
      → find id ds ≡ some d
      → (IsNotReady (get_matricula reads none ds id) ↔ (IsTerminal d.status → ⊥))
        × (IsNotReady (get_matricula reads none (run max l ds) id)
            → IsNotReady (get_matricula reads none ds id))
  polling_ends max l ds d keyed p = (
    (
      λ h.
          let (c, q, open') = (get_matricula-IsNotReady ds).0 h in
          let same_row : c ≡ d = some-injective _ _ (sym q ∙ p) in rw (sym same_row) open',
      λ h. (get_matricula-IsNotReady ds).1 (d, p, h),
    ),
    λ again.
        let (c, q, open') = (get_matricula-IsNotReady (run max l ds)).0 again in
        let (e, r, history) = run_history max l ds keyed id d p in
        elim (Terminal-cases d.status) [
          | inl t ↦ absurd (open' (rw (some-injective _ _ (sym q ∙ r), (history.final t).0) t))
          | inr t ↦ (get_matricula-IsNotReady ds).1 (d, p, t)
        ],
  )
