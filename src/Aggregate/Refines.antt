-- ===== src/Aggregate/Refines.antt =====
-- The tables of the aggregates, as their readers see them: for each document at most one extraction,
-- which SaveAggregate replaces.
use tax_deeds.Aggregate.Content.{load_content-with_aggregate}
use tax_deeds.Aggregate.Preserved.{delete_aggregate-IsSound, delete_aggregate-none}
use tax_deeds.Queries.Keys.{any_same_id, All-imp2}
use tax_deeds.Text.Laws.{same_iff}
use tax_deeds.Queries.{select}
use tax_deeds.Aggregate.Frame.{
  load_content-after, is_gone, find_matricula-All, find_matricula-select, find_matricula-append,
  find_matricula-new,
}
use tax_deeds.Aggregate.Rows.{matricula_columns, with_aggregate}
use tax_deeds.Aggregate.Written.{save_aggregate-with_aggregate}
use tax_deeds.Aggregate.Save.{delete_aggregate, save_aggregate}
use tax_deeds.Aggregate.Stored.{stored, AllDated}
use tax_deeds.Aggregate.Sound.{IsSound}
use tax_deeds.Failure.{ok, Failure}
use tax_deeds.Aggregate.Save.{SaveStep}
use tax_deeds.Aggregate.Load.{find_matricula, get_by_document_id}
use tax_deeds.Dto.{ExtractedMatricula, MatriculaResponse}
use tax_deeds.Text.{same, Text}
use tax_deeds.Aggregate.{MatriculaRow, ExtractionMeta, Aggregates, IsPostgres, Postgres}
use tax_deeds.Base.{
  Option-cases, fun_ext, ℕ, ◌+◌, ◌<◌, ◌≡◌, refl, sym, ap, ◌∙◌, inl, inr, Bool, true, false, not,
  Option, some, if◌then◌else◌, Bool-cases,
}

abbrev pub View : Type 0 → Type 0
View Num = Text → Option (MatriculaResponse Num)

abbrev pub put : {Num : Type 0} → Text → MatriculaResponse Num → View Num → View Num
put document answer v = λ document'. if same document document' then some answer else v document'

another :
    (s document document' : Text)
    → same document document' ≡ false
    → same s document' ≡ true
    → same s document ≡ false
another s document document' h e = elim (Bool-cases (same s document)) [
  | inl f ↦ absurd (
      cc (
        h,
        (same_iff document document').1
            (sym ((same_iff s document).0 f) ∙ (same_iff s document').0 e),
      ))
  | inr f ↦ f
]

module _ {Num : Type 0} (db : Postgres) (uuid : ℕ → Text) where
  abbrev pub view : Aggregates Num → View Num
  view t = λ document. get_by_document_id db uuid document t

  -- The reader of another document finds what it found before.
  view_others :
      (document document' : Text) (m : ExtractedMatricula Num) (meta : ExtractionMeta)
      (t : Aggregates Num)
      → IsSound t
      → same document document' ≡ false
      → view (with_aggregate db document m meta (delete_aggregate document t)) document'
        ≡ view t document'
  unfolding get_by_document_id delete_aggregate
  view_others document document' m meta t sound other =
      let test : MatriculaRow Num → Bool = λ r. same r.document_id document' in
      let new = matricula_columns db document t.supply (t.supply + 1) m in
      rw
        (
          find_matricula-append test (select (λ r. not (same r.document_id document)) t.matriculas)
              new other,
          find_matricula-select test (λ r. not (same r.document_id document)) t.matriculas
              (λ r e. rw (another r.document_id document document' other e) refl),
        )
        (elim (Option-cases (find_matricula test t.matriculas)) [
          | inl e ↦ rw e refl
          | inr (r, e) ↦
              let (f, (below, live)) =
                find_matricula-All
                  (λ s. (s.id < t.supply) × (is_gone document t s.id ≡ same s.document_id document))
                  test t.matriculas r e
                  (All-imp2 _ _ _ (λ s p q. (p, q)) t.matriculas sound.matriculas_below
                    (any_same_id (λ s. s.id) (λ s. same s.document_id document) t.matriculas
                      sound.matriculas_ascending)) in
              rw e (
                ap (λ c. some (record { id = uuid r.id; document_id = r.document_id; content = c }))
                  (load_content-after db document m meta t sound r below
                    (live ∙ another r.document_id document document' other f)))
        ])

  -- The reader of the document finds the new extraction.
  view_new :
      IsPostgres db
      → (document document' : Text) (m : ExtractedMatricula Num) (meta : ExtractionMeta)
        (t : Aggregates Num)
      → IsSound t
      → AllDated m
      → same document document' ≡ true
      → view (with_aggregate db document m meta (delete_aggregate document t)) document'
        ≡ some (record { id = uuid (t.supply + 1); document_id = document; content = stored db m })
  unfolding get_by_document_id delete_aggregate
  view_new pg document document' m meta t sound dates own =
      let new = matricula_columns db document t.supply (t.supply + 1) m in
      let rest = delete_aggregate document t in
      rw
        (find_matricula-new (λ r. same r.document_id document') rest.matriculas new
          (rw (sym ((same_iff document document').0 own)) (delete_aggregate-none document t)) own)
        (ap (λ c. some (record { id = uuid (t.supply + 1); document_id = document; content = c }))
          (load_content-with_aggregate db pg document m meta rest
            (delete_aggregate-IsSound document t sound) dates))

  -- Where SaveAggregate returns no error, on tables that are sound, the dates are normalised from the
  -- year 1 and the database casts such dates, then the reader's view of the tables is the previous
  -- one with the extraction put at the document: its atos and their partes as they are, its
  -- proprietários and ônus ordered, its references to atos that are not there empty. The identifier
  -- is the one that SaveAggregate returns.
  pub save_aggregate-put :
      IsPostgres db
      → (fault : SaveStep → Option Failure) (document : Text) (m : ExtractedMatricula Num)
        (meta : ExtractionMeta) (t t' : Aggregates Num) (id : ℕ)
      → IsSound t
      → AllDated m
      → save_aggregate db fault document m meta t ≡ ok (id, t')
      → view t'
        ≡ put document
            (record { id = uuid id; document_id = document; content = stored db m })
            (view t)
  save_aggregate-put pg fault document m meta t t' id sound dates h =
      let (e, e') = save_aggregate-with_aggregate db fault document m meta t t' id h in
      rw (e, e')
        (fun_ext (λ document'. elim (Bool-cases (same document document')) [
          | inl f ↦ rw f (view_new pg document document' m meta t sound dates f)
          | inr f ↦ rw f (view_others document document' m meta t sound f)
        ]))
