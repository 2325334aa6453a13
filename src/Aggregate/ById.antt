-- ===== src/Aggregate/ById.antt =====
-- The two ways to read an aggregate, by the document and by the matrícula.
use mathlib.Core.Path.{subst}
use tax_deeds.Dto.{MatriculaResponse}
use tax_deeds.Aggregate.Sound.{IsSound}
use tax_deeds.Text.Laws.{same_iff, same_refl}
use tax_deeds.Aggregate.Frame.{find_head, find_matricula-All}
use tax_deeds.Aggregate.Load.{load_content, get_by_id, response, get_by_document_id, find_matricula}
use tax_deeds.Queries.Keys.{IsAscending}
use tax_deeds.Aggregate.{Aggregates, Postgres, MatriculaRow}
use tax_deeds.Text.{same, Text}
use tax_deeds.Base.{
  All-imp, ℕ, ◌≡◌, ◌≢◌, refl, sym, ◌↔◌, inl, inr, Bool, true, Option, none, some, List, [], ◌∷◌,
  arith, Bool-cases, All,
}

module _ {Num : Type 0} (key : MatriculaRow Num → Text) where
  abbrev Distinct : List (MatriculaRow Num) → Type 0
  Distinct [] = Unit
  Distinct (r ∷ rows) = All (λ s. key r ≢ key s) rows × Distinct rows

  others_differ :
      (p : MatriculaRow Num → Bool) (k : Text) (rows : List (MatriculaRow Num))
      → All (λ s. k ≢ key s) rows
      → All (λ s. same (key s) k ≡ true → p s ≡ true) rows
  others_differ p k rows h =
      All-imp _ _ (λ s d e. absurd (d (sym ((same_iff (key s) k).0 e)))) rows h

  -- Where keys are distinct, the row that a test finds is the only one of its key.
  only_one :
      (p : MatriculaRow Num → Bool) (rows : List (MatriculaRow Num)) (r : MatriculaRow Num)
      → Distinct rows
      → find_matricula p rows ≡ some r
      → All (λ s. same (key s) (key r) ≡ true → p s ≡ true) rows
  unfolding find_matricula
  only_one p [] r d h = tt
  only_one p (s ∷ rows) r (apart, d) h = elim (find_head (p s) s r (find_matricula p rows) h) [
    | inl (f, e) ↦ (
      λ _. f,
      subst (λ x. All (λ b. same (key b) (key x) ≡ true → p b ≡ true) rows) e
          (others_differ p (key s) rows apart),
    )
    | inr (_, e) ↦ (
      λ f. absurd (
          (find_matricula-All (λ x. key s ≢ key x) p rows r e apart).1
            ((same_iff (key s) (key r)).0 f)),
      only_one p rows r d e,
    )
  ]

  find_by_key :
      (p : MatriculaRow Num → Bool) (rows : List (MatriculaRow Num)) (r : MatriculaRow Num)
      → All (λ s. same (key s) (key r) ≡ true → p s ≡ true) rows
      → find_matricula p rows ≡ some r
      → find_matricula (λ s. same (key s) (key r)) rows ≡ some r
  unfolding find_matricula
  find_by_key p [] r only h = h
  find_by_key p (s ∷ rows) r (here, only) h = elim (find_head (p s) s r (find_matricula p rows) h) [
    | inl (f, e) ↦ rw (e, same_refl (key r)) refl
    | inr (f, e) ↦ elim (Bool-cases (same (key s) (key r))) [
      | inl g ↦ absurd (cc (here g, f))
      | inr g ↦ rw g (find_by_key p rows r only e)
    ]
  ]

  -- The row that a test finds is found by its key.
  found_by_key :
      (p : MatriculaRow Num → Bool) (rows : List (MatriculaRow Num)) (r : MatriculaRow Num)
      → Distinct rows
      → find_matricula p rows ≡ some r
      → find_matricula (λ s. same (key s) (key r)) rows ≡ some r
  found_by_key p rows r d h = find_by_key p rows r (only_one p rows r d h) h

ascending-Distinct :
    {Num : Type 0} (uuid : ℕ → Text)
    → ((j k : ℕ) → uuid j ≡ uuid k → j ≡ k)
    → (rows : List (MatriculaRow Num)) → IsAscending (λ r. r.id) rows
    → Distinct (λ r. uuid r.id) rows
ascending-Distinct uuid injective [] h = tt
ascending-Distinct uuid injective (r ∷ rows) (p, h) = (
  All-imp _ _ (λ s lt e. let same_id = injective r.id s.id e in absurd (omega arith)) rows p,
  ascending-Distinct uuid injective rows h,
)

module _ {Num : Type 0} (db : Postgres) (uuid : ℕ → Text)
    (injective : (j k : ℕ) → uuid j ≡ uuid k → j ≡ k) (t : Aggregates Num) (sound : IsSound t) where
  response-some :
      (o : Option (MatriculaRow Num)) (answer : MatriculaResponse Num)
      → response db uuid t o ≡ some answer
      → (r : MatriculaRow Num) × (o ≡ some r)
        × (answer
            ≡ record { id = uuid r.id; document_id = r.document_id; content = load_content db t r })
  response-some none answer h = cc h
  response-some (some r) answer h = (r, refl, cc h)

  -- On sound tables, an aggregate that is read by its document is read by its identifier, and the
  -- other way round, if no two identifiers have one text.
  pub get_by_id-get_by_document_id :
      (answer : MatriculaResponse Num)
      → (get_by_document_id db uuid answer.document_id t ≡ some answer)
        ↔ (get_by_id db uuid answer.id t ≡ some answer)
  unfolding get_by_document_id get_by_id
  get_by_id-get_by_document_id answer = (
    λ h.
        let (r, found, e) = response-some _ answer h in
        rw
          (
            e,
            found_by_key (λ s. uuid s.id) _ t.matriculas r
                (ascending-Distinct uuid injective t.matriculas sound.matriculas_ascending) found,
          )
          refl,
    λ h.
        let (r, found, e) = response-some _ answer h in
        rw (e, found_by_key (λ s. s.document_id) _ t.matriculas r sound.one_each found) refl,
  )
