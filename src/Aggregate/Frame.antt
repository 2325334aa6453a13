-- ===== src/Aggregate/Frame.antt =====
-- Replacing the aggregate of one document leaves the others' as they were.
use tax_deeds.Aggregate.Reading.{parte_tables-All}
use tax_deeds.Aggregate.Content.{All-columns, ato_table-All}
use tax_deeds.Aggregate.Save.{delete_aggregate}
use tax_deeds.Aggregate.Rows.{
  onus_columns, proprietario_columns, parte_tables, ids_table, ato_table, with_aggregate,
}
use tax_deeds.Aggregate.Sound.{IsSound}
use tax_deeds.Dto.{ExtractedMatricula}
use tax_deeds.Queries.Keys.{
  map-pointwise, any_same_id, All-imp2, select-All, order_by-All, All-each,
}
use tax_deeds.Aggregate.{AtoRow, ExtractionMeta, Postgres, MatriculaRow, Aggregates}
use tax_deeds.Queries.Laws.{select-select_keeps, select-append_old}
use tax_deeds.Text.{same, Text}
use tax_deeds.Queries.{order_by, select}
use tax_deeds.Aggregate.Load.{load_partes, load_content, load_ato, by_seq, atos_of, find_matricula}
use tax_deeds.Base.{
  ==_iff, ==_gt, any, All-imp, ℕ, ◌+◌, ◌<◌, ◌≡◌, refl, sym, ap, ◌∙◌, ◌⊎◌, inl, inr, Bool, true,
  false, ◌&&◌, not, Option, some, List, [], ◌∷◌, ◌++◌, map, arith, ◌==◌, if◌then◌else◌, Bool-cases,
  All,
}

-- What is selected by a reference survives where it is not gone and no new row has it.
select_others {ℓ} :
    {A : Type ℓ} (owner : A → ℕ) (gone : ℕ → Bool) (k : ℕ) (old new : List A)
    → gone k ≡ false
    → All (λ a. k < owner a) new
    → select (λ a. owner a == k) (select (λ a. not (gone (owner a))) old ++ new)
      ≡ select (λ a. owner a == k) old
select_others owner gone k old new live high =
    select-append_old (λ a. owner a == k) (select (λ a. not (gone (owner a))) old) new
      (All-imp _ _ (λ a h. ==_gt (owner a) k h) new high)
    ∙ select-select_keeps (λ a. owner a == k) (λ a. not (gone (owner a))) old
        (All-each _ old (λ a e. rw ((==_iff (owner a) k).0 e, live) refl))

pub find_head {ℓ} :
    {A : Type ℓ} (b : Bool) (s r : A) (rest : Option A)
    → (if b then some s else rest) ≡ some r
    → ((b ≡ true) × (s ≡ r)) ⊎ ((b ≡ false) × (rest ≡ some r))
find_head true s r rest h = inl (refl, cc h)
find_head false s r rest h = inr (refl, h)

module _ {Num : Type 0} where
  -- `DELETE` takes a matrícula's rows exactly if it is of the document.
  abbrev pub is_gone : Text → Aggregates Num → ℕ → Bool
  is_gone document t k = any (λ r. r.id == k && same r.document_id document) t.matriculas

  pub find_matricula-All :
      (P : MatriculaRow Num → Type 0) (test : MatriculaRow Num → Bool)
      (rows : List (MatriculaRow Num)) (r : MatriculaRow Num)
      → find_matricula test rows ≡ some r
      → All P rows
      → (test r ≡ true) × P r
  unfolding find_matricula
  find_matricula-All P test [] r e h = cc e
  find_matricula-All P test (s ∷ rows) r e (p, h) =
      elim (find_head (test s) s r (find_matricula test rows) e) [
        | inl (f, e') ↦ rw (sym e') (f, p)
        | inr (_, e') ↦ find_matricula-All P test rows r e' h
      ]

  pub find_matricula-select :
      (test keep : MatriculaRow Num → Bool) (rows : List (MatriculaRow Num))
      → ((r : MatriculaRow Num) → test r ≡ true → keep r ≡ true)
      → find_matricula test (select keep rows) ≡ find_matricula test rows
  unfolding find_matricula select
  find_matricula-select test keep [] h = refl
  find_matricula-select test keep (s ∷ rows) h = elim (Bool-cases (keep s)) [
    | inl e ↦ rw (e, find_matricula-select test keep rows h) refl
    | inr e ↦ elim (Bool-cases (test s)) [
      | inl f ↦ absurd (cc (h s f, e))
      | inr f ↦ rw (e, f) (find_matricula-select test keep rows h)
    ]
  ]

  pub find_matricula-append :
      (test : MatriculaRow Num → Bool) (rows : List (MatriculaRow Num)) (new : MatriculaRow Num)
      → test new ≡ false
      → find_matricula test (rows ++ new ∷ []) ≡ find_matricula test rows
  unfolding find_matricula
  find_matricula-append test [] new h = rw h refl
  find_matricula-append test (s ∷ rows) new h = rw (find_matricula-append test rows new h) refl

  pub find_matricula-new :
      (test : MatriculaRow Num → Bool) (rows : List (MatriculaRow Num)) (new : MatriculaRow Num)
      → All (λ r. test r ≡ false) rows
      → test new ≡ true
      → find_matricula test (rows ++ new ∷ []) ≡ some new
  unfolding find_matricula
  find_matricula-new test [] new low h = rw h refl
  find_matricula-new test (s ∷ rows) new (p, low) h = rw p (find_matricula-new test rows new low h)

module _ {Num : Type 0} (db : Postgres) (document : Text) (m : ExtractedMatricula Num)
    (meta : ExtractionMeta) (t : Aggregates Num) (sound : IsSound t) (r : MatriculaRow Num)
    (below : r.id < t.supply) (live : is_gone document t r.id ≡ false) where
  abbrev after : Aggregates Num
  after = with_aggregate db document m meta (delete_aggregate document t)

  atos_of_after : atos_of r.id after.atos ≡ atos_of r.id t.atos
  unfolding atos_of delete_aggregate
  atos_of_after = ap (order_by by_seq) (
      select_others (λ a. a.matricula_id) (is_gone document t) r.id t.atos
        (ato_table db (t.supply + 1) 1 (t.supply + 2) m.atos) live
        (ato_table-All db (λ k. r.id < k) (t.supply + 1) 1 (t.supply + 2) m.atos (omega arith)))

  abbrev Known : AtoRow Num → Type 0
  Known a =
      (a.id < t.supply)
      × (any (λ b. b.id == a.id && is_gone document t b.matricula_id) t.atos
          ≡ is_gone document t a.matricula_id)

  -- The atos of the matrícula are below the supply and none of them is gone.
  abbrev Kept : AtoRow Num → Type 0
  Kept a =
      (a.id < t.supply)
      × (any (λ b. b.id == a.id && is_gone document t b.matricula_id) t.atos ≡ false)

  still_there : (a : AtoRow Num) → ((a.matricula_id == r.id) ≡ true) × Known a → Kept a
  still_there a (e, (low, known)) = (low, known ∙ rw ((==_iff a.matricula_id r.id).0 e) live)

  atos_of-Kept : All Kept (atos_of r.id t.atos)
  unfolding atos_of
  atos_of-Kept =
      let known : All Known t.atos =
        All-imp2 _ _ Known (λ a p q. (p, q)) t.atos sound.atos_below
          (any_same_id (λ a. a.id) (λ b. is_gone document t b.matricula_id) t.atos
            sound.atos_ascending) in
      order_by-All Kept by_seq _
        (All-imp _ Kept still_there _ (select-All Known (λ a. a.matricula_id == r.id) t.atos known))

  load_ato_after : (a : AtoRow Num) → Kept a → load_ato after.partes a ≡ load_ato t.partes a
  unfolding load_ato load_partes delete_aggregate
  load_ato_after a (low, kept) =
      let gone : ℕ → Bool = λ k. any (λ b. b.id == k && is_gone document t b.matricula_id) t.atos in
      let new = parte_tables (t.supply + 2) m.atos in
      rw
        (select_others (λ p. p.ato_id) gone a.id t.partes new kept
          (All-imp _ _ (λ p h. omega arith) new (parte_tables-All (t.supply + 2) m.atos)))
        refl

  atos_after :
      map (load_ato after.partes) (atos_of r.id t.atos)
      ≡ map (load_ato t.partes) (atos_of r.id t.atos)
  atos_after = map-pointwise _ _ _ (All-imp Kept _ load_ato_after _ atos_of-Kept)

  -- What is read of a matrícula of another document is what was read before.
  pub load_content-after : load_content db after r ≡ load_content db t r
  unfolding load_content delete_aggregate
  load_content-after =
      let k = t.supply + 1 in
      let ids = ids_table (t.supply + 2) m.atos in
      rw
        (
          atos_of_after,
          atos_after,
          select_others (λ p. p.matricula_id) (is_gone document t) r.id t.proprietarios
              (map (proprietario_columns k ids) m.proprietarios) live
              (All-columns _ (proprietario_columns k ids) m.proprietarios (λ p. omega arith)),
          select_others (λ o. o.matricula_id) (is_gone document t) r.id t.onus
              (map (onus_columns k ids) m.onus) live
              (All-columns _ (onus_columns k ids) m.onus (λ o. omega arith)),
        )
        refl
