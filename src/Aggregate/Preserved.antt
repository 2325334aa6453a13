-- ===== src/Aggregate/Preserved.antt =====
-- The tables of the aggregates stay sound.
use tax_deeds.Text.Laws.{same_iff}
use tax_deeds.Aggregate.Content.{All-columns, ato_table-All}
use tax_deeds.Aggregate.Written.{save_aggregate-with_aggregate}
use tax_deeds.Aggregate.Reading.{parte_table-All}
use tax_deeds.Aggregate.Save.{ato_ref, ato_id, AtoIds, save_aggregate}
use tax_deeds.Failure.{ok, Failure}
use tax_deeds.Queries.Keys.{
  append-IsAscending, All-each, select-All, select-IsAscending, IsAscending, select-All_kept,
}
use tax_deeds.Dto.{ExtractedMatricula, Ato}
use tax_deeds.Aggregate.Sound.{RefersBelow, IsSound, OnePerDocument}
use tax_deeds.Aggregate.Rows.{
  onus_columns, ids_table, proprietario_columns, matricula_columns, with_aggregate, parte_table,
  parte_tables, ato_table,
}
use tax_deeds.Text.{same, Text}
use tax_deeds.Aggregate.Save.{SaveStep, delete_aggregate}
use tax_deeds.Queries.{select}
use tax_deeds.Aggregate.{ExtractionMeta, Aggregates, MatriculaRow, Postgres}
use tax_deeds.Base.{
  none, some, not-true, All-imp, All-append, ℕ, suc, ◌+◌, ◌≤◌, ◌<◌, ◌≡◌, ◌≢◌, inl, inr, Bool, false,
  Option, List, [], ◌∷◌, ◌++◌, arith, Bool-cases, All, length,
}

ato_id-RefersBelow :
    (bound : ℕ) (numero : Text) (ids : AtoIds)
    → All (λ p. p.1 < bound) ids
    → RefersBelow bound (ato_id numero ids)
unfolding ato_id
ato_id-RefersBelow bound numero [] h = tt
ato_id-RefersBelow bound numero ((n, id) ∷ ids) (lt, h) = elim (Bool-cases (same n numero)) [
  | inl e ↦ rw e lt
  | inr e ↦ rw e (ato_id-RefersBelow bound numero ids h)
]

ato_ref-RefersBelow :
    (bound : ℕ) (numero : Text) (ids : AtoIds)
    → All (λ p. p.1 < bound) ids
    → RefersBelow bound (ato_ref ids numero)
ato_ref-RefersBelow bound [] ids h = tt
ato_ref-RefersBelow bound (c ∷ s) ids h = ato_id-RefersBelow bound (c ∷ s) ids h

-- A reference stays below a supply that has grown.
still_below :
    (k : ℕ) (ref : Option ℕ) (bound : ℕ) → k ≤ bound → RefersBelow k ref → RefersBelow bound ref
still_below k none bound le h = tt
still_below k (some id) bound le h = omega arith

module _ {Num : Type 0} where
  select-OnePerDocument :
      (test : MatriculaRow Num → Bool) (rows : List (MatriculaRow Num))
      → OnePerDocument rows
      → OnePerDocument (select test rows)
  unfolding select
  select-OnePerDocument test [] h = tt
  select-OnePerDocument test (r ∷ rows) (p, h) = elim (Bool-cases (test r)) [
    | inl e ↦ rw e (select-All_kept _ test rows p, select-OnePerDocument test rows h)
    | inr e ↦ rw e (select-OnePerDocument test rows h)
  ]

  append-OnePerDocument :
      (rows : List (MatriculaRow Num)) (new : MatriculaRow Num)
      → OnePerDocument rows
      → All (λ r. r.document_id ≢ new.document_id) rows
      → OnePerDocument (rows ++ new ∷ [])
  append-OnePerDocument [] new h d = (tt, tt)
  append-OnePerDocument (r ∷ rows) new (p, h) (q, d) =
      (All-append _ rows (new ∷ []) p (q, tt), append-OnePerDocument rows new h d)

  pub delete_aggregate-IsSound :
      (document : Text) (t : Aggregates Num) → IsSound t → IsSound (delete_aggregate document t)
  unfolding delete_aggregate
  delete_aggregate-IsSound document t sound = record {
    matriculas_below = select-All_kept _ _ t.matriculas sound.matriculas_below;
    matriculas_ascending = select-IsAscending _ _ t.matriculas sound.matriculas_ascending;
    one_each = select-OnePerDocument _ t.matriculas sound.one_each;
    atos_below = select-All_kept _ _ t.atos sound.atos_below;
    atos_ascending = select-IsAscending _ _ t.atos sound.atos_ascending;
    atos_owned = select-All_kept _ _ t.atos sound.atos_owned;
    partes_owned = select-All_kept _ _ t.partes sound.partes_owned;
    owners_owned = select-All_kept _ _ t.proprietarios sound.owners_owned;
    liens_owned = select-All_kept _ _ t.onus sound.liens_owned;
    extractions_below = sound.extractions_below;
    extractions_ascending = sound.extractions_ascending;
    extracted_from = select-All_kept _ _ t.matriculas sound.extracted_from;
    acquired_by = select-All_kept _ _ t.proprietarios sound.acquired_by;
    constituted_by = select-All_kept _ _ t.onus sound.constituted_by;
    cancelled_by = select-All_kept _ _ t.onus sound.cancelled_by;
  }

  -- No row of the document is left.
  pub delete_aggregate-none :
      (document : Text) (t : Aggregates Num)
      → All (λ r. same r.document_id document ≡ false) (delete_aggregate document t).matriculas
  unfolding delete_aggregate
  delete_aggregate-none document t =
      All-imp _ _ (λ r h. not-true (same r.document_id document) h.0) _
        (select-All (λ r. Unit) _ t.matriculas (All-each _ t.matriculas (λ r. tt)))

module _ {Num : Type 0} (db : Postgres) where
  ato_table-ids :
      (matricula seq id : ℕ) (atos : List (Ato Num))
      → All
          (λ a. (id ≤ a.id) × (a.id < id + length (ato_table db matricula seq id atos)))
          (ato_table db matricula seq id atos)
  unfolding ato_table
  ato_table-ids matricula seq id [] = tt
  ato_table-ids matricula seq id (a ∷ atos) = (
    (omega arith, omega arith),
    All-imp _ _ (λ b h. (omega arith, omega arith)) _
        (ato_table-ids matricula (seq + 1) (id + 1) atos),
  )

  ato_table-IsAscending :
      (matricula seq id : ℕ) (atos : List (Ato Num))
      → IsAscending (λ a. a.id) (ato_table db matricula seq id atos)
  unfolding ato_table
  ato_table-IsAscending matricula seq id [] = tt
  ato_table-IsAscending matricula seq id (a ∷ atos) = (
    All-imp _ _ (λ b h. omega arith) _ (ato_table-ids matricula (seq + 1) (id + 1) atos),
    ato_table-IsAscending matricula (seq + 1) (id + 1) atos,
  )

  parte_tables_bound :
      (matricula seq id : ℕ) (atos : List (Ato Num))
      → All
          (λ p. p.ato_id < id + length (ato_table db matricula seq id atos))
          (parte_tables id atos)
  unfolding ato_table parte_tables
  parte_tables_bound matricula seq id [] = tt
  parte_tables_bound matricula seq id (a ∷ atos) =
      All-append _ (parte_table id 1 a.partes) (parte_tables (id + 1) atos)
        (parte_table-All
          (λ k. k < id + suc (length (ato_table db matricula (seq + 1) (id + 1) atos))) id 1
          a.partes (omega arith))
        (All-imp _ _ (λ p h. omega arith) _ (parte_tables_bound matricula (seq + 1) (id + 1) atos))

  ids_table_bound :
      (matricula seq id : ℕ) (atos : List (Ato Num))
      → All (λ p. p.1 < id + length (ato_table db matricula seq id atos)) (ids_table id atos)
  unfolding ato_table ids_table
  ids_table_bound matricula seq id [] = tt
  ids_table_bound matricula seq id (a ∷ atos) =
      All-append _ (ids_table (id + 1) atos) ((a.numero, id) ∷ [])
        (All-imp _ _ (λ p h. omega arith) _ (ids_table_bound matricula (seq + 1) (id + 1) atos))
        (omega arith, tt)

  with_aggregate-IsSound :
      (document : Text) (m : ExtractedMatricula Num) (meta : ExtractionMeta) (t : Aggregates Num)
      → IsSound t
      → All (λ r. same r.document_id document ≡ false) t.matriculas
      → IsSound (with_aggregate db document m meta t)
  with_aggregate-IsSound document m meta t sound none_left =
      let k = t.supply + 1 in
      let id = t.supply + 2 in
      let rows = ato_table db k 1 id m.atos in
      let new = matricula_columns db document t.supply k m in
      record {
        matriculas_below =
            All-append _ t.matriculas (new ∷ [])
              (All-imp _ _ (λ r h. omega arith) t.matriculas sound.matriculas_below)
              (omega arith, tt);
        matriculas_ascending =
            append-IsAscending (λ r. r.id) t.supply t.matriculas (new ∷ [])
              sound.matriculas_ascending sound.matriculas_below (tt, tt) (omega arith, tt);
        one_each = append-OnePerDocument t.matriculas new sound.one_each (
            All-imp _ _ (λ r h e. absurd (cc ((same_iff r.document_id document).1 e, h)))
              t.matriculas none_left);
        atos_below =
            All-append _ t.atos rows (All-imp _ _ (λ a h. omega arith) t.atos sound.atos_below)
              (All-imp _ _ (λ a h. h.1) rows (ato_table-ids k 1 id m.atos));
        atos_ascending =
            append-IsAscending (λ a. a.id) t.supply t.atos rows sound.atos_ascending
              sound.atos_below (ato_table-IsAscending k 1 id m.atos)
              (All-imp _ _ (λ a h. omega arith) rows (ato_table-ids k 1 id m.atos));
        atos_owned =
            All-append _ t.atos rows (All-imp _ _ (λ a h. omega arith) t.atos sound.atos_owned)
              (ato_table-All db (λ j. j < t.supply + 2 + length rows) k 1 id m.atos (omega arith));
        partes_owned =
            All-append _ t.partes (parte_tables id m.atos)
              (All-imp _ _ (λ p h. omega arith) t.partes sound.partes_owned)
              (parte_tables_bound k 1 id m.atos);
        owners_owned =
            All-append _ t.proprietarios _
              (All-imp _ _ (λ p h. omega arith) t.proprietarios sound.owners_owned)
              (All-columns _ (proprietario_columns k (ids_table id m.atos)) m.proprietarios
                (λ p. omega arith));
        liens_owned =
            All-append _ t.onus _ (All-imp _ _ (λ o h. omega arith) t.onus sound.liens_owned)
              (All-columns _ (onus_columns k (ids_table id m.atos)) m.onus (λ o. omega arith));
        extractions_below =
            All-append _ t.extractions _
              (All-imp _ _ (λ x h. omega arith) t.extractions sound.extractions_below)
              (omega arith, tt);
        extractions_ascending =
            append-IsAscending (λ x. x.id) t.supply t.extractions _ sound.extractions_ascending
              sound.extractions_below (tt, tt) (omega arith, tt);
        extracted_from =
            All-append _ t.matriculas (new ∷ [])
              (All-imp _ _ (λ r h. omega arith) t.matriculas sound.extracted_from)
              (omega arith, tt);
        acquired_by =
            All-append _ t.proprietarios _
              (All-imp _ _ (λ p h. still_below t.supply p.ato_aquisicao_id _ (omega arith) h)
                t.proprietarios sound.acquired_by)
              (All-columns _ (proprietario_columns k (ids_table id m.atos)) m.proprietarios
                (λ p. ato_ref-RefersBelow _ p.ato_aquisicao _ (ids_table_bound k 1 id m.atos)));
        constituted_by =
            All-append _ t.onus _
              (All-imp _ _ (λ o h. still_below t.supply o.ato_constituicao_id _ (omega arith) h)
                t.onus sound.constituted_by)
              (All-columns _ (onus_columns k (ids_table id m.atos)) m.onus
                (λ o. ato_ref-RefersBelow _ o.ato_constituicao _ (ids_table_bound k 1 id m.atos)));
        cancelled_by =
            All-append _ t.onus _
              (All-imp _ _ (λ o h. still_below t.supply o.ato_cancelamento_id _ (omega arith) h)
                t.onus sound.cancelled_by)
              (All-columns _ (onus_columns k (ids_table id m.atos)) m.onus
                (λ o. ato_ref-RefersBelow _ o.ato_cancelamento _ (ids_table_bound k 1 id m.atos)));
      }

  -- SaveAggregate keeps the tables sound: in the tables of extractions, matrículas and atos no
  -- identifier is there twice; there is one matrícula for each document at most; and every identifier
  -- and every reference, also one that may be NULL, is from before the supply.
  pub save_aggregate-IsSound :
      (fault : SaveStep → Option Failure) (document : Text) (m : ExtractedMatricula Num)
      (meta : ExtractionMeta) (t t' : Aggregates Num) (id : ℕ)
      → IsSound t
      → save_aggregate db fault document m meta t ≡ ok (id, t')
      → IsSound t'
  save_aggregate-IsSound fault document m meta t t' id sound h =
      rw (save_aggregate-with_aggregate db fault document m meta t t' id h).1 (
        with_aggregate-IsSound document m meta (delete_aggregate document t)
          (delete_aggregate-IsSound document t sound) (delete_aggregate-none document t))
