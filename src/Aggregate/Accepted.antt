-- ===== src/Aggregate/Accepted.antt =====
-- SaveAggregate stores every extraction that the schema accepts.
use tax_deeds.Aggregate.Written.{ato_rows_table}
use tax_deeds.Dates.{iso, format_date}
use tax_deeds.Aggregate.Reading.{dated-some, format_date_inked}
use tax_deeds.Aggregate.Rows.{
  with_aggregate, onus_columns, proprietario_columns, ids_table, parte_tables, ato_table,
  parte_table, parte_columns, dated,
}
use tax_deeds.Aggregate.Save.{save_aggregate}
use tax_deeds.Text.Laws.{same_iff}
use tax_deeds.Failure.{ok, Failure}
use tax_deeds.Aggregate.Stored.{AllDated, IsDated}
use tax_deeds.Dto.{Ato, ExtractedMatricula, Proprietario, Onus, Parte}
use tax_deeds.Schema.{
  kinds, Fits, status_values, AtoFits, OnusFits, ProprietarioFits, tipos_pessoa, papeis, ParteFits,
  OneOf, NullOrOneOf,
}
use tax_deeds.Aggregate.Save.{
  commit, insert_matricula, delete_previous, insert_extraction, begin, insert_ato,
  insert_proprietario, insert_onus, delete_aggregate, matricula_row, insert_parte, AtoIds, onus_row,
  extraction_row, ato_row, proprietario_row, proprietario_rows, ato_rows, onus_rows, parte_rows,
  cast_column, null_or_one_of, is_one_of, SaveStep, parte_row,
}
use tax_deeds.Text.{same, is_empty, Text}
use tax_deeds.Aggregate.{Aggregates, ExtractionMeta, null_str, IsPostgres, Postgres}
use tax_deeds.Base.{
  or_true, ℕ, ◌+◌, ◌≡◌, refl, inl, inr, true, false, Option, none, some, List, [], ◌∷◌, map, All,
}

is_one_of-OneOf : (allowed : List Text) (s : Text) → OneOf s allowed → is_one_of allowed s ≡ true
is_one_of-OneOf [] s h = elim h [ ]
is_one_of-OneOf (t ∷ allowed) s (inl e) = let same_text = (same_iff s t).1 e in rw same_text refl
is_one_of-OneOf (t ∷ allowed) s (inr h) = rw (is_one_of-OneOf allowed s h) (or_true (same s t))

null_or_one_of-NullOrOneOf :
    (allowed : List Text) (s : Text) → NullOrOneOf s allowed → null_or_one_of allowed s ≡ true
null_or_one_of-NullOrOneOf allowed s (inl e) = rw e refl
null_or_one_of-NullOrOneOf allowed s (inr h) =
    rw (is_one_of-OneOf allowed s h) (or_true (is_empty s))

null_str-some : (s : Text) → is_empty s ≡ false → null_str s ≡ some s
null_str-some [] h = cc h
null_str-some (c ∷ s) h = refl

cast_column-IsDated :
    (db : Postgres)
    → IsPostgres db
    → (s : Text) → IsDated s
    → cast_column db (null_str s) ≡ ok (dated db s)
cast_column-IsDated db pg s (inl e) = rw e refl
cast_column-IsDated db pg s (inr (d, valid, pos, e)) =
    let inked = format_date_inked d in
    rw
      (
        e,
        null_str-some (format_date iso d) inked,
        dated-some db (format_date iso d) inked,
        pg.cast-iso d valid pos,
      )
      refl

parte_row-ParteFits :
    (ato seq : ℕ) (p : Parte) → ParteFits p → parte_row ato seq p ≡ ok (parte_columns ato seq p)
unfolding parte_row
parte_row-ParteFits ato seq p (papel, tipo) =
    rw
      (
        is_one_of-OneOf papeis p.papel papel,
        null_or_one_of-NullOrOneOf tipos_pessoa p.tipo_pessoa tipo,
      )
      refl

module _ (fault : SaveStep → Option Failure) (works : (step : SaveStep) → fault step ≡ none) where
  parte_rows-ParteFits :
      (numero : Text) (seq ato pseq : ℕ) (ps : List Parte)
      → All ParteFits ps
      → parte_rows fault numero seq ato pseq ps ≡ ok (parte_table ato pseq ps)
  unfolding parte_rows parte_table
  parte_rows-ParteFits numero seq ato pseq [] h = refl
  parte_rows-ParteFits numero seq ato pseq (p ∷ ps) (fit, h) =
      rw
        (
          works (insert_parte seq pseq),
          parte_row-ParteFits ato pseq p fit,
          parte_rows-ParteFits numero seq ato (pseq + 1) ps h,
        )
        refl

module _ {Num : Type 0} (db : Postgres) (pg : IsPostgres db) (fault : SaveStep → Option Failure)
    (works : (step : SaveStep) → fault step ≡ none) where
  ato_rows-AtoFits :
      (matricula seq id : ℕ) (atos : List (Ato Num))
      → All AtoFits atos
      → All (λ a. IsDated a.date) atos
      → ato_rows db fault matricula seq id atos ≡ ok (ato_rows_table db matricula seq id atos)
  unfolding ato_rows ato_row ato_table parte_tables ids_table
  ato_rows-AtoFits matricula seq id [] h k = refl
  ato_rows-AtoFits matricula seq id (a ∷ atos) ((kind, _, partes), h) (date, k) =
      rw
        (
          works (insert_ato seq),
          cast_column-IsDated db pg a.date date,
          is_one_of-OneOf kinds a.kind kind,
          parte_rows-ParteFits fault works a.numero seq id 1 a.partes partes,
          ato_rows-AtoFits matricula (seq + 1) (id + 1) atos h k,
        )
        refl

  proprietario_rows-Fits :
      (matricula : ℕ) (ids : AtoIds) (n : ℕ) (ps : List (Proprietario Num))
      → All ProprietarioFits ps
      → proprietario_rows fault matricula ids n ps
        ≡ ok (map (proprietario_columns matricula ids) ps)
  unfolding proprietario_rows proprietario_row
  proprietario_rows-Fits matricula ids n [] h = refl
  proprietario_rows-Fits matricula ids n (p ∷ ps) (fit, h) =
      rw
        (
          works (insert_proprietario n),
          null_or_one_of-NullOrOneOf tipos_pessoa p.tipo_pessoa fit,
          proprietario_rows-Fits matricula ids (n + 1) ps h,
        )
        refl

  onus_rows-Fits :
      (matricula : ℕ) (ids : AtoIds) (n : ℕ) (os : List (Onus Num))
      → All OnusFits os
      → onus_rows fault matricula ids n os ≡ ok (map (onus_columns matricula ids) os)
  unfolding onus_rows onus_row
  onus_rows-Fits matricula ids n [] h = refl
  onus_rows-Fits matricula ids n (o ∷ os) (fit, h) =
      rw
        (
          works (insert_onus n),
          is_one_of-OneOf status_values o.status fit,
          onus_rows-Fits matricula ids (n + 1) os h,
        )
        refl

  -- While the database answers and casts dates in ISO form, SaveAggregate stores an extraction that
  -- breaks no CHECK constraint, whose dates are normalised from the year 1 and whose raw output is
  -- JSON: the previous aggregate of the document is gone and exactly the new rows are there.
  pub save_aggregate-Fits :
      (document : Text) (m : ExtractedMatricula Num) (meta : ExtractionMeta) (t : Aggregates Num)
      → Fits m
      → AllDated m
      → db.is_json meta.raw_response ≡ true
      → save_aggregate db fault document m meta t
        ≡ ok (t.supply + 1, with_aggregate db document m meta (delete_aggregate document t))
  unfolding save_aggregate extraction_row matricula_row delete_aggregate
  save_aggregate-Fits document m meta t fits dates json =
      let ids = ids_table (t.supply + 2) m.atos in
      rw
        (
          works begin,
          works insert_extraction,
          works delete_previous,
          works insert_matricula,
          works commit,
          json,
          cast_column-IsDated db pg m.data_abertura dates.opened,
          ato_rows-AtoFits (t.supply + 1) 1 (t.supply + 2) m.atos fits.atos dates.acts,
          proprietario_rows-Fits (t.supply + 1) ids 0 m.proprietarios fits.proprietarios,
          onus_rows-Fits (t.supply + 1) ids 0 m.onus fits.onus,
        )
        refl
