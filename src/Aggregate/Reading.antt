-- ===== src/Aggregate/Reading.antt =====
-- The rows of an aggregate, read back.
use mathlib.Core.List.{append_assoc}
use tax_deeds.Dates.{Date, iso, format_date}
use tax_deeds.Aggregate.Stored.{IsDated}
use tax_deeds.Queries.Laws.{order_by_ordered, select-middle, IsOrdered}
use tax_deeds.Dto.{Ato, Parte}
use tax_deeds.Aggregate.{iso_date, null_str, coalesce, IsPostgres, ParteRow, Postgres}
use tax_deeds.Text.{is_empty, Text}
use tax_deeds.Aggregate.Load.{parte_by_seq, load_parte, load_ato, load_partes}
use tax_deeds.Aggregate.Rows.{
  dated, ato_columns, parte_columns, ato_table, parte_tables, parte_table,
}
use tax_deeds.Base.{
  All-append, All-imp, ℕ, ◌+◌, ◌≤◌, ◌<◌, ◌≡◌, refl, sym, ap, ◌∙◌, inl, inr, true, false, List, [],
  ◌∷◌, ◌++◌, map, arith, ◌==◌, All,
}

pub coalesce-null_str : (s : Text) → coalesce (null_str s) ≡ s
coalesce-null_str [] = refl
coalesce-null_str (c ∷ s) = refl

pub dated-some : (db : Postgres) (s : Text) → is_empty s ≡ false → dated db s ≡ db.cast_date s
dated-some db [] h = cc h
dated-some db (c ∷ s) h = refl

pub format_date_inked : (d : Date) → is_empty (format_date iso d) ≡ false
unfolding format_date
format_date_inked d = refl

-- A date is read as it was written.
pub iso_date-dated :
    (db : Postgres) → IsPostgres db → (s : Text) → IsDated s → iso_date (dated db s) ≡ s
iso_date-dated db pg s (inl e) = rw e refl
iso_date-dated db pg s (inr (d, valid, pos, e)) =
    rw (e, dated-some db (format_date iso d) (format_date_inked d), pg.cast-iso d valid pos) refl

load_parte-parte_columns : (ato seq : ℕ) (p : Parte) → load_parte (parte_columns ato seq p) ≡ p
unfolding load_parte
load_parte-parte_columns ato seq p =
    rw (coalesce-null_str p.cpf_cnpj, coalesce-null_str p.tipo_pessoa) refl

map-parte_table : (ato seq : ℕ) (ps : List Parte) → map load_parte (parte_table ato seq ps) ≡ ps
unfolding parte_table
map-parte_table ato seq [] = refl
map-parte_table ato seq (p ∷ ps) =
    rw (load_parte-parte_columns ato seq p, map-parte_table ato (seq + 1) ps) refl

parte_table-IsOrdered :
    (ato seq : ℕ) (ps : List Parte) → IsOrdered parte_by_seq (parte_table ato seq ps)
unfolding parte_table
parte_table-IsOrdered ato seq [] = tt
parte_table-IsOrdered ato seq (p ∷ []) = (tt, tt)
parte_table-IsOrdered ato seq (p ∷ q ∷ ps) =
    (ground arith, parte_table-IsOrdered ato (seq + 1) (q ∷ ps))

pub parte_table-All :
    (P : ℕ → Type 0) (ato seq : ℕ) (ps : List Parte)
    → P ato
    → All (λ p. P p.ato_id) (parte_table ato seq ps)
unfolding parte_table
parte_table-All P ato seq [] h = tt
parte_table-All P ato seq (p ∷ ps) h = (h, parte_table-All P ato (seq + 1) ps h)

-- The partes of an ato are found between those of the atos before it and behind it.
load_partes-parte_table :
    (id : ℕ) (before after : List ParteRow) (ps : List Parte)
    → All (λ p. p.ato_id < id) before
    → All (λ p. id < p.ato_id) after
    → load_partes id (before ++ parte_table id 1 ps ++ after) ≡ ps
unfolding load_partes
load_partes-parte_table id before after ps low high =
    rw
      (
        select-middle (λ p. p.ato_id == id) before (parte_table id 1 ps) after
            (All-imp _ _ (λ p h. ground arith) before low)
            (parte_table-All (λ k. (k == id) ≡ true) id 1 ps (ground arith))
            (All-imp _ _ (λ p h. ground arith) after high),
        order_by_ordered parte_by_seq (parte_table id 1 ps) (parte_table-IsOrdered id 1 ps),
      )
      (map-parte_table id 1 ps)

module _ {Num : Type 0} where
  pub parte_tables-All :
      (id : ℕ) (atos : List (Ato Num)) → All (λ p. id ≤ p.ato_id) (parte_tables id atos)
  unfolding parte_tables
  parte_tables-All id [] = tt
  parte_tables-All id (a ∷ atos) =
      All-append _ (parte_table id 1 a.partes) (parte_tables (id + 1) atos)
        (parte_table-All (λ k. id ≤ k) id 1 a.partes (omega arith))
        (All-imp _ _ (λ p h. omega arith) (parte_tables (id + 1) atos)
          (parte_tables-All (id + 1) atos))

  load_ato-ato_columns :
      (db : Postgres)
      → IsPostgres db
      → (matricula seq id : ℕ) (a : Ato Num) (partes : List ParteRow) → IsDated a.date
      → load_partes id partes ≡ a.partes
      → load_ato partes (ato_columns db matricula seq id a) ≡ a
  unfolding load_ato
  load_ato-ato_columns db pg matricula seq id a partes date found =
      rw
        (
          coalesce-null_str a.tipo,
          coalesce-null_str a.moeda,
          coalesce-null_str a.descricao,
          iso_date-dated db pg a.date date,
          found,
        )
        refl

  -- All atos are read as they were written, each with its partes.
  pub map-ato_table :
      (db : Postgres)
      → IsPostgres db
      → (matricula seq id : ℕ) (atos : List (Ato Num)) (before partes : List ParteRow)
      → partes ≡ before ++ parte_tables id atos
      → All (λ a. IsDated a.date) atos
      → All (λ p. p.ato_id < id) before
      → map (load_ato partes) (ato_table db matricula seq id atos) ≡ atos
  unfolding ato_table parte_tables
  map-ato_table db pg matricula seq id [] before partes e dates low = refl
  map-ato_table db pg matricula seq id (a ∷ atos) before partes e (date, dates) low =
      let mine = parte_table id 1 a.partes in
      let others = parte_tables (id + 1) atos in
      let e' = e ∙ sym (append_assoc before mine others) in
      let here =
        load_partes-parte_table id before others a.partes low
          (All-imp _ _ (λ p h. omega arith) others (parte_tables-All (id + 1) atos)) in
      let low' =
        All-append _ before mine (All-imp _ _ (λ p h. omega arith) before low)
          (parte_table-All (λ k. k < id + 1) id 1 a.partes (omega arith)) in
      λ i.
        load_ato-ato_columns db pg matricula seq id a partes date (ap (load_partes id) e' ∙ here) i
        ∷ map-ato_table db pg matricula (seq + 1) (id + 1) atos (before ++ mine) partes e' dates
            low' i
