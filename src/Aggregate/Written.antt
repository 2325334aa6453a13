-- ===== src/Aggregate/Written.antt =====
-- What SaveAggregate has written where it returns no error.
use tax_deeds.Aggregate.Save.{joined, commit, save_aggregate}
use tax_deeds.Dto.{Onus, Proprietario, Parte, Ato, ExtractedMatricula}
use tax_deeds.Aggregate.Rows.{
  onus_columns, ids_table, with_aggregate, parte_tables, ato_table, parte_columns,
  proprietario_columns, matricula_columns, ato_columns, parte_table, dated,
}
use tax_deeds.Dates.{Date}
use tax_deeds.Text.{codes, Text}
use tax_deeds.Aggregate.{
  Aggregates, OnusRow, ExtractionRow, ExtractionMeta, ProprietarioRow, ParteRow, MatriculaRow,
  AtoRow, null_str, Postgres,
}
use tax_deeds.Failure.{ok, Failure}
use tax_deeds.Aggregate.Save.{
  insert_matricula, delete_previous, insert_ato, insert_extraction, insert_onus, delete_aggregate,
  onus_rows, extraction_row, insert_proprietario, AtoRows, ato_rows, onus_row, insert_parte, AtoIds,
  SaveStep, parte_row, proprietario_row, ato_row, date_column, proprietario_rows, matricula_row,
  parte_rows, cast_column, statement,
}
use tax_deeds.Base.{ℕ, ◌+◌, ◌≡◌, refl, sym, ap, ◌∙◌, Option, none, some, List, [], ◌∷◌, ◌++◌, map}
use tax_deeds.Aggregate.Results.{statement-ok, >>=-ok, ok-injective, if-ok, bare-ok, check-ok}

extraction_row-ok :
    (db : Postgres) (document : Text) (id : ℕ) (meta : ExtractionMeta) (x : ExtractionRow)
    → extraction_row db document id meta ≡ ok x
    → x ≡ record { id = id; document_id = document; meta = meta }
unfolding extraction_row
extraction_row-ok db document id meta x h = if-ok (db.is_json meta.raw_response) _ _ x h

date_column-ok : (o x : Option Date) → date_column o ≡ ok x → x ≡ o
date_column-ok none x h = cc h
date_column-ok (some d) x h = cc h

cast_column-dated :
    (db : Postgres) (s : Text) (x : Option Date)
    → cast_column db (null_str s) ≡ ok x
    → x ≡ dated db s
cast_column-dated db [] x h = cc h
cast_column-dated db (c ∷ s) x h = date_column-ok (db.cast_date (c ∷ s)) x h

parte_row-parte_columns :
    (ato seq : ℕ) (p : Parte) (row : ParteRow)
    → parte_row ato seq p ≡ ok row
    → row ≡ parte_columns ato seq p
unfolding parte_row
parte_row-parte_columns ato seq p row h = check-ok _ _ row h

parte_rows-parte_table :
    (fault : SaveStep → Option Failure) (numero : Text) (seq ato pseq : ℕ) (ps : List Parte)
    (rows : List ParteRow)
    → parte_rows fault numero seq ato pseq ps ≡ ok rows
    → rows ≡ parte_table ato pseq ps
unfolding parte_rows parte_table
parte_rows-parte_table fault numero seq ato pseq [] rows h = cc h
parte_rows-parte_table fault numero seq ato pseq (p ∷ ps) rows h =
    >>=-ok
      (statement (fault (insert_parte seq pseq)) (codes "insert parte of " ++ numero)
        (parte_row ato pseq p))
      _ rows h
      (λ row written h1.
        >>=-ok (parte_rows fault numero seq ato (pseq + 1) ps) _ rows h1 (λ rest others h2.
          let head = parte_row-parte_columns ato pseq p row (statement-ok _ _ _ row written) in
          let tail = parte_rows-parte_table fault numero seq ato (pseq + 1) ps rest others in
          cc (h2, head, tail)))

module _ {Num : Type 0} where
  ato_row-ato_columns :
      (db : Postgres) (matricula seq id : ℕ) (a : Ato Num) (row : AtoRow Num)
      → ato_row db matricula seq id a ≡ ok row
      → row ≡ ato_columns db matricula seq id a
  unfolding ato_row
  ato_row-ato_columns db matricula seq id a row h = >>=-ok _ _ row h (λ date read h1.
      let read' = cast_column-dated db a.date date read in
      let head = check-ok _ _ row h1 in head ∙ rw read' refl)

  matricula_row-matricula_columns :
      (db : Postgres) (document : Text) (extraction id : ℕ) (m : ExtractedMatricula Num)
      (row : MatriculaRow Num)
      → matricula_row db document extraction id m ≡ ok row
      → row ≡ matricula_columns db document extraction id m
  unfolding matricula_row
  matricula_row-matricula_columns db document extraction id m row h =
      >>=-ok _ _ row h (λ date read h1.
        let read' = cast_column-dated db m.data_abertura date read in cc (h1, read'))

  proprietario_row-columns :
      (matricula : ℕ) (ids : AtoIds) (p : Proprietario Num) (row : ProprietarioRow Num)
      → proprietario_row matricula ids p ≡ ok row
      → row ≡ proprietario_columns matricula ids p
  unfolding proprietario_row
  proprietario_row-columns matricula ids p row h = check-ok _ _ row h

  onus_row-onus_columns :
      (matricula : ℕ) (ids : AtoIds) (o : Onus Num) (row : OnusRow Num)
      → onus_row matricula ids o ≡ ok row
      → row ≡ onus_columns matricula ids o
  unfolding onus_row
  onus_row-onus_columns matricula ids o row h = check-ok _ _ row h

  proprietario_rows-map :
      (fault : SaveStep → Option Failure) (matricula : ℕ) (ids : AtoIds) (n : ℕ)
      (ps : List (Proprietario Num)) (rows : List (ProprietarioRow Num))
      → proprietario_rows fault matricula ids n ps ≡ ok rows
      → rows ≡ map (proprietario_columns matricula ids) ps
  unfolding proprietario_rows
  proprietario_rows-map fault matricula ids n [] rows h = cc h
  proprietario_rows-map fault matricula ids n (p ∷ ps) rows h =
      >>=-ok
        (statement (fault (insert_proprietario n)) (codes "insert proprietario " ++ p.nome)
          (proprietario_row matricula ids p))
        _ rows h
        (λ row written h1.
          >>=-ok (proprietario_rows fault matricula ids (n + 1) ps) _ rows h1 (λ rest others h2.
            let head =
              proprietario_row-columns matricula ids p row (statement-ok _ _ _ row written) in
            let tail = proprietario_rows-map fault matricula ids (n + 1) ps rest others in
            cc (h2, head, tail)))

  onus_rows-map :
      (fault : SaveStep → Option Failure) (matricula : ℕ) (ids : AtoIds) (n : ℕ)
      (os : List (Onus Num)) (rows : List (OnusRow Num))
      → onus_rows fault matricula ids n os ≡ ok rows
      → rows ≡ map (onus_columns matricula ids) os
  unfolding onus_rows
  onus_rows-map fault matricula ids n [] rows h = cc h
  onus_rows-map fault matricula ids n (o ∷ os) rows h =
      >>=-ok
        (statement (fault (insert_onus n)) (codes "insert onus " ++ o.tipo)
          (onus_row matricula ids o))
        _ rows h
        (λ row written h1.
          >>=-ok (onus_rows fault matricula ids (n + 1) os) _ rows h1 (λ rest others h2.
            let head = onus_row-onus_columns matricula ids o row (statement-ok _ _ _ row written) in
            let tail = onus_rows-map fault matricula ids (n + 1) os rest others in
            cc (h2, head, tail)))

  -- What the loop over the atos leaves.
  abbrev pub ato_rows_table : Postgres → ℕ → ℕ → ℕ → List (Ato Num) → AtoRows Num
  ato_rows_table db matricula seq id atos = record {
    rows = ato_table db matricula seq id atos;
    parte_rows = parte_tables id atos;
    ids = ids_table id atos;
  }

  ato_rows-ato_rows_table :
      (db : Postgres) (fault : SaveStep → Option Failure) (matricula seq id : ℕ)
      (atos : List (Ato Num)) (out : AtoRows Num)
      → ato_rows db fault matricula seq id atos ≡ ok out
      → out ≡ ato_rows_table db matricula seq id atos
  unfolding ato_rows ato_table parte_tables ids_table
  ato_rows-ato_rows_table db fault matricula seq id [] out h = cc h
  ato_rows-ato_rows_table db fault matricula seq id (a ∷ atos) out h =
      >>=-ok
        (statement (fault (insert_ato seq)) (codes "insert ato " ++ a.numero)
          (ato_row db matricula seq id a))
        _ out h
        (λ row written h1.
          >>=-ok (parte_rows fault a.numero seq id 1 a.partes) _ out h1 (λ partes ps h2.
            >>=-ok (ato_rows db fault matricula (seq + 1) (id + 1) atos) _ out h2 (λ rest others h3.
              let head =
                ato_row-ato_columns db matricula seq id a row (statement-ok _ _ _ row written) in
              let mid = parte_rows-parte_table fault a.numero seq id 1 a.partes partes ps in
              let tail =
                ato_rows-ato_rows_table db fault matricula (seq + 1) (id + 1) atos rest others in
              ok-injective _ _ (sym h3) ∙ rw (head, mid, tail) refl)))

  -- Where SaveAggregate returns no error, the previous aggregate of the document is gone and the rows
  -- of the new one are there.
  pub save_aggregate-with_aggregate :
      (db : Postgres) (fault : SaveStep → Option Failure) (document : Text)
      (m : ExtractedMatricula Num) (meta : ExtractionMeta) (t t' : Aggregates Num) (id : ℕ)
      → save_aggregate db fault document m meta t ≡ ok (id, t')
      → (id ≡ t.supply + 1) × (t' ≡ with_aggregate db document m meta (delete_aggregate document t))
  unfolding save_aggregate delete_aggregate
  save_aggregate-with_aggregate db fault document m meta t t' id h =
      >>=-ok
        (statement (fault insert_extraction) (codes "insert extraction")
          (extraction_row db document t.supply meta))
        _ _ (bare-ok _ _ _ h)
        (λ x wx h1.
          >>=-ok
            (statement (fault delete_previous) (codes "replace previous aggregate")
              (ok (delete_aggregate document t)))
            _ _ h1
            (λ rest wd h2.
              >>=-ok
                (statement (fault insert_matricula) (codes "insert matricula")
                  (matricula_row db document t.supply (t.supply + 1) m))
                _ _ h2
                (λ r wr h3.
                  >>=-ok (ato_rows db fault (t.supply + 1) 1 (t.supply + 2) m.atos) _ _ h3
                    (λ out wo h4.
                      >>=-ok (proprietario_rows fault (t.supply + 1) out.ids 0 m.proprietarios) _ _
                        h4
                        (λ owners wp h5.
                          >>=-ok (onus_rows fault (t.supply + 1) out.ids 0 m.onus) _ _ h5
                            (λ liens wl h6.
                              let last = ok-injective _ _ (
                                bare-ok (fault commit)
                                  (ok (t.supply + 1, joined rest x r out owners liens)) (id, t')
                                  h6) in
                              let x' =
                                extraction_row-ok db document t.supply meta x
                                  (statement-ok _ _ _ x wx) in
                              let rest' = ok-injective _ _ (statement-ok _ _ _ rest wd) in
                              let r' =
                                matricula_row-matricula_columns db document t.supply (t.supply + 1)
                                  m r (statement-ok _ _ _ r wr) in
                              let out' =
                                ato_rows-ato_rows_table db fault (t.supply + 1) 1 (t.supply + 2)
                                  m.atos out wo in
                              let owners' =
                                proprietario_rows-map fault (t.supply + 1) out.ids 0 m.proprietarios
                                  owners wp in
                              let liens' =
                                onus_rows-map fault (t.supply + 1) out.ids 0 m.onus liens wl in
                              (
                                sym (ap (λ p. p.0) last),
                                sym (ap (λ p. p.1) last)
                                    ∙ rw (x', sym rest', r', owners', liens', out') refl,
                              )))))))
