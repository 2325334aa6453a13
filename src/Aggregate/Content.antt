-- ===== src/Aggregate/Content.antt =====
-- A new aggregate is read from between the rows of the others.
use tax_deeds.Aggregate.Sound.{IsSound}
use tax_deeds.Text.{Text}
use tax_deeds.Aggregate.References.{numero_at-ato_ref}
use tax_deeds.Aggregate.Reading.{iso_date-dated, map-ato_table, coalesce-null_str}
use tax_deeds.Aggregate.Stored.{AllDated, stored, listed_owner, listed_lien}
use tax_deeds.Queries.Laws.{map-order_by, select-append_new, order_by_ordered, IsOrdered}
use tax_deeds.Dto.{ExtractedMatricula, Onus, Proprietario, Ato}
use tax_deeds.Queries.{order_by, select}
use tax_deeds.Aggregate.Rows.{
  parte_tables, matricula_columns, with_aggregate, ids_table, proprietario_columns, onus_columns,
  ato_table,
}
use tax_deeds.Aggregate.Load.{
  by_nome, by_tipo, load_content, by_seq, load_onus, load_proprietario, atos_of,
}
use tax_deeds.Aggregate.{
  Aggregates, ExtractionMeta, IsPostgres, OnusRow, ProprietarioRow, AtoRow, Postgres,
}
use tax_deeds.Base.{
  All-imp, ℕ, ◌+◌, ◌<◌, ◌≡◌, refl, ap, ◌∙◌, List, [], ◌∷◌, ◌++◌, map, arith, ◌==◌, All,
}

-- The rows of a matrícula, all of them at the end of a table.
select_owned {ℓ} :
    {A : Type ℓ} (owner : A → ℕ) (k : ℕ) (before rows : List A)
    → All (λ a. owner a < k) before
    → All (λ a. owner a ≡ k) rows
    → select (λ a. owner a == k) (before ++ rows) ≡ rows
select_owned owner k before rows low h =
    select-append_new (λ a. owner a == k) before rows (All-imp _ _ (λ a h. ground arith) before low)
      (All-imp _ _ (λ a h. ground arith) rows h)

pub All-columns {ℓ κ} :
    {A : Type ℓ} {B : Type κ} (P : B → Type 0) (f : A → B) (as' : List A)
    → ((a : A) → P (f a))
    → All P (map f as')
All-columns P f [] h = tt
All-columns P f (a ∷ as') h = (h a, All-columns P f as' h)

module _ {Num : Type 0} (db : Postgres) where
  pub ato_table-All :
      (P : ℕ → Type 0) (matricula seq id : ℕ) (atos : List (Ato Num))
      → P matricula
      → All (λ a. P a.matricula_id) (ato_table db matricula seq id atos)
  unfolding ato_table
  ato_table-All P matricula seq id [] h = tt
  ato_table-All P matricula seq id (a ∷ atos) h =
      (h, ato_table-All P matricula (seq + 1) (id + 1) atos h)

  ato_table-IsOrdered :
      (matricula seq id : ℕ) (atos : List (Ato Num))
      → IsOrdered by_seq (ato_table db matricula seq id atos)
  unfolding ato_table
  ato_table-IsOrdered matricula seq id [] = tt
  ato_table-IsOrdered matricula seq id (a ∷ []) = (tt, tt)
  ato_table-IsOrdered matricula seq id (a ∷ b ∷ atos) =
      (ground arith, ato_table-IsOrdered matricula (seq + 1) (id + 1) (b ∷ atos))

  atos_of-ato_table :
      (matricula seq id : ℕ) (before : List (AtoRow Num)) (atos : List (Ato Num))
      → All (λ a. a.matricula_id < matricula) before
      → atos_of matricula (before ++ ato_table db matricula seq id atos)
        ≡ ato_table db matricula seq id atos
  unfolding atos_of
  atos_of-ato_table matricula seq id before atos low =
      rw
        (select_owned (λ a. a.matricula_id) matricula before (ato_table db matricula seq id atos)
          low (ato_table-All (λ k. k ≡ matricula) matricula seq id atos refl))
        (order_by_ordered by_seq (ato_table db matricula seq id atos)
          (ato_table-IsOrdered matricula seq id atos))

  map-owners :
      (matricula seq id : ℕ) (atos : List (Ato Num)) (ps : List (Proprietario Num))
      → map
          (load_proprietario (ato_table db matricula seq id atos))
          (map (proprietario_columns matricula (ids_table id atos)) ps)
        ≡ map (listed_owner atos) ps
  unfolding load_proprietario
  map-owners matricula seq id atos [] = refl
  map-owners matricula seq id atos (p ∷ ps) =
      rw
        (
          coalesce-null_str p.cpf_cnpj,
          coalesce-null_str p.tipo_pessoa,
          numero_at-ato_ref db matricula seq id atos p.ato_aquisicao,
          map-owners matricula seq id atos ps,
        )
        refl

  map-liens :
      (matricula seq id : ℕ) (atos : List (Ato Num)) (os : List (Onus Num))
      → map
          (load_onus (ato_table db matricula seq id atos))
          (map (onus_columns matricula (ids_table id atos)) os)
        ≡ map (listed_lien atos) os
  unfolding load_onus
  map-liens matricula seq id atos [] = refl
  map-liens matricula seq id atos (o ∷ os) =
      rw
        (
          coalesce-null_str o.credor,
          coalesce-null_str o.moeda,
          coalesce-null_str o.descricao,
          numero_at-ato_ref db matricula seq id atos o.ato_constituicao,
          numero_at-ato_ref db matricula seq id atos o.ato_cancelamento,
          map-liens matricula seq id atos os,
        )
        refl

  owners_read :
      (matricula seq id : ℕ) (before : List (ProprietarioRow Num)) (atos : List (Ato Num))
      (ps : List (Proprietario Num))
      → All (λ p. p.matricula_id < matricula) before
      → map (load_proprietario (ato_table db matricula seq id atos)) (
          order_by (by_nome db) (
            select
              (λ p. p.matricula_id == matricula)
              (before ++ map (proprietario_columns matricula (ids_table id atos)) ps)))
        ≡ order_by (λ p q. db.collate p.nome q.nome) (map (listed_owner atos) ps)
  owners_read matricula seq id before atos ps low =
      let rows = map (proprietario_columns matricula (ids_table id atos)) ps in
      rw
        (select_owned (λ p. p.matricula_id) matricula before rows low
          (All-columns _ (proprietario_columns matricula (ids_table id atos)) ps (λ p. refl)))
        (map-order_by (load_proprietario (ato_table db matricula seq id atos)) (by_nome db)
            (λ p q. db.collate p.nome q.nome) (λ p q. unfold load_proprietario in refl) rows
          ∙ ap (order_by (λ p q. db.collate p.nome q.nome)) (map-owners matricula seq id atos ps))

  liens_read :
      (matricula seq id : ℕ) (before : List (OnusRow Num)) (atos : List (Ato Num))
      (os : List (Onus Num))
      → All (λ o. o.matricula_id < matricula) before
      → map (load_onus (ato_table db matricula seq id atos)) (
          order_by (by_tipo db) (
            select
              (λ o. o.matricula_id == matricula)
              (before ++ map (onus_columns matricula (ids_table id atos)) os)))
        ≡ order_by (λ o p. db.collate o.tipo p.tipo) (map (listed_lien atos) os)
  liens_read matricula seq id before atos os low =
      let rows = map (onus_columns matricula (ids_table id atos)) os in
      rw
        (select_owned (λ o. o.matricula_id) matricula before rows low
          (All-columns _ (onus_columns matricula (ids_table id atos)) os (λ o. refl)))
        (map-order_by (load_onus (ato_table db matricula seq id atos)) (by_tipo db)
            (λ o p. db.collate o.tipo p.tipo) (λ o p. unfold load_onus in refl) rows
          ∙ ap (order_by (λ o p. db.collate o.tipo p.tipo)) (map-liens matricula seq id atos os))

  -- What is read from the rows of a new aggregate.
  pub load_content-with_aggregate :
      IsPostgres db
      → (document : Text) (m : ExtractedMatricula Num) (meta : ExtractionMeta) (t : Aggregates Num)
      → IsSound t
      → AllDated m
      → load_content db
          (with_aggregate db document m meta t)
          (matricula_columns db document t.supply (t.supply + 1) m)
        ≡ stored db m
  unfolding load_content stored
  load_content-with_aggregate pg document m meta t valid dates =
      let k = t.supply + 1 in
      let id = t.supply + 2 in
      rw
        (
          atos_of-ato_table k 1 id t.atos m.atos
              (All-imp _ _ (λ a h. omega arith) t.atos valid.atos_owned),
          owners_read k 1 id t.proprietarios m.atos m.proprietarios
              (All-imp _ _ (λ a h. omega arith) t.proprietarios valid.owners_owned),
          liens_read k 1 id t.onus m.atos m.onus
              (All-imp _ _ (λ a h. omega arith) t.onus valid.liens_owned),
          map-ato_table db pg k 1 id m.atos t.partes (t.partes ++ parte_tables id m.atos) refl
              dates.acts (All-imp _ _ (λ a h. omega arith) t.partes valid.partes_owned),
          coalesce-null_str m.cartorio.nome,
          coalesce-null_str m.cartorio.comarca,
          coalesce-null_str m.cartorio.uf,
          iso_date-dated db pg m.data_abertura dates.opened,
          coalesce-null_str m.imovel.descricao,
          coalesce-null_str m.imovel.endereco,
          coalesce-null_str m.imovel.tipo,
        )
        refl
