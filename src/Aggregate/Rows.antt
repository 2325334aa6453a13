-- ===== src/Aggregate/Rows.antt =====
-- The rows that an accepted extraction is stored in, written down without the order of the statements
-- and without their failures.
use tax_deeds.Dates.{Date}
use tax_deeds.Text.{Text}
use tax_deeds.Aggregate.Save.{joined, ato_ref, AtoIds}
use tax_deeds.Dto.{ExtractedMatricula, Onus, Proprietario, Parte, Ato}
use tax_deeds.Aggregate.{
  Aggregates, ExtractionMeta, MatriculaRow, OnusRow, ProprietarioRow, null_str, AtoRow, ParteRow,
  Postgres,
}
use tax_deeds.Base.{ℕ, ◌+◌, Option, none, List, [], ◌∷◌, ◌++◌, map}

-- The `date` column of a text that the cast reads.
abbrev pub dated : Postgres → Text → Option Date
dated db [] = none
dated db (c ∷ s) = db.cast_date (c ∷ s)

abbrev pub parte_columns : ℕ → ℕ → Parte → ParteRow
parte_columns ato seq p = record {
  ato_id = ato;
  papel = p.papel;
  nome = p.nome;
  cpf_cnpj = null_str p.cpf_cnpj;
  cpf_cnpj_valido = p.cpf_cnpj_valido;
  tipo_pessoa = null_str p.tipo_pessoa;
  seq = seq;
}

unfoldable pub parte_table : ℕ → ℕ → List Parte → List ParteRow
parte_table ato seq [] = []
parte_table ato seq (p ∷ ps) = parte_columns ato seq p ∷ parte_table ato (seq + 1) ps

module _ {Num : Type 0} where
  abbrev pub proprietario_columns : ℕ → AtoIds → Proprietario Num → ProprietarioRow Num
  proprietario_columns matricula ids p = record {
    matricula_id = matricula;
    nome = p.nome;
    cpf_cnpj = null_str p.cpf_cnpj;
    cpf_cnpj_valido = p.cpf_cnpj_valido;
    tipo_pessoa = null_str p.tipo_pessoa;
    fracao = p.fracao;
    ato_aquisicao_id = ato_ref ids p.ato_aquisicao;
  }

  abbrev pub onus_columns : ℕ → AtoIds → Onus Num → OnusRow Num
  onus_columns matricula ids o = record {
    matricula_id = matricula;
    tipo = o.tipo;
    status = o.status;
    ato_constituicao_id = ato_ref ids o.ato_constituicao;
    ato_cancelamento_id = ato_ref ids o.ato_cancelamento;
    credor = null_str o.credor;
    valor = o.valor;
    moeda = null_str o.moeda;
    descricao = null_str o.descricao;
  }

  -- All partes of atos with consecutive identifiers.
  unfoldable pub parte_tables : ℕ → List (Ato Num) → List ParteRow
  unfolding parte_table
  parte_tables id [] = []
  parte_tables id (a ∷ atos) = parte_table id 1 a.partes ++ parte_tables (id + 1) atos

  unfoldable pub ids_table : ℕ → List (Ato Num) → AtoIds
  ids_table id [] = []
  ids_table id (a ∷ atos) = ids_table (id + 1) atos ++ (a.numero, id) ∷ []

  module _ (db : Postgres) where
    abbrev pub ato_columns : ℕ → ℕ → ℕ → Ato Num → AtoRow Num
    ato_columns matricula seq id a = record {
      id = id;
      matricula_id = matricula;
      numero = a.numero;
      kind = a.kind;
      tipo = null_str a.tipo;
      data_ato = dated db a.date;
      valor = a.valor;
      moeda = null_str a.moeda;
      descricao = null_str a.descricao;
      seq = seq;
    }

    unfoldable pub ato_table : ℕ → ℕ → ℕ → List (Ato Num) → List (AtoRow Num)
    ato_table matricula seq id [] = []
    ato_table matricula seq id (a ∷ atos) =
        ato_columns matricula seq id a ∷ ato_table matricula (seq + 1) (id + 1) atos

    abbrev pub matricula_columns : Text → ℕ → ℕ → ExtractedMatricula Num → MatriculaRow Num
    matricula_columns document extraction id m = record {
      id = id;
      document_id = document;
      extraction_id = extraction;
      numero = m.numero;
      cartorio_nome = null_str m.cartorio.nome;
      cartorio_comarca = null_str m.cartorio.comarca;
      cartorio_uf = null_str m.cartorio.uf;
      data_abertura = dated db m.data_abertura;
      imovel_descricao = null_str m.imovel.descricao;
      imovel_endereco = null_str m.imovel.endereco;
      imovel_area_m2 = m.imovel.area_m2;
      imovel_tipo = null_str m.imovel.tipo;
    }

    -- The rows of the aggregate, added to tables.
    abbrev pub with_aggregate :
        Text → ExtractedMatricula Num → ExtractionMeta → Aggregates Num → Aggregates Num
    with_aggregate document m meta t =
        let matricula = t.supply + 1 in
        let ids = ids_table (t.supply + 2) m.atos in
        joined t (record { id = t.supply; document_id = document; meta = meta })
          (matricula_columns document t.supply matricula m)
          (record {
            rows = ato_table matricula 1 (t.supply + 2) m.atos;
            parte_rows = parte_tables (t.supply + 2) m.atos;
            ids = ids;
          })
          (map (proprietario_columns matricula ids) m.proprietarios)
          (map (onus_columns matricula ids) m.onus)
