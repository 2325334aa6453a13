-- ===== src/Aggregate/Load.antt =====
-- get of internal/store/matriculas.go, with loadAtos, loadProprietarios and loadOnus.
use tax_deeds.Dto.{MatriculaResponse, ExtractedMatricula, Onus, Proprietario, Ato, Parte}
use tax_deeds.Text.{same, Text}
use tax_deeds.Queries.{order_by, select}
use tax_deeds.Aggregate.{
  iso_date, Aggregates, coalesce, MatriculaRow, ProprietarioRow, OnusRow, ParteRow, Postgres,
  AtoRow,
}
use tax_deeds.Base.{ℕ, Bool, Option, none, some, List, [], ◌∷◌, map, leb, ◌==◌, if◌then◌else◌}

abbrev pub parte_by_seq : ParteRow → ParteRow → Bool
parte_by_seq p q = leb p.seq q.seq

unfoldable pub load_parte : ParteRow → Parte
load_parte p = record {
  papel = p.papel;
  nome = p.nome;
  cpf_cnpj = coalesce p.cpf_cnpj;
  cpf_cnpj_valido = p.cpf_cnpj_valido;
  tipo_pessoa = coalesce p.tipo_pessoa;
}

-- The partes of one ato, in their order: the rows of the join that go to this ato.
unfoldable pub load_partes : ℕ → List ParteRow → List Parte
unfolding load_parte select order_by
load_partes ato partes =
    map load_parte (order_by parte_by_seq (select (λ p. p.ato_id == ato) partes))

module _ {Num : Type 0} where
  abbrev pub by_seq : AtoRow Num → AtoRow Num → Bool
  by_seq a b = leb a.seq b.seq

  unfoldable pub load_ato : List ParteRow → AtoRow Num → Ato Num
  unfolding load_partes
  load_ato partes a = record {
    numero = a.numero;
    kind = a.kind;
    tipo = coalesce a.tipo;
    date = iso_date a.data_ato;
    valor = a.valor;
    moeda = coalesce a.moeda;
    descricao = coalesce a.descricao;
    partes = load_partes a.id partes;
  }

  -- The rows of the atos of one matrícula, in their order.
  unfoldable pub atos_of : ℕ → List (AtoRow Num) → List (AtoRow Num)
  unfolding select order_by
  atos_of matricula rows = order_by by_seq (select (λ a. a.matricula_id == matricula) rows)

  -- `atoNumeros[id]`, empty where the map has no such key
  unfoldable pub numero_of : ℕ → List (AtoRow Num) → Text
  numero_of id [] = []
  numero_of id (a ∷ rows) = if a.id == id then a.numero else numero_of id rows

  abbrev pub numero_at : Option ℕ → List (AtoRow Num) → Text
  numero_at none rows = []
  numero_at (some id) rows = numero_of id rows

  unfoldable pub load_proprietario : List (AtoRow Num) → ProprietarioRow Num → Proprietario Num
  unfolding numero_of
  load_proprietario atos p = record {
    nome = p.nome;
    cpf_cnpj = coalesce p.cpf_cnpj;
    cpf_cnpj_valido = p.cpf_cnpj_valido;
    tipo_pessoa = coalesce p.tipo_pessoa;
    fracao = p.fracao;
    ato_aquisicao = numero_at p.ato_aquisicao_id atos;
  }

  unfoldable pub load_onus : List (AtoRow Num) → OnusRow Num → Onus Num
  unfolding numero_of
  load_onus atos o = record {
    tipo = o.tipo;
    status = o.status;
    ato_constituicao = numero_at o.ato_constituicao_id atos;
    ato_cancelamento = numero_at o.ato_cancelamento_id atos;
    credor = coalesce o.credor;
    valor = o.valor;
    moeda = coalesce o.moeda;
    descricao = coalesce o.descricao;
  }

  unfoldable pub find_matricula :
      (MatriculaRow Num → Bool) → List (MatriculaRow Num) → Option (MatriculaRow Num)
  find_matricula test [] = none
  find_matricula test (r ∷ rows) = if test r then some r else find_matricula test rows

  module _ (db : Postgres) where
    abbrev pub by_nome : ProprietarioRow Num → ProprietarioRow Num → Bool
    by_nome p q = db.collate p.nome q.nome

    abbrev pub by_tipo : OnusRow Num → OnusRow Num → Bool
    by_tipo o p = db.collate o.tipo p.tipo

    unfoldable pub load_content : Aggregates Num → MatriculaRow Num → ExtractedMatricula Num
    unfolding atos_of load_ato load_proprietario load_onus select order_by
    load_content t r =
        let atos = atos_of r.id t.atos in
        record {
          numero = r.numero;
          cartorio = record {
            nome = coalesce r.cartorio_nome;
            comarca = coalesce r.cartorio_comarca;
            uf = coalesce r.cartorio_uf;
          };
          data_abertura = iso_date r.data_abertura;
          imovel = record {
            descricao = coalesce r.imovel_descricao;
            endereco = coalesce r.imovel_endereco;
            area_m2 = r.imovel_area_m2;
            tipo = coalesce r.imovel_tipo;
          };
          atos = map (load_ato t.partes) atos;
          proprietarios =
              map (load_proprietario atos)
                (order_by by_nome (select (λ p. p.matricula_id == r.id) t.proprietarios));
          onus =
              map (load_onus atos) (order_by by_tipo (select (λ o. o.matricula_id == r.id) t.onus));
        }

    -- `uuid` is the text of an identifier.
    module _ (uuid : ℕ → Text) where
      abbrev pub response :
          Aggregates Num → Option (MatriculaRow Num) → Option (MatriculaResponse Num)
      response t none = none
      response t (some r) =
          some (record { id = uuid r.id; document_id = r.document_id; content = load_content t r })

      -- GetByDocumentID, while the database answers
      unfoldable pub get_by_document_id : Text → Aggregates Num → Option (MatriculaResponse Num)
      unfolding load_content find_matricula
      get_by_document_id document t =
          response t (find_matricula (λ r. same r.document_id document) t.matriculas)

      -- GetByID, while the database answers
      unfoldable pub get_by_id : Text → Aggregates Num → Option (MatriculaResponse Num)
      unfolding load_content find_matricula
      get_by_id id t = response t (find_matricula (λ r. same (uuid r.id) id) t.matriculas)
