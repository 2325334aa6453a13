-- ===== src/Aggregate/Save.antt =====
-- SaveAggregate of internal/store/matriculas.go. The rows that its INSERT statements write, in their
-- order, are computed first and join the tables where the transaction commits: before that nothing
-- outside sees them. The UNIQUE constraints are not tested, as `seq` counts up and the rows of the
-- document were deleted before; a foreign key that fails is a fault.
use tax_deeds.Schema.{kinds, tipos_pessoa, status_values, papeis}
use tax_deeds.Queries.{select}
use tax_deeds.Dates.{Date}
use tax_deeds.Text.{codes, same, is_empty, Text}
use tax_deeds.Dto.{ExtractedMatricula, Ato, Onus, Proprietario, Parte}
use tax_deeds.Failure.{◌>>=◌, plain, wrapped, err, ok, Failure, Result}
use tax_deeds.Aggregate.{
  null_str, ProprietarioRow, MatriculaRow, OnusRow, ExtractionRow, ExtractionMeta, ParteRow,
  Aggregates, AtoRow, Postgres,
}
use tax_deeds.Base.{
  any, ℕ, ◌+◌, Bool, true, false, ◌&&◌, ◌||◌, not, Option, none, some, List, [], ◌∷◌, ◌++◌, ◌==◌,
  if◌then◌else◌, length,
}

-- The statements of the transaction; which of them fail for a reason outside the tables is an input.
pub data SaveStep : Type 0 where
  begin insert_extraction delete_previous insert_matricula commit : SaveStep
  insert_ato insert_proprietario insert_onus : ℕ → SaveStep
  insert_parte : ℕ → ℕ → SaveStep

-- A statement, whose error is wrapped.
abbrev pub statement {ℓ} : {A : Type ℓ} → Option Failure → Text → Result A → Result A
statement (some e) msg r = err (wrapped msg e)
statement none msg (err e) = err (wrapped msg e)
statement none msg (ok a) = ok a

-- A call whose error is returned as it is.
abbrev pub bare {ℓ} : {A : Type ℓ} → Option Failure → Result A → Result A
bare none r = r
bare (some e) r = err e

-- A CHECK constraint.
abbrev pub check {ℓ} : {A : Type ℓ} → Bool → A → Result A
check true a = ok a
check false a = err (plain (codes "violates check constraint"))

abbrev pub is_one_of : List Text → Text → Bool
is_one_of allowed s = any (λ t. same s t) allowed

abbrev pub null_or_one_of : List Text → Text → Bool
null_or_one_of allowed s = is_empty s || is_one_of allowed s

-- The map from the numbers of the atos to their identifiers, the last one written first.
abbrev pub AtoIds : Type 0
AtoIds = List (Text × ℕ)

unfoldable pub ato_id : Text → AtoIds → Option ℕ
ato_id numero [] = none
ato_id numero ((n, id) ∷ ids) = if same n numero then some id else ato_id numero ids

-- atoRef
abbrev pub ato_ref : AtoIds → Text → Option ℕ
ato_ref ids [] = none
ato_ref ids (c ∷ s) = ato_id (c ∷ s) ids

-- `$n::date`, whose result goes into a column
abbrev pub date_column : Option Date → Result (Option Date)
date_column none = err (plain (codes "invalid input syntax for type date"))
date_column (some d) = ok (some d)

-- `$n::date` of a text that may be NULL
abbrev pub cast_column : Postgres → Option Text → Result (Option Date)
cast_column db none = ok none
cast_column db (some s) = date_column (db.cast_date s)

unfoldable pub parte_row : ℕ → ℕ → Parte → Result ParteRow
parte_row ato seq p =
    check (is_one_of papeis p.papel && null_or_one_of tipos_pessoa p.tipo_pessoa) (record {
      ato_id = ato;
      papel = p.papel;
      nome = p.nome;
      cpf_cnpj = null_str p.cpf_cnpj;
      cpf_cnpj_valido = p.cpf_cnpj_valido;
      tipo_pessoa = null_str p.tipo_pessoa;
      seq = seq;
    })

-- What the loop over the atos writes, and the map that it fills.
pub record AtoRows (Num : Type 0) : Type 0 where
  pub rows : List (AtoRow Num)
  pub parte_rows : List ParteRow
  pub ids : AtoIds

unfoldable pub parte_rows :
    (SaveStep → Option Failure) → Text → ℕ → ℕ → ℕ → List Parte → Result (List ParteRow)
unfolding parte_row
parte_rows fault numero seq ato pseq [] = ok []
parte_rows fault numero seq ato pseq (p ∷ ps) =
    statement (fault (insert_parte seq pseq)) (codes "insert parte of " ++ numero)
      (parte_row ato pseq p)
    >>= (λ row. parte_rows fault numero seq ato (pseq + 1) ps >>= (λ rows. ok (row ∷ rows)))

-- The raw output goes into a column of type jsonb.
unfoldable pub extraction_row : Postgres → Text → ℕ → ExtractionMeta → Result ExtractionRow
extraction_row db document id meta =
    if db.is_json meta.raw_response
    then ok (record { id = id; document_id = document; meta = meta })
    else err (plain (codes "invalid input syntax for type json"))

module _ {Num : Type 0} where
  unfoldable pub proprietario_row : ℕ → AtoIds → Proprietario Num → Result (ProprietarioRow Num)
  unfolding ato_id
  proprietario_row matricula ids p = check (null_or_one_of tipos_pessoa p.tipo_pessoa) (record {
    matricula_id = matricula;
    nome = p.nome;
    cpf_cnpj = null_str p.cpf_cnpj;
    cpf_cnpj_valido = p.cpf_cnpj_valido;
    tipo_pessoa = null_str p.tipo_pessoa;
    fracao = p.fracao;
    ato_aquisicao_id = ato_ref ids p.ato_aquisicao;
  })

  unfoldable pub onus_row : ℕ → AtoIds → Onus Num → Result (OnusRow Num)
  unfolding ato_id
  onus_row matricula ids o = check (is_one_of status_values o.status) (record {
    matricula_id = matricula;
    tipo = o.tipo;
    status = o.status;
    ato_constituicao_id = ato_ref ids o.ato_constituicao;
    ato_cancelamento_id = ato_ref ids o.ato_cancelamento;
    credor = null_str o.credor;
    valor = o.valor;
    moeda = null_str o.moeda;
    descricao = null_str o.descricao;
  })

  -- `DELETE FROM matriculas WHERE document_id = $1`, which takes with it what refers to the rows. Rows
  -- of other matrículas refer to none of the atos that go, so that ON DELETE SET NULL changes nothing.
  unfoldable pub delete_aggregate : Text → Aggregates Num → Aggregates Num
  unfolding select
  delete_aggregate document t =
      let gone : ℕ → Bool = λ k. any (λ r. r.id == k && same r.document_id document) t.matriculas in
      let gone_ato : ℕ → Bool = λ k. any (λ a. a.id == k && gone a.matricula_id) t.atos in
      record t {
        matriculas = select (λ r. not (same r.document_id document)) t.matriculas;
        atos = select (λ a. not (gone a.matricula_id)) t.atos;
        partes = select (λ p. not (gone_ato p.ato_id)) t.partes;
        proprietarios = select (λ p. not (gone p.matricula_id)) t.proprietarios;
        onus = select (λ o. not (gone o.matricula_id)) t.onus;
      }

  -- The tables behind the transaction.
  abbrev pub joined :
      Aggregates Num
      → ExtractionRow
      → MatriculaRow Num
      → AtoRows Num
      → List (ProprietarioRow Num)
      → List (OnusRow Num)
      → Aggregates Num
  joined t x r out owners liens = record {
    supply = t.supply + 2 + length out.rows;
    extractions = t.extractions ++ x ∷ [];
    matriculas = t.matriculas ++ r ∷ [];
    atos = t.atos ++ out.rows;
    partes = t.partes ++ out.parte_rows;
    proprietarios = t.proprietarios ++ owners;
    onus = t.onus ++ liens;
  }

  unfoldable pub ato_row : Postgres → ℕ → ℕ → ℕ → Ato Num → Result (AtoRow Num)
  ato_row db matricula seq id a = cast_column db (null_str a.date) >>= (λ date.
      check (is_one_of kinds a.kind) (record {
        id = id;
        matricula_id = matricula;
        numero = a.numero;
        kind = a.kind;
        tipo = null_str a.tipo;
        data_ato = date;
        valor = a.valor;
        moeda = null_str a.moeda;
        descricao = null_str a.descricao;
        seq = seq;
      }))

  unfoldable pub matricula_row :
      Postgres → Text → ℕ → ℕ → ExtractedMatricula Num → Result (MatriculaRow Num)
  matricula_row db document extraction id m = cast_column db (null_str m.data_abertura) >>= (λ date.
      ok (record {
        id = id;
        document_id = document;
        extraction_id = extraction;
        numero = m.numero;
        cartorio_nome = null_str m.cartorio.nome;
        cartorio_comarca = null_str m.cartorio.comarca;
        cartorio_uf = null_str m.cartorio.uf;
        data_abertura = date;
        imovel_descricao = null_str m.imovel.descricao;
        imovel_endereco = null_str m.imovel.endereco;
        imovel_area_m2 = m.imovel.area_m2;
        imovel_tipo = null_str m.imovel.tipo;
      }))

module _ {Num : Type 0} (fault : SaveStep → Option Failure) where
  unfoldable pub proprietario_rows :
      ℕ → AtoIds → ℕ → List (Proprietario Num) → Result (List (ProprietarioRow Num))
  unfolding proprietario_row
  proprietario_rows matricula ids n [] = ok []
  proprietario_rows matricula ids n (p ∷ ps) =
      statement (fault (insert_proprietario n)) (codes "insert proprietario " ++ p.nome)
        (proprietario_row matricula ids p)
      >>= (λ row. proprietario_rows matricula ids (n + 1) ps >>= (λ rows. ok (row ∷ rows)))

  unfoldable pub onus_rows : ℕ → AtoIds → ℕ → List (Onus Num) → Result (List (OnusRow Num))
  unfolding onus_row
  onus_rows matricula ids n [] = ok []
  onus_rows matricula ids n (o ∷ os) =
      statement (fault (insert_onus n)) (codes "insert onus " ++ o.tipo) (onus_row matricula ids o)
      >>= (λ row. onus_rows matricula ids (n + 1) os >>= (λ rows. ok (row ∷ rows)))

module _ {Num : Type 0} (db : Postgres) (fault : SaveStep → Option Failure) where
  unfoldable pub ato_rows : ℕ → ℕ → ℕ → List (Ato Num) → Result (AtoRows Num)
  unfolding ato_row parte_rows
  ato_rows matricula seq id [] = ok (record { rows = []; parte_rows = []; ids = [] })
  ato_rows matricula seq id (a ∷ atos) =
      statement (fault (insert_ato seq)) (codes "insert ato " ++ a.numero)
        (ato_row db matricula seq id a)
      >>= (λ row. parte_rows fault a.numero seq id 1 a.partes >>= (λ partes.
          ato_rows matricula (seq + 1) (id + 1) atos >>= (λ rest. ok (record {
            rows = row ∷ rest.rows;
            parte_rows = partes ++ rest.parte_rows;
            ids = rest.ids ++ (a.numero, id) ∷ [];
          }))))

  -- SaveAggregate; the result holds the identifier of the matrícula.
  unfoldable pub save_aggregate :
      Text → ExtractedMatricula Num → ExtractionMeta → Aggregates Num → Result (ℕ × Aggregates Num)
  unfolding extraction_row matricula_row ato_rows proprietario_rows onus_rows delete_aggregate
  save_aggregate document m meta t = bare (fault begin) (
      statement (fault insert_extraction) (codes "insert extraction")
        (extraction_row db document t.supply meta)
      >>= (λ x.
          statement (fault delete_previous) (codes "replace previous aggregate")
            (ok (delete_aggregate document t))
          >>= (λ rest.
              statement (fault insert_matricula) (codes "insert matricula")
                (matricula_row db document t.supply (t.supply + 1) m)
              >>= (λ r. ato_rows (t.supply + 1) 1 (t.supply + 2) m.atos >>= (λ out.
                  proprietario_rows fault (t.supply + 1) out.ids 0 m.proprietarios >>= (λ owners.
                    onus_rows fault (t.supply + 1) out.ids 0 m.onus >>= (λ liens.
                      bare (fault commit)
                        (ok (t.supply + 1, joined rest x r out owners liens)))))))))
