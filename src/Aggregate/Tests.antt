-- ===== src/Aggregate/Tests.antt =====
-- The theorems on the aggregate tables at small extractions.
use tax_deeds.Aggregate.ById.{get_by_id-get_by_document_id}
use tax_deeds.Aggregate.Load.{get_by_id, get_by_document_id}
use tax_deeds.Aggregate.Refines.{save_aggregate-put, put, view}
use tax_deeds.Dates.RoundTrip.{parse_date-format_date}
use tax_deeds.Aggregate.Preserved.{save_aggregate-IsSound}
use tax_deeds.Aggregate.Accepted.{save_aggregate-Fits}
use tax_deeds.Schema.{Fits}
use tax_deeds.Aggregate.Stored.{stored, AllDated}
use tax_deeds.Failure.{ok, Failure}
use tax_deeds.Aggregate.Rows.{with_aggregate}
use tax_deeds.Samples.{hipoteca, obra, comprador, venda, sitio}
use tax_deeds.Aggregate.Save.{delete_aggregate, SaveStep, save_aggregate}
use tax_deeds.Aggregate.{Aggregates, IsPostgres, ExtractionMeta, Postgres}
use tax_deeds.Text.{codes, same, Text}
use tax_deeds.Dto.{MatriculaResponse, ExtractedMatricula}
use tax_deeds.Dates.{IsDate, iso, days_in, parse_date, Date, format_date}
use tax_deeds.Aggregate.Sound.{IsSound}
use tax_deeds.Base.{ℕ, ◌+◌, ◌≡◌, refl, ◌↔◌, inl, inr, true, Option, none, some, [], ◌∷◌, arith, leb}

-- A database that reads ISO dates, knows one JSON text and orders texts by their first characters.
abbrev first_code : Text → ℕ
first_code [] = 0
first_code (c ∷ s) = c

abbrev pub plain_db : Postgres
plain_db = record {
  cast_date = parse_date iso;
  is_json = λ s. same s (codes "{x}");
  collate = λ s t. leb (first_code s) (first_code t);
}

pub plain_db-IsPostgres : IsPostgres plain_db
plain_db-IsPostgres = record {
  cast-iso = λ d valid pos. parse_date-format_date iso d (λ a b. refl) valid;
}

abbrev pub no_fault : SaveStep → Option Failure
no_fault step = none

abbrev pub id_text : ℕ → Text
id_text k = k ∷ []

abbrev pub no_rows : Aggregates ℕ
no_rows = record {
  supply = 0;
  extractions = [];
  matriculas = [];
  atos = [];
  partes = [];
  proprietarios = [];
  onus = [];
}

pub no_rows-IsSound : IsSound no_rows
no_rows-IsSound = record {
  matriculas_below = tt;
  matriculas_ascending = tt;
  one_each = tt;
  atos_below = tt;
  atos_ascending = tt;
  atos_owned = tt;
  partes_owned = tt;
  owners_owned = tt;
  liens_owned = tt;
  extractions_below = tt;
  extractions_ascending = tt;
  extracted_from = tt;
  acquired_by = tt;
  constituted_by = tt;
  cancelled_by = tt;
}

-- A sale, a lien on it and one on an act that is not listed.
abbrev farm : ExtractedMatricula ℕ
farm = record sitio {
  data_abertura = codes "1980-02-01";
  atos =
      record venda {
        date = codes "1999-02-03";
        partes = record comprador { papel = codes "adquirente" } ∷ [];
      }
      ∷ obra
      ∷ [];
  proprietarios =
      record {
        nome = codes "Ana";
        cpf_cnpj = [];
        cpf_cnpj_valido = none;
        tipo_pessoa = codes "fisica";
        fracao = some 1;
        ato_aquisicao = codes "R-1";
      }
      ∷ [];
  onus =
      record hipoteca { status = codes "ativo" }
      ∷ record hipoteca {
        tipo = codes "Arresto";
        status = codes "ativo";
        ato_constituicao = codes "R-1";
      }
      ∷ [];
}

abbrev opened : Date
opened = record { year = 1980; month = 2; day = 1 }

abbrev sold : Date
sold = record { year = 1999; month = 2; day = 3 }

opened-IsDate : IsDate opened
unfolding days_in
opened-IsDate = record {
  year_short = omega arith;
  month_pos = omega arith;
  month_le = omega arith;
  day_pos = omega arith;
  day_le = omega arith;
}

sold-IsDate : IsDate sold
unfolding days_in
sold-IsDate = record {
  year_short = omega arith;
  month_pos = omega arith;
  month_le = omega arith;
  day_pos = omega arith;
  day_le = omega arith;
}

farm-AllDated : AllDated farm
unfolding format_date days_in
farm-AllDated = record {
  opened = inr (opened, opened-IsDate, omega arith, refl);
  acts = (inr (sold, sold-IsDate, omega arith, refl), (inl refl, tt));
}

farm-Fits : Fits farm
unfolding format_date days_in
farm-Fits = record {
  data_abertura = inr (opened, opened-IsDate, refl);
  atos = (
    (inl refl, inr (sold, sold-IsDate, refl), ((inr (inl refl), inr (inl refl)), tt)),
    ((inr (inl refl), inl refl, tt), tt),
  );
  proprietarios = (inr (inl refl), tt);
  onus = (inl refl, (inl refl, tt));
}

abbrev meta : ExtractionMeta
meta = record {
  model = codes "m";
  prompt_version = codes "v1";
  raw_response = codes "{x}";
  input_tokens = 7;
  output_tokens = 3;
}

-- The tables after the extraction of one document.
abbrev one_stored : Aggregates ℕ
one_stored = with_aggregate plain_db (codes "a") farm meta (delete_aggregate (codes "a") no_rows)

json_meta : plain_db.is_json meta.raw_response ≡ true
unfolding same
json_meta = refl

save_aggregate-Fits_example :
    save_aggregate plain_db no_fault (codes "a") farm meta no_rows ≡ ok (1, one_stored)
save_aggregate-Fits_example =
    save_aggregate-Fits plain_db plain_db-IsPostgres no_fault (λ step. refl) (codes "a") farm meta
      no_rows farm-Fits farm-AllDated json_meta

first_saved : save_aggregate plain_db no_fault (codes "a") farm meta no_rows ≡ ok (1, one_stored)
first_saved =
    save_aggregate-Fits plain_db plain_db-IsPostgres no_fault (λ step. refl) (codes "a") farm meta
      no_rows farm-Fits farm-AllDated json_meta

save_aggregate-IsSound_example : IsSound one_stored
save_aggregate-IsSound_example =
    save_aggregate-IsSound plain_db no_fault (codes "a") farm meta no_rows one_stored 1
      no_rows-IsSound first_saved

one_stored-IsSound : IsSound one_stored
one_stored-IsSound =
    save_aggregate-IsSound plain_db no_fault (codes "a") farm meta no_rows one_stored 1
      no_rows-IsSound first_saved

abbrev two_stored : Aggregates ℕ
two_stored = with_aggregate plain_db (codes "b") farm meta (delete_aggregate (codes "b") one_stored)

second_saved :
    save_aggregate plain_db no_fault (codes "b") farm meta one_stored
    ≡ ok (one_stored.supply + 1, two_stored)
second_saved =
    save_aggregate-Fits plain_db plain_db-IsPostgres no_fault (λ step. refl) (codes "b") farm meta
      one_stored farm-Fits farm-AllDated json_meta

save_aggregate-put_example :
    view plain_db id_text two_stored
    ≡ put
        (codes "b")
        (record {
          id = id_text (one_stored.supply + 1);
          document_id = codes "b";
          content = stored plain_db farm;
        })
        (view plain_db id_text one_stored)
save_aggregate-put_example =
    save_aggregate-put plain_db id_text plain_db-IsPostgres no_fault (codes "b") farm meta
      one_stored two_stored (one_stored.supply + 1) one_stored-IsSound farm-AllDated second_saved

tick_injective : (j k : ℕ) → id_text j ≡ id_text k → j ≡ k
tick_injective j k h = cc h

abbrev farm_answer : MatriculaResponse ℕ
farm_answer = record { id = id_text 1; document_id = codes "a"; content = stored plain_db farm }

get_by_id-get_by_document_id_example :
    (get_by_document_id plain_db id_text (codes "a") one_stored ≡ some farm_answer)
    ↔ (get_by_id plain_db id_text (id_text 1) one_stored ≡ some farm_answer)
get_by_id-get_by_document_id_example =
    get_by_id-get_by_document_id plain_db id_text tick_injective one_stored one_stored-IsSound
      farm_answer
