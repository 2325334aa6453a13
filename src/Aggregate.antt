-- ===== src/Aggregate.antt =====
-- internal/store/matriculas.go: the tables of the extracted aggregate, as
-- internal/store/migrations/00004_matricula_domain.sql declares them.
--
-- A generated identifier is a number from a supply that is never used twice. Identifiers of rows
-- that nothing refers to are left out. A nullable column is an `Option`.
pub mod Rows
pub mod Results
pub mod Written
pub mod Stored
pub mod Reading
pub mod References
pub mod Sound
pub mod Content
pub mod Frame
pub mod Refines
pub mod Accepted
pub mod ById
pub mod Tests
pub mod Preserved
pub mod Save
pub mod Load
use tax_deeds.Dates.{iso, IsDate, format_date, Date}
use tax_deeds.Text.{Text}
use tax_deeds.Base.{
  ℕ, zero, suc, ◌+◌, ◌-◌, ◌*◌, ◌≤◌, ◌<◌, ◌≡◌, ◌≢◌, refl, sym, ap, ◌∙◌, ◌↔◌, ◌⊎◌, inl, inr, Bool,
  true, false, ◌&&◌, ◌||◌, not, Option, none, some, List, [], ◌∷◌, ◌++◌, map, arith, ltb, leb, ◌==◌,
  if◌then◌else◌, Bool-cases, All, length,
}

pub record ExtractionMeta : Type 0 where
  pub model : Text
  pub prompt_version : Text
  pub raw_response : Text
  pub input_tokens : ℕ
  pub output_tokens : ℕ

pub record ExtractionRow : Type 0 where
  pub id : ℕ
  pub document_id : Text
  pub meta : ExtractionMeta

pub record MatriculaRow (Num : Type 0) : Type 0 where
  pub id : ℕ
  pub document_id : Text
  pub extraction_id : ℕ
  pub numero : Text
  pub cartorio_nome : Option Text
  pub cartorio_comarca : Option Text
  pub cartorio_uf : Option Text
  pub data_abertura : Option Date
  pub imovel_descricao : Option Text
  pub imovel_endereco : Option Text
  pub imovel_area_m2 : Option Num
  pub imovel_tipo : Option Text

pub record AtoRow (Num : Type 0) : Type 0 where
  pub id : ℕ
  pub matricula_id : ℕ
  pub numero : Text
  pub kind : Text
  pub tipo : Option Text
  pub data_ato : Option Date
  pub valor : Option Num
  pub moeda : Option Text
  pub descricao : Option Text
  pub seq : ℕ

pub record ParteRow : Type 0 where
  pub ato_id : ℕ
  pub papel : Text
  pub nome : Text
  pub cpf_cnpj : Option Text
  pub cpf_cnpj_valido : Option Bool
  pub tipo_pessoa : Option Text
  pub seq : ℕ

pub record ProprietarioRow (Num : Type 0) : Type 0 where
  pub matricula_id : ℕ
  pub nome : Text
  pub cpf_cnpj : Option Text
  pub cpf_cnpj_valido : Option Bool
  pub tipo_pessoa : Option Text
  pub fracao : Option Num
  pub ato_aquisicao_id : Option ℕ

pub record OnusRow (Num : Type 0) : Type 0 where
  pub matricula_id : ℕ
  pub tipo : Text
  pub status : Text
  pub ato_constituicao_id : Option ℕ
  pub ato_cancelamento_id : Option ℕ
  pub credor : Option Text
  pub valor : Option Num
  pub moeda : Option Text
  pub descricao : Option Text

pub record Aggregates (Num : Type 0) : Type 0 where
  pub supply : ℕ  -- the next identifier
  pub extractions : List ExtractionRow
  pub matriculas : List (MatriculaRow Num)
  pub atos : List (AtoRow Num)
  pub partes : List ParteRow
  pub proprietarios : List (ProprietarioRow Num)
  pub onus : List (OnusRow Num)

-- nullStr
abbrev pub null_str : Text → Option Text
null_str [] = none
null_str (c ∷ s) = some (c ∷ s)

-- `COALESCE(column, '')`
abbrev pub coalesce : Option Text → Text
coalesce none = []
coalesce (some s) = s

-- isoDate
abbrev pub iso_date : Option Date → Text
iso_date none = []
iso_date (some d) = format_date iso d

-- What Postgres does that the program relies on: its cast of a text to `date`, whether a text is
-- JSON, and the order of its collation.
pub record Postgres : Type 0 where
  pub cast_date : Text → Option Date
  pub is_json : Text → Bool
  pub collate : Text → Text → Bool

-- Documented behaviour: the cast reads the ISO form of every date of the calendar from the year 1.
pub record IsPostgres (db : Postgres) : Type 0 where
  pub cast-iso : (d : Date) → IsDate d → 1 ≤ d.year → db.cast_date (format_date iso d) ≡ some d
