-- ===== src/Schema.antt =====
-- The CHECK and NOT NULL constraints of internal/store/migrations/00004_matricula_domain.sql on the
-- rows that one extraction is stored in. A text that is empty is stored as NULL where the column may
-- be NULL (nullStr of internal/store/matriculas.go).
use tax_deeds.Dates.{iso, format_date, IsDate, Date}
use tax_deeds.Text.{codes, Text}
use tax_deeds.Dto.{Onus, Proprietario, ExtractedMatricula, Ato, Parte}
use tax_deeds.Base.{◌≡◌, ◌⊎◌, List, [], ◌∷◌, All}

abbrev pub OneOf : Text → List Text → Type 0
OneOf s [] = ⊥
OneOf s (t ∷ ts) = (s ≡ t) ⊎ OneOf s ts

abbrev pub kinds : List Text
kinds = codes "registro" ∷ codes "averbacao" ∷ []

abbrev pub papeis : List Text
papeis =
    codes "transmitente"
    ∷ codes "adquirente"
    ∷ codes "credor"
    ∷ codes "devedor"
    ∷ codes "interessado"
    ∷ []

abbrev pub tipos_pessoa : List Text
tipos_pessoa = codes "fisica" ∷ codes "juridica" ∷ []

abbrev pub status_values : List Text
status_values = codes "ativo" ∷ codes "cancelado" ∷ []

-- A nullable column with a CHECK.
abbrev pub NullOrOneOf : Text → List Text → Type 0
NullOrOneOf s ts = (s ≡ []) ⊎ OneOf s ts

-- A nullable column of type `date`: NULL or a date of the calendar in ISO form. (Postgres has no year
-- 0, which is not excluded here.)
abbrev pub DateFits : Text → Type 0
DateFits s = (s ≡ []) ⊎ ((d : Date) × IsDate d × (s ≡ format_date iso d))

abbrev pub ParteFits : Parte → Type 0
ParteFits p = OneOf p.papel papeis × NullOrOneOf p.tipo_pessoa tipos_pessoa

module _ {Num : Type 0} where
  abbrev pub AtoFits : Ato Num → Type 0
  AtoFits a = OneOf a.kind kinds × DateFits a.date × All ParteFits a.partes

  abbrev pub ProprietarioFits : Proprietario Num → Type 0
  ProprietarioFits p = NullOrOneOf p.tipo_pessoa tipos_pessoa

  abbrev pub OnusFits : Onus Num → Type 0
  OnusFits o = OneOf o.status status_values

  -- No constraint refuses a row of the aggregate.
  pub record Fits (m : ExtractedMatricula Num) : Type 0 where
    pub data_abertura : DateFits m.data_abertura
    pub atos : All AtoFits m.atos
    pub proprietarios : All ProprietarioFits m.proprietarios
    pub onus : All OnusFits m.onus
