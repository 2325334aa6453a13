-- ===== src/Llm/Enums.antt =====
-- enumOK and validateEnums of internal/clients/llm/langchain.go.
use tax_deeds.Normalize.{lowered}
use tax_deeds.Dto.{Proprietario, Parte, Onus, ExtractedMatricula, Ato}
use tax_deeds.Text.{codes, is_empty, same, Unicode, Text}
use tax_deeds.Base.{Bool, true, false, not, Option, none, some, List, [], ◌∷◌, if◌then◌else◌}

-- The search of enumOK among the allowed values.
unfoldable pub one_of : Text → List Text → Bool
one_of v [] = false
one_of v (a ∷ as') = if same v a then true else one_of v as'

-- The vocabularies that validateEnums names.
abbrev pub allowed_kinds : List Text
allowed_kinds = codes "registro" ∷ codes "averbacao" ∷ []

abbrev pub allowed_papeis : List Text
allowed_papeis =
    codes "transmitente"
    ∷ codes "adquirente"
    ∷ codes "credor"
    ∷ codes "devedor"
    ∷ codes "interessado"
    ∷ []

abbrev pub allowed_tipos : List Text
allowed_tipos = codes "fisica" ∷ codes "juridica" ∷ []

abbrev pub allowed_status : List Text
allowed_status = codes "ativo" ∷ codes "cancelado" ∷ []

unfoldable pub enum_ok : Unicode → Text → Bool → List Text → Bool
enum_ok u v optional allowed =
    let w = lowered u v in if is_empty w then optional else one_of w allowed

-- What is named by the error of validateEnums.
pub data EnumError : Type 0 where
  bad_kind : Text → Text → EnumError  -- ato, kind
  bad_papel : Text → Text → Text → EnumError  -- ato, nome, papel
  bad_tipo_parte : Text → Text → Text → EnumError  -- ato, nome, tipo_pessoa
  bad_tipo_proprietario : Text → Text → EnumError  -- nome, tipo_pessoa
  bad_status : Text → Text → EnumError  -- tipo, status

module _ (u : Unicode) where
  unfoldable pub check_partes : Text → List Parte → Option EnumError
  check_partes numero [] = none
  check_partes numero (p ∷ ps) =
      if not (enum_ok u p.papel false allowed_papeis)
      then some (bad_papel numero p.nome p.papel)
      else if not (enum_ok u p.tipo_pessoa true allowed_tipos)
      then some (bad_tipo_parte numero p.nome p.tipo_pessoa)
      else check_partes numero ps

  -- The first error, or the check that follows.
  abbrev pub or_check : Option EnumError → Option EnumError → Option EnumError
  or_check none next = next
  or_check (some e) next = some e

  module _ {Num : Type 0} where
    unfoldable pub check_atos : List (Ato Num) → Option EnumError
    check_atos [] = none
    check_atos (a ∷ rest) =
        if not (enum_ok u a.kind false allowed_kinds)
        then some (bad_kind a.numero a.kind)
        else or_check (check_partes a.numero a.partes) (check_atos rest)

    unfoldable pub check_proprietarios : List (Proprietario Num) → Option EnumError
    check_proprietarios [] = none
    check_proprietarios (p ∷ ps) =
        if not (enum_ok u p.tipo_pessoa true allowed_tipos)
        then some (bad_tipo_proprietario p.nome p.tipo_pessoa)
        else check_proprietarios ps

    unfoldable pub check_onus : List (Onus Num) → Option EnumError
    check_onus [] = none
    check_onus (o ∷ os) =
        if not (enum_ok u o.status true allowed_status)
        then some (bad_status o.tipo o.status)
        else check_onus os

    unfoldable pub validate_enums : ExtractedMatricula Num → Option EnumError
    validate_enums m =
        or_check (check_atos m.atos)
          (or_check (check_proprietarios m.proprietarios) (check_onus m.onus))
