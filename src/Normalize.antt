-- ===== src/Normalize.antt =====
-- Normalize of internal/services/extraction/normalize.go: the whole aggregate, field by field.
pub mod Idempotent
pub mod Tests
use tax_deeds.TaxId.{normalize_doc}
use tax_deeds.Dates.{normalize_date}
use tax_deeds.Dto.{Proprietario, Ato, ExtractedMatricula, Parte, Onus}
use tax_deeds.Text.{to_upper, trim_space, codes, to_lower, is_empty, Unicode, Text}
use tax_deeds.Base.{
  ℕ, zero, suc, ◌+◌, ◌-◌, ◌*◌, ◌≤◌, ◌<◌, ◌≡◌, ◌≢◌, refl, sym, ap, ◌∙◌, ◌↔◌, ◌⊎◌, inl, inr, Bool,
  true, false, ◌&&◌, ◌||◌, not, Option, none, some, List, [], ◌∷◌, ◌++◌, map, arith, ltb, leb, ◌==◌,
  if◌then◌else◌, Bool-cases, All, length,
}

abbrev pub is_some {ℓ} : {A : Type ℓ} → Option A → Bool
is_some none = false
is_some (some a) = true

-- `strings.ToLower(strings.TrimSpace(s))`
abbrev pub lowered : Unicode → Text → Text
lowered u s = to_lower u (trim_space u s)

-- The currency of a value that names none.
unfoldable pub with_currency {ℓ} : {A : Type ℓ} → Option A → Text → Text
with_currency valor moeda = if is_some valor && is_empty moeda then codes "BRL" else moeda

-- A cancelling act decides; otherwise an ônus without a status is active.
unfoldable pub derive_status : Text → Text → Text
derive_status ato_cancelamento status =
    if not (is_empty ato_cancelamento)
    then codes "cancelado"
    else if is_empty status
    then codes "ativo"
    else status

unfoldable pub normalize_parte : Unicode → Parte → Parte
normalize_parte u p =
    let (doc, flag) = normalize_doc u p.cpf_cnpj in
    record p {
      papel = lowered u p.papel;
      tipo_pessoa = lowered u p.tipo_pessoa;
      cpf_cnpj = doc;
      cpf_cnpj_valido = flag;
    }

module _ {Num : Type 0} (u : Unicode) where
  unfoldable pub normalize_ato : Ato Num → Ato Num
  normalize_ato a = record a {
    kind = lowered u a.kind;
    tipo = lowered u a.tipo;
    date = normalize_date u a.date;
    moeda = with_currency a.valor a.moeda;
    partes = map (normalize_parte u) a.partes;
  }

  unfoldable pub normalize_proprietario : Proprietario Num → Proprietario Num
  normalize_proprietario p =
      let (doc, flag) = normalize_doc u p.cpf_cnpj in
      record p { tipo_pessoa = lowered u p.tipo_pessoa; cpf_cnpj = doc; cpf_cnpj_valido = flag }

  unfoldable pub normalize_onus : Onus Num → Onus Num
  normalize_onus o = record o {
    tipo = lowered u o.tipo;
    moeda = with_currency o.valor o.moeda;
    status = derive_status o.ato_cancelamento o.status;
  }

  unfoldable pub normalize : ExtractedMatricula Num → ExtractedMatricula Num
  normalize m = record m {
    data_abertura = normalize_date u m.data_abertura;
    cartorio = record m.cartorio { uf = to_upper u (trim_space u m.cartorio.uf) };
    atos = map normalize_ato m.atos;
    proprietarios = map normalize_proprietario m.proprietarios;
    onus = map normalize_onus m.onus;
  }
