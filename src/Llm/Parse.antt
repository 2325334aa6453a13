-- ===== src/Llm/Parse.antt =====
-- parseExtraction of internal/clients/llm/langchain.go.
--
-- The strict JSON decoder of encoding/json is the parameter `decode`: it reads the first JSON value
-- of a text into an extraction, and refuses unknown fields.
pub mod Isolate
use tax_deeds.Dto.{ExtractedMatricula}
use tax_deeds.Failure.{ok, ◌>>=◌, err, plain, Result, Failure}
use tax_deeds.Text.{codes, is_empty, Unicode, Text}
use tax_deeds.Llm.Enums.{
  bad_status, bad_tipo_proprietario, bad_tipo_parte, bad_papel, validate_enums, bad_kind, EnumError,
}
use tax_deeds.Base.{
  ℕ, zero, suc, ◌+◌, ◌-◌, ◌*◌, ◌≤◌, ◌<◌, ◌≡◌, ◌≢◌, refl, sym, ap, ◌∙◌, ◌↔◌, ◌⊎◌, inl, inr, Bool,
  true, false, ◌&&◌, ◌||◌, not, Option, none, some, List, [], ◌∷◌, ◌++◌, map, arith, ltb, leb, ◌==◌,
  if◌then◌else◌, Bool-cases, All, length,
}

-- `strings.Index(s, "{")` for one character.
unfoldable pub index_of : ℕ → Text → Option ℕ
index_of c [] = none
index_of c (d ∷ s) =
    if c == d then some 0 else elim (index_of c s) [ none ↦ none | some i ↦ some (i + 1) ]

-- `strings.LastIndex(s, "}")` for one character.
unfoldable pub last_index_of : ℕ → Text → Option ℕ
last_index_of c [] = none
last_index_of c (d ∷ s) = elim (last_index_of c s) [
  | none ↦ if c == d then some 0 else none
  | some i ↦ some (i + 1)
]

unfoldable pub take : ℕ → Text → Text
take zero s = []
take (suc n) [] = []
take (suc n) (c ∷ s) = c ∷ take n s

unfoldable pub drop : ℕ → Text → Text
drop zero s = s
drop (suc n) [] = []
drop (suc n) (c ∷ s) = drop n s

-- `raw[from:to]`
abbrev pub slice : ℕ → ℕ → Text → Text
slice from to raw = take (to - from) (drop from raw)

-- The outermost object: the text from the first "{" to the last "}".
unfoldable pub isolate : Text → Option Text
isolate raw = elim (index_of b'{' raw) [
  | none ↦ none
  | some from ↦ elim (last_index_of b'}' raw) [
    | none ↦ none
    | some to ↦ if leb to from then none else some (slice from (to + 1) raw)
  ]
]

-- What fmt.Errorf writes of the value that validateEnums refuses; `quote` is the verb %q.
unfoldable pub enum_failure : (Text → Text) → EnumError → Failure
enum_failure quote (bad_kind ato v) = plain (
    codes "ato "
    ++ ato
    ++ codes ": \"kind\" is "
    ++ quote v
    ++ codes " (want registro or averbacao)")
enum_failure quote (bad_papel ato nome v) = plain (
    codes "ato "
    ++ ato
    ++ codes ", parte "
    ++ quote nome
    ++ codes ": \"papel\" is "
    ++ quote v
    ++ codes " (want transmitente, adquirente, credor, devedor or interessado)")
enum_failure quote (bad_tipo_parte ato nome v) = plain (
    codes "ato "
    ++ ato
    ++ codes ", parte "
    ++ quote nome
    ++ codes ": \"tipo_pessoa\" is "
    ++ quote v
    ++ codes " (want fisica or juridica)")
enum_failure quote (bad_tipo_proprietario nome v) = plain (
    codes "proprietario "
    ++ quote nome
    ++ codes ": \"tipo_pessoa\" is "
    ++ quote v
    ++ codes " (want fisica or juridica)")
enum_failure quote (bad_status tipo v) = plain (
    codes "onus "
    ++ quote tipo
    ++ codes ": \"status\" is "
    ++ quote v
    ++ codes " (want ativo or cancelado)")

module _ {Num : Type 0} (u : Unicode) (quote : Text → Text) where
  -- The checks behind the decoder.
  unfoldable pub checked : ExtractedMatricula Num → Result (ExtractedMatricula Num)
  checked m =
      if is_empty m.numero
      then err (plain (codes "\"numero\" is empty"))
      else elim (validate_enums u m) [ none ↦ ok m | some e ↦ err (enum_failure quote e) ]

  module _ (decode : Text → Result (ExtractedMatricula Num)) where
    unfoldable pub parse_object : Option Text → Result (ExtractedMatricula Num)
    parse_object none = err (plain (codes "no JSON object in output"))
    parse_object (some object) = decode object >>= checked

    unfoldable pub parse_extraction : Text → Result (ExtractedMatricula Num)
    unfolding parse_object
    parse_extraction raw = parse_object (isolate raw)
