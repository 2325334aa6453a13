-- ===== src/Llm/Tests.antt =====
-- The theorems on the extractor with a decoder that knows one object and models that always answer
-- the same.
use tax_deeds.Llm.Vocabulary.{validate_enums-Fits, StatusIsPlain}
use tax_deeds.Llm.Parse.Isolate.{parse_extraction-object, object}
use tax_deeds.Samples.{sitio, decode_sitio, quoted, ascii}
use tax_deeds.Normalize.{normalize}
use tax_deeds.Dto.{ExtractedMatricula}
use tax_deeds.Llm.Enums.{
  one_of, check_onus, check_proprietarios, check_atos, check_partes, enum_ok, validate_enums,
}
use tax_deeds.Llm.Chain.Laws.{extract_matricula_sound, extract_matricula_terminal, Refused}
use tax_deeds.Text.{same, is_space, trim_left, trim_space, rune_lower, to_lower, codes, Text}
use tax_deeds.Llm.Parse.{
  checked, drop, take, last_index_of, index_of, isolate, parse_object, parse_extraction,
}
use tax_deeds.Schema.{Fits}
use tax_deeds.Failure.{message, err, ok, plain, Result, Failure, is_transient}
use tax_deeds.Llm.Chain.{
  contains, first_attempt, classify, first_reply, received, Choice, generate, extract_matricula,
  Message, Answer,
}
use tax_deeds.Base.{ℕ, ◌≡◌, ◌≢◌, refl, ◌↔◌, false, none, some, List, [], ◌∷◌, ◌++◌, arith, All}

abbrev reply : Text
reply = codes "ok: {x}"

abbrev answering : List Message → Result (List Choice)
answering ms = ok (record { content = reply; info = [] } ∷ [])

abbrev unauthorized : Failure
unauthorized = plain (codes "401")

abbrev refusing : List Message → Result (List Choice)
refusing ms = err unauthorized

sitio_valid : validate_enums ascii sitio ≡ none
unfolding validate_enums enum_ok to_lower rune_lower trim_space trim_left is_space check_partes
    check_atos check_proprietarios check_onus same one_of
sitio_valid = refl

validate_enums-Fits_example : Fits (normalize ascii sitio) ↔ All (StatusIsPlain ascii) sitio.onus
validate_enums-Fits_example = validate_enums-Fits ascii sitio sitio_valid

parsed : parse_extraction ascii quoted decode_sitio reply ≡ ok sitio
unfolding parse_extraction parse_object isolate index_of last_index_of take drop checked
    validate_enums enum_ok to_lower rune_lower trim_space trim_left is_space check_partes check_atos
    check_proprietarios check_onus same one_of
parsed = refl

parse_extraction-object_example :
    parse_extraction ascii quoted decode_sitio (codes "ok: " ++ (object (codes "x") ++ codes "."))
    ≡ parse_extraction ascii quoted decode_sitio (object (codes "x"))
parse_extraction-object_example =
    parse_extraction-object ascii quoted decode_sitio (codes "ok: ") (codes "x") (codes ".")
      (ground arith) (ground arith)

abbrev answered_run : Answer (ExtractedMatricula ℕ × Text)
answered_run = extract_matricula ascii quoted decode_sitio answering [] (codes "page")

abbrev refused_run : Answer (ExtractedMatricula ℕ × Text)
refused_run = extract_matricula ascii quoted decode_sitio refusing [] (codes "page")

answered_sitio : answered_run.result ≡ ok (sitio, reply)
unfolding extract_matricula generate received first_reply
answered_sitio = rw parsed (unfold first_attempt in refl)

refused_unauthorized : refused_run.result ≡ err unauthorized
unfolding extract_matricula generate received first_reply classify to_lower rune_lower contains
    message
refused_unauthorized = refl

extract_matricula_sound_example :
    (object' : Text) × (isolate reply ≡ some object')
    × (decode_sitio object' ≡ ok sitio)
    × (sitio.numero ≢ [])
    × (validate_enums ascii sitio ≡ none)
extract_matricula_sound_example =
    extract_matricula_sound ascii quoted decode_sitio answering [] (codes "page") sitio reply
      answered_sitio

unauthorized_terminal : is_transient unauthorized ≡ false
unfolding is_transient
unauthorized_terminal = refl

extract_matricula_terminal_example : Refused ascii quoted decode_sitio refusing [] unauthorized
extract_matricula_terminal_example =
    extract_matricula_terminal ascii quoted decode_sitio refusing [] (codes "page") unauthorized
      refused_unauthorized unauthorized_terminal
