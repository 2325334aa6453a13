-- ===== src/Llm/Chain.antt =====
-- ExtractMatricula, generate, classify, usageFrom and intFrom of internal/clients/llm/langchain.go,
-- with Usage of internal/clients/llm/extractor.go.
--
-- The language model behind langchaingo is the parameter `ask`. The text of the system prompt is a
-- parameter too: nothing depends on it.
pub mod Laws
use tax_deeds.Llm.Parse.{parse_extraction}
use tax_deeds.Dto.{ExtractedMatricula}
use tax_deeds.Failure.{wrapped, plain, transient, ok, message, err, Failure, Result}
use tax_deeds.Text.{same, is_empty, to_lower, codes, Text, Unicode}
use tax_deeds.Base.{
  any, ℕ, zero, suc, ◌+◌, ◌-◌, ◌*◌, ◌≤◌, ◌<◌, ◌≡◌, ◌≢◌, refl, sym, ap, ◌∙◌, ◌↔◌, ◌⊎◌, inl, inr,
  Bool, true, false, ◌&&◌, ◌||◌, not, Option, none, some, List, [], ◌∷◌, ◌++◌, map, arith, ltb, leb,
  ◌==◌, if◌then◌else◌, Bool-cases, All, length,
}

pub record Usage : Type 0 where
  pub input_tokens : ℕ
  pub output_tokens : ℕ

-- What a map[string]any holds: a number of one of the three types that intFrom reads, cut to an
-- integer, or anything else.
pub data Info : Type 0 where
  int_value int64_value float64_value : ℕ → Info
  other : Info

pub record Choice : Type 0 where
  pub content : Text
  pub info : List (Text × Info)

pub data Role : Type 0 where
  system human ai : Role

abbrev pub Message : Type 0
Message = Role × Text

unfoldable pub info_at : Text → List (Text × Info) → Info
info_at k [] = other
info_at k ((j, v) ∷ rest) = if same j k then v else info_at k rest

-- The first key that holds a number.
unfoldable pub int_from : List (Text × Info) → List Text → ℕ
int_from info [] = 0
int_from info (k ∷ ks) = elim (info_at k info) [
  | int_value n ↦ n
  | int64_value n ↦ n
  | float64_value n ↦ n
  | other ↦ int_from info ks
]

unfoldable pub usage_from : List (Text × Info) → Usage
usage_from info = record {
  input_tokens =
      int_from info (codes "InputTokens" ∷ codes "input_tokens" ∷ codes "PromptTokens" ∷ []);
  output_tokens =
      int_from info (codes "OutputTokens" ∷ codes "output_tokens" ∷ codes "CompletionTokens" ∷ []);
}

abbrev pub starts_with : Text → Text → Bool
starts_with [] s = true
starts_with (c ∷ p) [] = false
starts_with (c ∷ p) (d ∷ s) = c == d && starts_with p s

-- `strings.Contains(s, p)`
unfoldable pub contains : Text → Text → Bool
contains p [] = is_empty p
contains p (c ∷ s) = starts_with p (c ∷ s) || contains p s

abbrev pub terminal_words : List Text
terminal_words =
    codes "401"
    ∷ codes "403"
    ∷ codes "authentication"
    ∷ codes "invalid x-api-key"
    ∷ codes "api key"
    ∷ codes "not_found_error"
    ∷ codes "invalid_request"
    ∷ []

unfoldable pub classify : Unicode → Failure → Failure
classify u e =
    let msg = to_lower u (message e) in
    if any (λ w. contains w msg) terminal_words then e else transient e

-- The result of one extraction: the content with the raw output, or an error; and the tokens used.
pub record Answer (A : Type 0) : Type 0 where
  pub result : Result A
  pub usage : Usage

abbrev pub no_usage : Usage
no_usage = record { input_tokens = 0; output_tokens = 0 }

abbrev pub add_usage : Usage → Usage → Usage
add_usage a b = record {
  input_tokens = a.input_tokens + b.input_tokens;
  output_tokens = a.output_tokens + b.output_tokens;
}

-- What generate makes of the reply.
unfoldable pub received : Unicode → Result (List Choice) → Answer Text
received u (err e) = record { result = err (classify u e); usage = no_usage }
received u (ok []) = record {
  result = err (transient (plain (codes "empty response from model")));
  usage = no_usage;
}
received u (ok (choice ∷ _)) = record { result = ok choice.content; usage = usage_from choice.info }

unfoldable pub generate :
    Unicode → (List Message → Result (List Choice)) → List Message → Answer Text
unfolding received
generate u ask messages = received u (ask messages)

abbrev pub repair_text : Failure → Text
repair_text e =
    codes "Sua resposta não pôde ser decodificada ("
    ++ message e
    ++ codes "). Responda novamente APENAS com o objeto JSON corrigido, sem nenhum outro texto."

module _ {Num : Type 0} (u : Unicode) (quote : Text → Text)
    (decode : Text → Result (ExtractedMatricula Num)) (ask : List Message → Result (List Choice))
    (system_prompt : Text) where
  abbrev pub first_messages : Text → List Message
  first_messages ocr_text = (system, system_prompt) ∷ (human, ocr_text) ∷ []

  abbrev pub repair_messages : Text → Text → Failure → List Message
  repair_messages ocr_text raw e =
      (system, system_prompt) ∷ (human, ocr_text) ∷ (ai, raw) ∷ (human, repair_text e) ∷ []

  unfoldable pub second_parse :
      Usage → Text → Result (ExtractedMatricula Num) → Answer (ExtractedMatricula Num × Text)
  second_parse usage raw (ok m) = record { result = ok (m, raw); usage = usage }
  second_parse usage raw (err e) = record {
    result = err (transient (wrapped (codes "model output is not valid extraction JSON") e));
    usage = usage;
  }

  unfoldable pub second_reply : Usage → Result Text → Answer (ExtractedMatricula Num × Text)
  unfolding second_parse
  second_reply usage (err e) = record { result = err e; usage = usage }
  second_reply usage (ok raw) = second_parse usage raw (parse_extraction u quote decode raw)

  -- The repair round, which shows the model its own output and the error.
  unfoldable pub repair : Text → Usage → Text → Failure → Answer (ExtractedMatricula Num × Text)
  unfolding second_reply
  repair ocr_text used raw e =
      let second = generate u ask (repair_messages ocr_text raw e) in
      second_reply (add_usage used second.usage) second.result

  unfoldable pub first_attempt :
      Text → Usage → Text → Result (ExtractedMatricula Num) → Answer (ExtractedMatricula Num × Text)
  unfolding repair
  first_attempt ocr_text usage raw (ok m) = record { result = ok (m, raw); usage = usage }
  first_attempt ocr_text usage raw (err e) = repair ocr_text usage raw e

  unfoldable pub first_reply : Text → Usage → Result Text → Answer (ExtractedMatricula Num × Text)
  unfolding first_attempt
  first_reply ocr_text usage (err e) = record { result = err e; usage = usage }
  first_reply ocr_text usage (ok raw) =
      first_attempt ocr_text usage raw (parse_extraction u quote decode raw)

  unfoldable pub extract_matricula : Text → Answer (ExtractedMatricula Num × Text)
  unfolding first_reply
  extract_matricula ocr_text =
      let first = generate u ask (first_messages ocr_text) in
      first_reply ocr_text first.usage first.result
