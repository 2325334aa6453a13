-- ===== src/Llm/Chain/Laws.antt =====
-- ExtractMatricula: what a success rests on, and which failures are terminal.
use tax_deeds.Llm.Parse.Isolate.{parse_extraction_sound}
use tax_deeds.Llm.Enums.{validate_enums}
use tax_deeds.Llm.Parse.{isolate, parse_extraction}
use tax_deeds.Dto.{ExtractedMatricula}
use tax_deeds.Text.{to_lower, Text, Unicode}
use tax_deeds.Failure.{message, ok, err, is_transient, Result, Failure}
use tax_deeds.Llm.Chain.{
  first_attempt, extract_matricula, Answer, first_reply, second_parse, repair, generate,
  terminal_words, Usage, second_reply, contains, Message, Choice, received, classify,
}
use tax_deeds.Base.{
  none, ◌≢◌, some, any, ◌≡◌, refl, sym, ap, ◌∙◌, ◌⊎◌, inl, inr, true, false, List, [], ◌∷◌,
  Bool-cases,
}

-- A terminal error of the model's API is returned as it is; all else is transient.
classify_cases :
    (u : Unicode) (e : Failure) → (classify u e ≡ e) ⊎ (is_transient (classify u e) ≡ true)
unfolding classify is_transient
classify_cases u e =
    elim (Bool-cases (any (λ w. contains w (to_lower u (message e))) terminal_words)) [
      | inl t ↦ inl (rw t)
      | inr f ↦ inr (rw f)
    ]

err-injective {ℓ} : {A : Type ℓ} (d e : Failure) → ◌≡◌ {A = Result A} (err d) (err e) → d ≡ e
err-injective d e h = cc

ok-injective {ℓ} : {A : Type ℓ} (a b : A) → ok a ≡ ok b → a ≡ b
ok-injective a b h = cc

received_terminal :
    (u : Unicode) (r : Result (List Choice)) (e : Failure)
    → (received u r).result ≡ err e
    → is_transient e ≡ false
    → r ≡ err e
unfolding received
received_terminal u (err d) e h t = elim (classify_cases u d) [
  | inl same' ↦ ap err (sym same' ∙ err-injective _ _ h)
  | inr again ↦ absurd (unfold is_transient in cc (err-injective _ _ h))
]
received_terminal u (ok []) e h t = absurd (unfold is_transient in cc (err-injective _ _ h))
received_terminal u (ok (c ∷ cs)) e h t = cc

module _ {Num : Type 0} (u : Unicode) (quote : Text → Text)
    (decode : Text → Result (ExtractedMatricula Num)) (ask : List Message → Result (List Choice))
    (system_prompt : Text) where
  -- The API answered some call with the terminal error itself.
  abbrev pub Refused : Failure → Type 0
  Refused e = (ms : List Message) × (ask ms ≡ err e)

  second_parse_not_terminal :
      (usage : Usage) (raw : Text) (r : Result (ExtractedMatricula Num)) (e : Failure)
      → (second_parse u quote decode ask system_prompt usage raw r).result ≡ err e
      → is_transient e ≡ true
  unfolding second_parse is_transient
  second_parse_not_terminal usage raw (ok m) e h = cc
  second_parse_not_terminal usage raw (err f) e h = cc (err-injective _ _ h)

  second_reply_terminal :
      (usage : Usage) (r : Result Text) (e : Failure)
      → (second_reply u quote decode ask system_prompt usage r).result ≡ err e
      → is_transient e ≡ false
      → r ≡ err e
  unfolding second_reply
  second_reply_terminal usage (err d) e h t = ap err (err-injective _ _ h)
  second_reply_terminal usage (ok raw) e h t =
      cc (second_parse_not_terminal usage raw (parse_extraction u quote decode raw) e h)

  repair_terminal :
      (ocr_text : Text) (usage : Usage) (raw : Text) (f e : Failure)
      → (repair u quote decode ask system_prompt ocr_text usage raw f).result ≡ err e
      → is_transient e ≡ false
      → Refused e
  unfolding repair generate
  repair_terminal ocr_text usage raw f e h t =
      (_, received_terminal u _ e (second_reply_terminal _ _ e h t) t)

  first_attempt_terminal :
      (ocr_text : Text) (usage : Usage) (raw : Text) (r : Result (ExtractedMatricula Num))
      (e : Failure)
      → (first_attempt u quote decode ask system_prompt ocr_text usage raw r).result ≡ err e
      → is_transient e ≡ false
      → Refused e
  unfolding first_attempt
  first_attempt_terminal ocr_text usage raw (ok m) e h t = cc
  first_attempt_terminal ocr_text usage raw (err f) e h t =
      repair_terminal ocr_text usage raw f e h t

  first_reply_terminal :
      (ocr_text : Text) (usage : Usage) (r : Result Text) (e : Failure)
      → (first_reply u quote decode ask system_prompt ocr_text usage r).result ≡ err e
      → is_transient e ≡ false
      → (r ≡ err e) ⊎ Refused e
  unfolding first_reply
  first_reply_terminal ocr_text usage (err d) e h t = inl (ap err (err-injective _ _ h))
  first_reply_terminal ocr_text usage (ok raw) e h t =
      inr (first_attempt_terminal ocr_text usage raw (parse_extraction u quote decode raw) e h t)

  -- An extraction fails for good only by an error that the model's API itself returned: output that
  -- cannot be decoded, or no output, is worth another try.
  pub extract_matricula_terminal :
      (ocr_text : Text) (e : Failure)
      → (extract_matricula u quote decode ask system_prompt ocr_text).result ≡ err e
      → is_transient e ≡ false
      → Refused e
  unfolding extract_matricula generate
  extract_matricula_terminal ocr_text e h t = elim (first_reply_terminal ocr_text _ _ e h t) [
    | inl r ↦ (_, received_terminal u _ e r t)
    | inr r ↦ r
  ]

  -- The content of a success is what its raw output parses to, whether from the first round or from
  -- the repair.
  abbrev Backed : Answer (ExtractedMatricula Num × Text) → Type 0
  Backed a =
      (m : ExtractedMatricula Num) (raw : Text)
      → a.result ≡ ok (m, raw)
      → parse_extraction u quote decode raw ≡ ok m

  second_parse-Backed :
      (usage : Usage) (raw : Text) (r : Result (ExtractedMatricula Num))
      → parse_extraction u quote decode raw ≡ r
      → Backed (second_parse u quote decode ask system_prompt usage raw r)
  unfolding second_parse
  second_parse-Backed usage raw (ok n) e m raw' h =
      let p : (n, raw) ≡ (m, raw') = ok-injective _ _ h in
      ap (λ t. parse_extraction u quote decode t) (sym (ap (λ q. q.1) p)) ∙ e ∙ ap (λ q. ok q.0) p
  second_parse-Backed usage raw (err f) e m raw' h = cc

  second_reply-Backed :
      (usage : Usage) (r : Result Text)
      → Backed (second_reply u quote decode ask system_prompt usage r)
  unfolding second_reply
  second_reply-Backed usage (err e) m raw h = cc
  second_reply-Backed usage (ok raw) m raw' h = second_parse-Backed usage raw _ refl m raw' h

  first_attempt-Backed :
      (ocr_text : Text) (usage : Usage) (raw : Text) (r : Result (ExtractedMatricula Num))
      → parse_extraction u quote decode raw ≡ r
      → Backed (first_attempt u quote decode ask system_prompt ocr_text usage raw r)
  unfolding first_attempt repair
  first_attempt-Backed ocr_text usage raw (ok n) e =
      unfold second_parse in second_parse-Backed usage raw (ok n) e
  first_attempt-Backed ocr_text usage raw (err f) e = second_reply-Backed _ _

  first_reply-Backed :
      (ocr_text : Text) (usage : Usage) (r : Result Text)
      → Backed (first_reply u quote decode ask system_prompt ocr_text usage r)
  unfolding first_reply
  first_reply-Backed ocr_text usage (err e) m raw h = cc
  first_reply-Backed ocr_text usage (ok raw) m raw' h =
      first_attempt-Backed ocr_text usage raw _ refl m raw' h

  extract_matricula-parsed :
      (ocr_text : Text) (m : ExtractedMatricula Num) (raw : Text)
      → (extract_matricula u quote decode ask system_prompt ocr_text).result ≡ ok (m, raw)
      → parse_extraction u quote decode raw ≡ ok m
  unfolding extract_matricula
  extract_matricula-parsed ocr_text = first_reply-Backed ocr_text _ _

  -- The content of a successful extraction was decoded from the object that is isolated in the raw
  -- output that comes with it, the first output or the repaired one; it has a number, and only values
  -- of the vocabularies.
  pub extract_matricula_sound :
      (ocr_text : Text) (m : ExtractedMatricula Num) (raw : Text)
      → (extract_matricula u quote decode ask system_prompt ocr_text).result ≡ ok (m, raw)
      → (object' : Text) × (isolate raw ≡ some object')
        × (decode object' ≡ ok m)
        × (m.numero ≢ [])
        × (validate_enums u m ≡ none)
  extract_matricula_sound ocr_text m raw h =
      parse_extraction_sound u quote decode raw m (extract_matricula-parsed ocr_text m raw h)
