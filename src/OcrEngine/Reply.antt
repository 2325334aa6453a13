-- ===== src/OcrEngine/Reply.antt =====
-- internal/ocrengine/glm.go, internal/ocrengine/maas.go and internal/ocrengine/stub.go: the text of a
-- page, from what the model replies.
use tax_deeds.OcrWorker.{IoError, Recognized, got, broke, Io}
use tax_deeds.Text.{same, codes, Text}
use tax_deeds.Failure.{ok, wrapped, plain, err, Failure, Result}
use tax_deeds.OcrEngine.{truncate}
use tax_deeds.Base.{
  ℕ, Bool, false, Option, none, some, List, [], ◌∷◌, ◌++◌, ltb, if◌then◌else◌, length,
}

-- What json.Unmarshal makes of a text, with the members of an object by their keys.
mutual
  pub data Json : Type 0 where
    json_null : Json
    json_bool : Bool → Json
    json_number : Text → Json
    json_string : Text → Json
    json_array : JsonItems → Json
    json_object : JsonMembers → Json

  pub data JsonItems : Type 0 where
    no_items : JsonItems
    item : Json → JsonItems → JsonItems

  pub data JsonMembers : Type 0 where
    no_members : JsonMembers
    member : Text → Json → JsonMembers → JsonMembers

-- `doc[key]`, nil where there is no such key
unfoldable pub at_key : Text → JsonMembers → Json
at_key key no_members = json_null
at_key key (member k v ms) = let rest = at_key key ms in if same k key then v else rest

-- The type assertions `x.(string)`, `x.(map[string]any)` and `x.([]any)` with their first item
abbrev pub as_string : Json → Option Text
as_string (json_string s) = some s
as_string _ = none

abbrev pub as_object : Json → JsonMembers
as_object (json_object ms) = ms
as_object _ = no_members

abbrev pub first_item : Json → Json
first_item (json_array (item v vs)) = v
first_item _ = json_null

abbrev pub or_else : Option Text → Option Text → Option Text
or_else (some s) o = some s
or_else none o = o

-- extractMaaSText, of the decoded object
unfoldable pub maas_text : JsonMembers → Option Text
unfolding at_key
maas_text doc =
    let data_object = as_object (at_key (codes "data") doc) in
    let choice = as_object (first_item (at_key (codes "choices") doc)) in
    let msg = as_object (at_key (codes "message") choice) in
    or_else (as_string (at_key (codes "md_content") doc)) (
      or_else (as_string (at_key (codes "md_content") data_object)) (
        or_else (as_string (at_key (codes "content") data_object)) (
          or_else (as_string (at_key (codes "text") data_object))
            (as_string (at_key (codes "content") msg)))))

abbrev pub fails_with : Failure → IoError
fails_with e = record { failure = e; timed_out = false }

abbrev pub found_text : Option Text → Io Text
found_text none = broke (fails_with (plain (codes "no recognized text field in response")))
found_text (some s) = got s

-- extractMaaSText; an error of the decoder is in no chain of context.DeadlineExceeded.
unfoldable pub extract_maas_text : Result JsonMembers → Io Text
unfolding maas_text
extract_maas_text (err e) = broke (fails_with (wrapped (codes "decode response") e))
extract_maas_text (ok doc) = found_text (maas_text doc)

abbrev pub prefixed {ℓ} : {A : Type ℓ} → Text → Io A → Io A
prefixed msg (got a) = got a
prefixed msg (broke e) = broke (record e { failure = wrapped msg e.failure })

abbrev pub maas_reply : (List ℕ → Result JsonMembers) → Io (List ℕ) → Io Text
maas_reply decode (broke e) = broke e
maas_reply decode (got body) = extract_maas_text (decode body)

-- pngDataURI
unfoldable pub png_data_uri : (List ℕ → Text) → List ℕ → Text
png_data_uri encode png = codes "data:image/png;base64," ++ encode png

-- The content of the first choice; `decode` reads the contents of the choices.
abbrev pub first_choice : (List ℕ → Text) → List ℕ → Result (List Text) → Io Text
first_choice text_of body (err e) = broke (fails_with (wrapped (codes "decode response") e))
first_choice text_of body (ok []) =
    broke (fails_with (plain (codes "response has no choices: " ++ truncate text_of body 200)))
first_choice text_of body (ok (s ∷ ss)) = got s

abbrev pub glm_reply : (List ℕ → Text) → (List ℕ → Result (List Text)) → Io (List ℕ) → Io Text
glm_reply text_of decode (broke e) = broke e
glm_reply text_of decode (got body) = first_choice text_of body (decode body)

module _ {Num : Type 0} where
  abbrev pub as_result : Io Text → Io (Recognized Num)
  as_result (got s) = got (record { text = s; confidence = none })
  as_result (broke e) = broke e

  -- RecognizePage of maasEngine; `call` is doWithRetry on the request with this file.
  unfoldable pub recognize_maas :
      (List ℕ → Text)
      → (ℕ → Text)
      → (List ℕ → Result JsonMembers)
      → (Text → Io (List ℕ))
      → List ℕ
      → Io (Recognized Num)
  unfolding extract_maas_text png_data_uri
  recognize_maas encode decimal decode call png =
      let uri = png_data_uri encode png in
      if ltb 10485760 (length uri)
      then broke (
          fails_with (
            plain (
              codes "maas: page image data URI is "
              ++ decimal (length uri)
              ++ codes " bytes, over the 10MB API limit")))
      else as_result (prefixed (codes "maas") (maas_reply decode (call uri)))

  -- RecognizePage of glmEngine; `call` is doWithRetry on the request with this image.
  unfoldable pub recognize_glm :
      (List ℕ → Text)
      → (List ℕ → Text)
      → (List ℕ → Result (List Text))
      → (Text → Io (List ℕ))
      → List ℕ
      → Io (Recognized Num)
  unfolding truncate png_data_uri
  recognize_glm encode text_of decode call png =
      as_result (prefixed (codes "glm") (glm_reply text_of decode (call (png_data_uri encode png))))

  -- RecognizePage of stubEngine: `ended` is the error of the context in the delay, `unlucky` the
  -- outcome of the draw, `sure` the number 0.98.
  unfoldable pub recognize_stub :
      Text → Num → (ℕ → Text) → Option IoError → Bool → ℕ → Io (Recognized Num)
  recognize_stub fixture sure decimal (some e) unlucky n = broke e
  recognize_stub fixture sure decimal none unlucky n =
      if unlucky
      then broke (fails_with (plain (codes "stub: simulated OCR failure")))
      else got (record {
        text =
            if ltb 1 n
            then codes "(continuação da matrícula — página " ++ decimal n ++ codes ")"
            else fixture;
        confidence = some sure;
      })
