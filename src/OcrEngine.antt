-- ===== src/OcrEngine.antt =====
-- internal/ocrengine: the selection of an engine, the retries of a call, and the text that an engine
-- takes from the reply of its model.
--
-- The exchange of HTTP messages, `encoding/json` and `encoding/base64` are parameters.
pub mod Reply
pub mod Retry
use tax_deeds.Failure.{ok, err, plain, wrapped, Result}
use tax_deeds.OcrWorker.{Engine, IoError}
use tax_deeds.Text.{same, codes, is_empty, Text}
use tax_deeds.Base.{
  ℕ, zero, suc, ◌+◌, ◌-◌, ◌*◌, ◌≤◌, ◌<◌, ◌≡◌, ◌≢◌, refl, sym, ap, ◌∙◌, ◌↔◌, ◌⊎◌, inl, inr, Bool,
  true, false, ◌&&◌, ◌||◌, not, Option, none, some, List, [], ◌∷◌, ◌++◌, map, arith, ltb, leb, ◌==◌,
  if◌then◌else◌, Bool-cases, All, length,
}

-- The fields of Config that New reads.
pub record EngineConfig : Type 0 where
  pub glm_base_url : Text
  pub glm_model : Text
  pub glm_api_key : Text
  pub zhipu_api_key : Text
  pub zhipu_base_url : Text

pub data ModelEndpoint : Type 0 where
  stub_engine : ModelEndpoint
  glm_engine : Text → Text → Text → ModelEndpoint  -- base URL, model and key
  maas_engine : Text → Text → ModelEndpoint  -- base URL and key

-- `strings.TrimRight(s, "/")`
unfoldable pub trim_slashes : Text → Text
trim_slashes [] = []
trim_slashes (c ∷ s) =
    let rest = trim_slashes s in if c == b'/' && is_empty rest then [] else c ∷ rest

abbrev pub or_default : Text → Text → Text
or_default s fallback = if is_empty s then fallback else s

unfoldable pub new_glm : EngineConfig → Result ModelEndpoint
unfolding trim_slashes
new_glm cfg =
    if is_empty cfg.glm_base_url
    then err (plain (codes "GLM_BASE_URL is required for the glm engine"))
    else ok (
        glm_engine (trim_slashes cfg.glm_base_url) (or_default cfg.glm_model (codes "glm-ocr"))
          cfg.glm_api_key)

unfoldable pub new_maas : EngineConfig → Result ModelEndpoint
unfolding trim_slashes
new_maas cfg =
    if is_empty cfg.zhipu_api_key
    then err (plain (codes "ZHIPU_API_KEY is required for the glm-maas engine"))
    else ok (
        maas_engine
          (trim_slashes
            (or_default cfg.zhipu_base_url (codes "https://open.bigmodel.cn/api/paas/v4")))
          cfg.zhipu_api_key)

-- New
unfoldable pub new_engine : (Text → Text) → Text → EngineConfig → Result ModelEndpoint
unfolding new_glm new_maas
new_engine quote name cfg =
    if same name (codes "stub")
    then ok stub_engine
    else if same name (codes "glm")
    then new_glm cfg
    else if same name (codes "glm-maas")
    then new_maas cfg
    else err
        (plain (codes "unknown OCR engine " ++ quote name ++ codes " (want stub, glm or glm-maas)"))

-- Name and NeedsImage of the three engines
abbrev pub stub_face : Engine
stub_face = record { name = codes "stub"; needs_image = false }

abbrev pub glm_face : Engine
glm_face = record { name = codes "glm-ocr"; needs_image = true }

abbrev pub maas_face : Engine
maas_face = record { name = codes "glm-ocr-maas"; needs_image = true }

unfoldable pub engine_face : ModelEndpoint → Engine
engine_face stub_engine = stub_face
engine_face (glm_engine url model key) = glm_face
engine_face (maas_engine url key) = maas_face

-- What one attempt to call the model comes to: an error of the client or of reading the body, or a
-- status with its text and the body.
pub data Exchange : Type 0 where
  no_reply unread : IoError → Exchange
  reply : ℕ → Text → List ℕ → Exchange

-- What follows an attempt: its body, an error that ends the call, or one that the next may clear.
pub data Verdict : Type 0 where
  replied : List ℕ → Verdict
  gives_up retries : IoError → Verdict

-- `b[:n]`
unfoldable pub first_bytes : ℕ → List ℕ → List ℕ
first_bytes n [] = []
first_bytes n (b ∷ bs) = let rest = first_bytes (n - 1) bs in if n == 0 then [] else b ∷ rest

module _ (text_of : List ℕ → Text) where
  -- truncate; `text_of` reads bytes as a string.
  unfoldable pub truncate : List ℕ → ℕ → Text
  unfolding first_bytes
  truncate bytes n =
      if leb (length bytes) n then text_of bytes else text_of (first_bytes n bytes) ++ 8230 ∷ []

  abbrev pub status_error : Text → List ℕ → IoError
  status_error status body = record {
    failure = plain (codes "model endpoint answered " ++ status ++ codes ": " ++ truncate body 200);
    timed_out = false;
  }

  abbrev pub read_error : IoError → IoError
  read_error e = record e { failure = wrapped (codes "read response") e.failure }

  unfoldable pub verdict : Exchange → Verdict
  unfolding truncate
  verdict (no_reply e) = retries e
  verdict (unread e) = retries (read_error e)
  verdict (reply status line body) =
      if leb 200 status && leb status 299
      then replied body
      else if not (status == 429) && ltb status 500
      then gives_up (status_error line body)
      else retries (status_error line body)
