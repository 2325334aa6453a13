-- ===== src/Config.antt =====
-- internal/config/config.go: the configuration from the environment.
--
-- os.Getenv is the parameter `env`, which gives the empty text for an unset variable;
-- time.ParseDuration is the parameter `parse_duration`.
pub mod Loads
pub mod Tests
use tax_deeds.Store.{ahead, Duration}
use tax_deeds.Text.{is_empty, codes, is_digit, Text}
use tax_deeds.Failure.{◌>>=◌, ok, plain, err, Result, Failure}
use tax_deeds.Base.{
  ℕ, zero, suc, ◌+◌, ◌-◌, ◌*◌, ◌≤◌, ◌<◌, ◌≡◌, ◌≢◌, refl, sym, ap, ◌∙◌, ◌↔◌, ◌⊎◌, inl, inr, Bool,
  true, false, ◌&&◌, ◌||◌, not, Option, none, some, List, [], ◌∷◌, ◌++◌, map, arith, ltb, leb, ◌==◌,
  if◌then◌else◌, Bool-cases, All, length,
}

-- An int64.
pub data Int64 : Type 0 where
  plus minus : ℕ → Int64

pub record Config : Type 0 where
  pub port : Text
  pub log_level : Text
  pub environment : Text
  pub otlp_endpoint : Text
  pub database_url : Text
  pub gcs_bucket : Text
  pub max_upload_mb : Int64
  pub max_pages : Int64
  pub ocr_service_url : Text
  pub ocr_dispatch_timeout : Duration
  pub llm_provider : Text
  pub llm_model : Text
  pub llm_base_url : Text
  pub poll_interval : Duration
  pub stuck_timeout : Duration
  pub max_extraction_attempts : Int64

unfoldable pub digits_value : ℕ → Text → Option ℕ
digits_value acc [] = some acc
digits_value acc (c ∷ s) =
    let rest = digits_value (acc * 10 + (c - b'0')) s in if is_digit c then rest else none

abbrev pub in_range : ℕ → (ℕ → Int64) → Option ℕ → Option Int64
in_range bound sign none = none
in_range bound sign (some n) = if leb n bound then some (sign n) else none

abbrev pub positive : Text → Option Int64
positive [] = none
positive (c ∷ s) = in_range 9223372036854775807 plus (digits_value 0 (c ∷ s))

abbrev pub negative : Text → Option Int64
negative [] = none
negative (c ∷ s) = in_range 9223372036854775808 minus (digits_value 0 (c ∷ s))

-- `strconv.ParseInt(s, 10, 64)`
unfoldable pub parse_int : Text → Option Int64
unfolding digits_value
parse_int [] = none
parse_int (c ∷ s) =
    if c == b'-' then negative s else if c == b'+' then positive s else positive (c ∷ s)

abbrev pub parsed_or {ℓ} : {A : Type ℓ} → Failure → Option A → Result A
parsed_or e none = err e
parsed_or e (some a) = ok a

module _ (quote : Text → Text) (parse_duration : Text → Option Duration) (env : Text → Text) where
  unfoldable pub getenv : Text → Text → Text
  getenv key default = if is_empty (env key) then default else env key

  unfoldable pub int_env : Text → ℕ → Result Int64
  unfolding parse_int
  int_env key default =
      if is_empty (env key)
      then ok (plus default)
      else parsed_or (plain (key ++ codes ": invalid integer " ++ quote (env key)))
          (parse_int (env key))

  unfoldable pub duration_env : Text → ℕ → Result Duration
  duration_env key default =
      if is_empty (env key)
      then ok (ahead default)
      else parsed_or (plain (key ++ codes ": invalid duration " ++ quote (env key)))
          (parse_duration (env key))

  abbrev pub config_with : Int64 → Int64 → Int64 → Duration → Duration → Duration → Config
  config_with upload pages attempts dispatch poll stuck = record {
    port = getenv (codes "PORT") (codes "8080");
    log_level = getenv (codes "LOG_LEVEL") (codes "info");
    environment = getenv (codes "APP_ENV") (codes "dev");
    otlp_endpoint = env (codes "OTEL_EXPORTER_OTLP_ENDPOINT");
    database_url = env (codes "DATABASE_URL");
    gcs_bucket = getenv (codes "GCS_BUCKET") (codes "matriculas");
    max_upload_mb = upload;
    max_pages = pages;
    ocr_service_url = getenv (codes "OCR_SERVICE_URL") (codes "http://localhost:9090");
    ocr_dispatch_timeout = dispatch;
    llm_provider = getenv (codes "LLM_PROVIDER") (codes "anthropic");
    llm_model = getenv (codes "LLM_MODEL") (codes "claude-sonnet-5");
    llm_base_url = getenv (codes "LLM_BASE_URL") (codes "http://localhost:11434");
    poll_interval = poll;
    stuck_timeout = stuck;
    max_extraction_attempts = attempts;
  }

  unfoldable pub load_rest : Result Config
  unfolding int_env duration_env getenv
  load_rest = int_env (codes "MAX_UPLOAD_MB") 25 >>= (λ upload.
      int_env (codes "MAX_PAGES") 100 >>= (λ pages.
        int_env (codes "MAX_EXTRACTION_ATTEMPTS") 3 >>= (λ attempts.
          duration_env (codes "OCR_DISPATCH_TIMEOUT") 10000000000 >>= (λ dispatch.
            duration_env (codes "POLL_INTERVAL") 5000000000 >>= (λ poll.
              duration_env (codes "STUCK_TIMEOUT") 600000000000
              >>= (λ stuck. ok (config_with upload pages attempts dispatch poll stuck)))))))

  -- Load
  unfoldable pub load : Result Config
  unfolding load_rest
  load =
      if is_empty (env (codes "DATABASE_URL"))
      then err (plain (codes "DATABASE_URL is required"))
      else load_rest
