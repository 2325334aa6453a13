-- ===== src/OcrWorker/Env.antt =====
-- The environment of cmd/ocr/main.go, where a value that cannot be read counts as unset.
use tax_deeds.Store.{Duration}
use tax_deeds.Config.{plus, minus, Int64, parse_int}
use tax_deeds.Text.{is_empty, codes, Text}
use tax_deeds.Base.{ℕ, ◌<◌, inl, inr, Option, none, some, arith, ltb, if◌then◌else◌, Bool-cases}

module _ (env : Text → Text) where
  abbrev pub text_env : Text → Text → Text
  text_env key fallback = if is_empty (env key) then fallback else env key

  abbrev pub read_or {ℓ} : {A : Type ℓ} → Option A → A → A
  read_or none fallback = fallback
  read_or (some a) fallback = a

  unfoldable pub read_duration : (Text → Option Duration) → Text → Duration → Duration
  read_duration parse key fallback =
      if is_empty (env key) then fallback else read_or (parse (env key)) fallback

  unfoldable pub read_float : {Num : Type 0} → (Text → Option Num) → Text → Num → Num
  read_float parse key fallback =
      if is_empty (env key) then fallback else read_or (parse (env key)) fallback

  -- `err == nil && n > 0`
  abbrev pub positive_or : Option Int64 → ℕ → ℕ
  positive_or (some (plus n)) fallback = if ltb 0 n then n else fallback
  positive_or (some (minus n)) fallback = fallback
  positive_or none fallback = fallback

  unfoldable pub read_int : Text → ℕ → ℕ
  unfolding parse_int
  read_int key fallback =
      if is_empty (env key) then fallback else positive_or (parse_int (env key)) fallback

  -- The number that is read is positive if the fallback is.
  positive_or_pos : (o : Option Int64) (fallback : ℕ) → 0 < fallback → 0 < positive_or o fallback
  positive_or_pos none fallback h = h
  positive_or_pos (some (minus n)) fallback h = h
  positive_or_pos (some (plus n)) fallback h = ground arith

  pub read_int_pos : (key : Text) (fallback : ℕ) → 0 < fallback → 0 < read_int key fallback
  unfolding read_int
  read_int_pos key fallback h = elim (Bool-cases (is_empty (env key))) [
    | inl e ↦ rw e h
    | inr e ↦ rw e (positive_or_pos (parse_int (env key)) fallback h)
  ]

-- The pages that the worker recognises at a time.
abbrev pub page_concurrency : (Text → Text) → ℕ
page_concurrency env = read_int env (codes "OCR_PAGE_CONCURRENCY") 2
