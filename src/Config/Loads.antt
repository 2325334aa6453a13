-- ===== src/Config/Loads.antt =====
-- When Load succeeds.
use tax_deeds.Config.{parsed_or, load_rest, parse_int, duration_env, load, int_env}
use tax_deeds.Store.{Duration}
use tax_deeds.Failure.{Failure, err, ◌>>=◌, ok, Result}
use tax_deeds.Text.{codes, is_empty, Text}
use tax_deeds.Base.{
  ℕ, ◌≡◌, ◌≢◌, refl, ◌↔◌, ◌⊎◌, inl, inr, Option, none, some, [], ◌∷◌, if◌then◌else◌,
}

abbrev pub IsOk {ℓ} : {A : Type ℓ} → Result A → Type ℓ
IsOk {A = A} r = (a : A) × (r ≡ ok a)

bind-IsOk {ℓ κ} :
    {A : Type ℓ} {B : Type κ} (r : Result A) (f : A → Result B) {C : Type 0}
    → ((a : A) → IsOk (f a) ↔ C)
    → IsOk (r >>= f) ↔ (IsOk r × C)
bind-IsOk (ok a) f h = (λ p. ((a, refl), (h a).0 p), λ (_, c). (h a).1 c)
bind-IsOk (err e) f h = (λ (b, p). absurd (cc p), λ ((a, p), c). absurd (cc p))

readable-IsOk {ℓ} :
    {A : Type ℓ} (v : Text) (a : A) (e : Failure) (o : Option A)
    → IsOk (if is_empty v then ok a else parsed_or e o) ↔ ((v ≡ []) ⊎ (o ≢ none))
readable-IsOk [] a e o = (λ _. inl refl, λ _. (a, refl))
readable-IsOk (c ∷ s) a e none =
    (λ (b, p). absurd (cc p), λ h. elim h [ inl p ↦ absurd (cc p) | inr n ↦ absurd (n refl) ])
readable-IsOk (c ∷ s) a e (some b) = (λ _. inr (λ p. cc p), λ _. (b, refl))

required-IsOk {ℓ} :
    {A : Type ℓ} (v : Text) (e : Failure) (r : Result A) {C : Type 0}
    → IsOk r ↔ C
    → IsOk (if is_empty v then err e else r) ↔ ((v ≢ []) × C)
required-IsOk [] e r h = (λ (a, p). absurd (cc p), λ (n, c). absurd (n refl))
required-IsOk (c ∷ s) e r h = (λ p. (λ q. cc q, h.0 p), λ (n, c'). h.1 c')

module _ (quote : Text → Text) (parse_duration : Text → Option Duration) (env : Text → Text) where
  -- Unset, or an integer.
  abbrev pub IsInteger : Text → Type 0
  IsInteger key = (env key ≡ []) ⊎ (parse_int (env key) ≢ none)

  -- Unset, or a duration.
  abbrev pub IsDuration : Text → Type 0
  IsDuration key = (env key ≡ []) ⊎ (parse_duration (env key) ≢ none)

  int_env-IsOk :
      (key : Text) (default : ℕ)
      → IsOk (int_env quote parse_duration env key default) ↔ IsInteger key
  unfolding int_env
  int_env-IsOk key default = readable-IsOk (env key) _ _ _

  duration_env-IsOk :
      (key : Text) (default : ℕ)
      → IsOk (duration_env quote parse_duration env key default) ↔ IsDuration key
  unfolding duration_env
  duration_env-IsOk key default = readable-IsOk (env key) _ _ _

  then-IsOk {ℓ κ} :
      {A : Type ℓ} {B : Type κ} (r : Result A) (f : A → Result B) {R C : Type 0}
      → IsOk r ↔ R
      → ((a : A) → IsOk (f a) ↔ C)
      → IsOk (r >>= f) ↔ (R × C)
  then-IsOk r f g h = (
    λ p. (g.0 ((bind-IsOk r f h).0 p).0, ((bind-IsOk r f h).0 p).1),
    λ (x, c). (bind-IsOk r f h).1 (g.1 x, c),
  )

  last-IsOk {ℓ κ} :
      {A : Type ℓ} {B : Type κ} (r : Result A) (f : A → B) {R : Type 0}
      → IsOk r ↔ R
      → IsOk (r >>= (λ a. ok (f a))) ↔ R
  last-IsOk (ok a) f g = (λ _. g.0 (a, refl), λ _. (f a, refl))
  last-IsOk (err e) f g = (λ (b, p). absurd (cc p), λ x. absurd (cc ((g.1 x).1)))

  -- Load succeeds exactly if DATABASE_URL is set and each of the three integers and the three
  -- durations is unset or can be read.
  pub load-IsOk : IsOk (load quote parse_duration env) ↔ (
      (env (codes "DATABASE_URL") ≢ [])
      × (IsInteger (codes "MAX_UPLOAD_MB")
          × (IsInteger (codes "MAX_PAGES")
              × (IsInteger (codes "MAX_EXTRACTION_ATTEMPTS")
                  × (IsDuration (codes "OCR_DISPATCH_TIMEOUT")
                      × (IsDuration (codes "POLL_INTERVAL")
                          × IsDuration (codes "STUCK_TIMEOUT")))))))
  unfolding load load_rest
  load-IsOk = required-IsOk (env (codes "DATABASE_URL")) _ _ (
      then-IsOk _ _ (int_env-IsOk _ _) (λ upload. then-IsOk _ _ (int_env-IsOk _ _) (λ pages.
        then-IsOk _ _ (int_env-IsOk _ _) (λ attempts.
          then-IsOk _ _ (duration_env-IsOk _ _) (λ dispatch.
            then-IsOk _ _ (duration_env-IsOk _ _)
              (λ poll. last-IsOk _ _ (duration_env-IsOk _ _)))))))
