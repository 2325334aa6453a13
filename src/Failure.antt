-- ===== src/Failure.antt =====
-- Go's error values as far as the program looks into them: the message, and whether ErrTransient of
-- internal/clients/llm/extractor.go is in the chain.
use tax_deeds.Text.{codes, Text}
use tax_deeds.Base.{◌≡◌, refl, ◌⊎◌, inl, inr, Bool, true, false, ◌++◌}

pub data Failure : Type 0 where
  plain : Text → Failure  -- errors.New, and errors of libraries
  wrapped : Text → Failure → Failure  -- fmt.Errorf("...: %w", err)
  transient : Failure → Failure  -- Transient(err)

-- `IsTransient(err)`, that is `errors.Is(err, ErrTransient)`
unfoldable pub is_transient : Failure → Bool
is_transient (plain s) = false
is_transient (wrapped s e) = is_transient e
is_transient (transient e) = true

-- `err.Error()`
unfoldable pub message : Failure → Text
message (plain s) = s
message (wrapped s e) = s ++ codes ": " ++ message e
message (transient e) = codes "transient llm failure: " ++ message e

pub data Result {ℓ} (A : Type ℓ) : Type ℓ where
  ok : A → Result A
  err : Failure → Result A

infixl 5 ◌>>=◌
abbrev pub ◌>>=◌ {ℓ κ} : {A : Type ℓ} {B : Type κ} → Result A → (A → Result B) → Result B
ok a >>= f = f a
err e >>= f = err e

pub Result-cases {ℓ} :
    {A : Type ℓ} (r : Result A) → ((a : A) × (r ≡ ok a)) ⊎ ((e : Failure) × (r ≡ err e))
Result-cases (ok a) = inl (a, refl)
Result-cases (err e) = inr (e, refl)
