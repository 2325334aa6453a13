-- ===== src/Command/Outcomes.antt =====
-- When a run returns no error.
use tax_deeds.Config.Loads.{IsOk}
use tax_deeds.Command.{◌>>=◌, Run, Event, deferred, check}
use tax_deeds.Failure.{Failure, ok, err}
use tax_deeds.Base.{◌≡◌, refl, ◌↔◌, Option, none, some, List}

pub iff_trans : {A B C : Type 0} → A ↔ B → B ↔ C → A ↔ C
iff_trans (f, g) (h, k) = (λ a. h (f a), λ c. g (k c))

pub and_iff : {A B C D : Type 0} → A ↔ B → C ↔ D → (A × C) ↔ (B × D)
and_iff (f, g) (h, k) = (λ (a, c). (f a, h c), λ (b, d). (g b, k d))

pub >>=-IsOk :
    {A B : Type 0} (m : Run A) (f : A → Run B) {C : Type 0}
    → ((a : A) → IsOk (f a).1 ↔ C)
    → IsOk (m >>= f).1 ↔ (IsOk m.1 × C)
>>=-IsOk (s, ok a) f h = (λ p. ((a, refl), (h a).0 p), λ (_, c). (h a).1 c)
>>=-IsOk (s, err e) f h = (λ (b, p). absurd (cc p), λ ((a, p), c). absurd (cc p))

pub deferred-IsOk :
    {A : Type 0} (last : List Event) (m : Run A) → IsOk (deferred last m).1 ↔ IsOk m.1
deferred-IsOk last (s, r) = (λ p. p, λ p. p)

pub check-IsOk : (f : Option Failure) → IsOk (check f).1 ↔ (f ≡ none)
check-IsOk none = (λ p. refl, λ p. (tt, refl))
check-IsOk (some e) = (λ (a, p). absurd (cc p), λ p. absurd (cc p))
