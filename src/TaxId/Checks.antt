-- ===== src/TaxId/Checks.antt =====
-- validCPF and validCNPJ against the rule by which the check digits are assigned.
use tax_deeds.TaxId.{
  valid_cpf, valid_cnpj, weights, all_digits, weight_at, digit_at, all_same, cpf_round, weigh,
  cnpj_round,
}
use tax_deeds.Text.{Text}
use tax_deeds.Base.{
  ==_iff, all, ◌%◌, ℕ, zero, suc, ◌+◌, ◌-◌, ◌*◌, ◌≤◌, ◌≡◌, ◌≢◌, refl, sym, ◌↔◌, Bool, true, false,
  ◌&&◌, ◌||◌, not, List, [], ◌∷◌, arith, ltb, leb, ◌==◌, if◌then◌else◌, All, length,
}

-- The rule for a check digit: the remainder of the weighted sum by 11, taken from 11, where 0 stands
-- for more than nine.
abbrev pub check_digit : ℕ → ℕ
check_digit sum = if ltb (sum % 11) 2 then 0 else 11 - sum % 11

-- The weighted sum of the first digits.
abbrev pub dot : List ℕ → Text → ℕ
dot [] s = 0
dot (w ∷ ws) [] = 0
dot (w ∷ ws) (c ∷ s) = (c - b'0') * w + dot ws s

-- The digit at place `n` is the check digit for the weights `ws` of the digits before it.
abbrev pub IsChecked : ℕ → List ℕ → Text → Type 0
IsChecked n ws s = digit_at s n ≡ check_digit (dot ws s)

abbrev pub IsDigits : Text → Type 0
IsDigits s = All (λ c. (b'0' ≤ c) × (c ≤ b'9')) s

-- One character, repeated.
abbrev pub IsRepeated : Text → Type 0
IsRepeated [] = Unit
IsRepeated (c ∷ s) = All (λ d. d ≡ c) s

pub record IsCpf (s : Text) : Type 0 where
  pub digits : IsDigits s
  pub varied : ¬ IsRepeated s
  pub first : IsChecked 9 (10 ∷ 9 ∷ 8 ∷ 7 ∷ 6 ∷ 5 ∷ 4 ∷ 3 ∷ 2 ∷ []) s
  pub second : IsChecked 10 (11 ∷ 10 ∷ 9 ∷ 8 ∷ 7 ∷ 6 ∷ 5 ∷ 4 ∷ 3 ∷ 2 ∷ []) s

pub record IsCnpj (s : Text) : Type 0 where
  pub digits : IsDigits s
  pub varied : ¬ IsRepeated s
  pub first : IsChecked 12 (5 ∷ 4 ∷ 3 ∷ 2 ∷ 9 ∷ 8 ∷ 7 ∷ 6 ∷ 5 ∷ 4 ∷ 3 ∷ 2 ∷ []) s
  pub second : IsChecked 13 (6 ∷ 5 ∷ 4 ∷ 3 ∷ 2 ∷ 9 ∷ 8 ∷ 7 ∷ 6 ∷ 5 ∷ 4 ∷ 3 ∷ 2 ∷ []) s

-- The weights that `k` rounds from the round `i` on use.
abbrev table : (ℕ → ℕ) → ℕ → ℕ → List ℕ
table w zero i = []
table w (suc k) i = w i ∷ table w k (i + 1)

weigh-eq-dot : (w : ℕ → ℕ) (k i : ℕ) (s : Text) → weigh w k i s ≡ dot (table w k i) s
unfolding weigh
weigh-eq-dot w zero i s = refl
weigh-eq-dot w (suc k) i [] = refl
weigh-eq-dot w (suc k) i (c ∷ s) = rw (weigh-eq-dot w k (i + 1) s)

cpf_digit : (x : ℕ) → x * 10 % 11 % 10 ≡ check_digit x
cpf_digit x = ground arith

cnpj_digit : (x : ℕ) → (if leb 10 (11 - x % 11) then 0 else 11 - x % 11) ≡ check_digit x
cnpj_digit x = ground arith

cpf_round_iff :
    (n : ℕ) (s : Text) → (cpf_round n s ≡ true) ↔ IsChecked n (table (λ i. n + 1 - i) n 0) s
unfolding cpf_round
cpf_round_iff n s =
    rw (weigh-eq-dot (λ i. n + 1 - i) n 0 s, cpf_digit)
      ((λ h. sym ((==_iff _ _).0 h)), (λ h. (==_iff _ _).1 (sym h)))

cnpj_round_iff :
    (n : ℕ) (s : Text)
    → (cnpj_round n s ≡ true)
      ↔ IsChecked n (table (λ i. weight_at weights (length weights - n + i)) n 0) s
unfolding cnpj_round
cnpj_round_iff n s =
    rw (weigh-eq-dot (λ i. weight_at weights (length weights - n + i)) n 0 s, cnpj_digit)
      ((λ h. sym ((==_iff _ _).0 h)), (λ h. (==_iff _ _).1 (sym h)))

all_digits_iff : (s : Text) → (all_digits s ≡ true) ↔ IsDigits s
all_digits_iff [] = (λ _. tt, λ _. refl)
all_digits_iff (c ∷ s) = ground (arith, all_digits_iff s)

all_equal_iff : (c : ℕ) (s : Text) → (all (λ d. d == c) s ≡ true) ↔ All (λ d. d ≡ c) s
all_equal_iff c [] = (λ _. tt, λ _. refl)
all_equal_iff c (d ∷ s) = ground (arith, all_equal_iff c s, ==_iff d c)

all_same_iff : (s : Text) → (all_same s ≡ true) ↔ IsRepeated s
all_same_iff [] = (λ _. tt, λ _. refl)
all_same_iff (c ∷ s) = all_equal_iff c s

guarded_iff :
    (same digits a b : Bool)
    → ((if same || not digits then false else a && b) ≡ true)
      ↔ ((digits ≡ true) × (same ≢ true) × (a ≡ true) × (b ≡ true))
guarded_iff true d a b = ground arith
guarded_iff false true a b = ground arith
guarded_iff false false a b = ground arith

-- validCPF accepts exactly the digit texts, not one repeated character, whose tenth and eleventh
-- digits are the check digits of the digits before them.
pub valid_cpf_iff : (s : Text) → (valid_cpf s ≡ true) ↔ IsCpf s
unfolding valid_cpf
valid_cpf_iff s = (
  λ h.
      let (d, v, a, b) = (guarded_iff _ _ _ _).0 h in
      record {
        digits = (all_digits_iff s).0 d;
        varied = λ r. v ((all_same_iff s).1 r);
        first = (cpf_round_iff 9 s).0 a;
        second = (cpf_round_iff 10 s).0 b;
      },
  λ h. (guarded_iff _ _ _ _).1 (
    (all_digits_iff s).1 h.digits,
    λ r. h.varied ((all_same_iff s).0 r),
    (cpf_round_iff 9 s).1 h.first,
    (cpf_round_iff 10 s).1 h.second,
  ),
)

-- validCNPJ accepts exactly the digit texts, not one repeated character, whose thirteenth and
-- fourteenth digits are the check digits of the digits before them.
pub valid_cnpj_iff : (s : Text) → (valid_cnpj s ≡ true) ↔ IsCnpj s
unfolding valid_cnpj
valid_cnpj_iff s = (
  λ h.
      let (d, v, a, b) = (guarded_iff _ _ _ _).0 h in
      record {
        digits = (all_digits_iff s).0 d;
        varied = λ r. v ((all_same_iff s).1 r);
        first = (cnpj_round_iff 12 s).0 a;
        second = (cnpj_round_iff 13 s).0 b;
      },
  λ h. (guarded_iff _ _ _ _).1 (
    (all_digits_iff s).1 h.digits,
    λ r. h.varied ((all_same_iff s).0 r),
    (cnpj_round_iff 12 s).1 h.first,
    (cnpj_round_iff 13 s).1 h.second,
  ),
)
