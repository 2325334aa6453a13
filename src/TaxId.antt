-- ===== src/TaxId.antt =====
-- normalizeDoc, validCPF, validCNPJ, allDigits and allSame of
-- internal/services/extraction/normalize.go: cleaning a taxpayer number and testing its check digits.
--
-- The two tests are called on texts of 11 and 14 characters only; `digit_at` reads a missing
-- character, at which the program would stop, as 0.
pub mod Checks
pub mod Tests
pub mod Cleaning
use tax_deeds.Base.{
  ℕ, zero, suc, ◌+◌, ◌-◌, ◌*◌, ◌%◌, Bool, true, false, ◌&&◌, ◌||◌, not, Option, none, some, List,
  [], ◌∷◌, all, length, leb, ◌==◌, if◌then◌else◌,
}
use tax_deeds.Text.{Text, Unicode, is_digit, is_upper, is_empty, to_upper}

-- `int(s[i]-'0')`
unfoldable pub digit_at : Text → ℕ → ℕ
digit_at [] i = 0
digit_at (c ∷ s) zero = c - b'0'
digit_at (c ∷ s) (suc i) = digit_at s i

-- The loop `for i := 0; i < n; i++ { sum += int(s[i]-'0') * weight(i) }`, with `k` rounds to go and
-- the rest of the text.
unfoldable pub weigh : (ℕ → ℕ) → ℕ → ℕ → Text → ℕ
weigh weight zero i s = 0
weigh weight (suc k) i [] = 0
weigh weight (suc k) i (c ∷ s) = (c - b'0') * weight i + weigh weight k (i + 1) s

abbrev pub all_digits : Text → Bool
all_digits s = all is_digit s

abbrev pub all_same : Text → Bool
all_same [] = true
all_same (c ∷ s) = all (λ d. d == c) s

-- One round of the loop of validCPF over n = 9, 10.
unfoldable pub cpf_round : ℕ → Text → Bool
cpf_round n s = weigh (λ i. n + 1 - i) n 0 s * 10 % 11 % 10 == digit_at s n

unfoldable pub valid_cpf : Text → Bool
valid_cpf s = if all_same s || not (all_digits s) then false else cpf_round 9 s && cpf_round 10 s

abbrev pub weights : List ℕ
weights = 6 ∷ 5 ∷ 4 ∷ 3 ∷ 2 ∷ 9 ∷ 8 ∷ 7 ∷ 6 ∷ 5 ∷ 4 ∷ 3 ∷ 2 ∷ []

abbrev pub weight_at : List ℕ → ℕ → ℕ
weight_at [] i = 0
weight_at (w ∷ ws) zero = w
weight_at (w ∷ ws) (suc i) = weight_at ws i

-- One round of the loop of validCNPJ over n = 12, 13.
unfoldable pub cnpj_round : ℕ → Text → Bool
cnpj_round n s =
    let dv = 11 - weigh (λ i. weight_at weights (length weights - n + i)) n 0 s % 11 in
    (if leb 10 dv then 0 else dv) == digit_at s n

unfoldable pub valid_cnpj : Text → Bool
valid_cnpj s =
    if all_same s || not (all_digits s) then false else cnpj_round 12 s && cnpj_round 13 s

abbrev pub keeps_rune : ℕ → Bool
keeps_rune r = is_digit r || is_upper r

unfoldable pub keep_runes : Text → Text
keep_runes [] = []
keep_runes (r ∷ s) = let rest = keep_runes s in if keeps_rune r then r ∷ rest else rest

-- The `switch` on the length.
unfoldable pub valid_doc : Text → Bool
valid_doc doc =
    if length doc == 11 then valid_cpf doc else if length doc == 14 then valid_cnpj doc else false

unfoldable pub normalize_doc : Unicode → Text → Text × Option Bool
normalize_doc u s =
    let doc = keep_runes (to_upper u s) in
    if is_empty doc then ([], none) else (doc, some (valid_doc doc))
