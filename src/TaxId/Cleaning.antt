-- ===== src/TaxId/Cleaning.antt =====
-- normalizeDoc: what is kept, what the flag says, and that cleaning is idempotent.
use tax_deeds.Text.{is_empty, Unicode, Text, rune_upper, to_upper}
use tax_deeds.TaxId.{normalize_doc, valid_doc, keeps_rune, keep_runes}
use tax_deeds.Base.{
  ℕ, ◌≤◌, ◌≡◌, refl, ap, ◌↔◌, ◌⊎◌, inl, inr, Bool, true, Option, none, some, [], ◌∷◌, ◌++◌, arith,
  if◌then◌else◌, Bool-cases, All, length,
}
use mathlib.Core.Option.{some-injective}
use tax_deeds.TaxId.Checks.{IsCpf, IsCnpj, valid_cpf_iff, valid_cnpj_iff}

-- A digit or an upper-case letter of ASCII.
abbrev pub IsKept : ℕ → Type 0
IsKept c = ((b'0' ≤ c) × (c ≤ b'9')) ⊎ ((b'A' ≤ c) × (c ≤ b'Z'))

keep_runes-IsKept : (s : Text) → All IsKept (keep_runes s)
unfolding keep_runes
keep_runes-IsKept [] = tt
keep_runes-IsKept (c ∷ s) = elim (Bool-cases (keeps_rune c)) [
  | inl e ↦ rw e (ground arith, keep_runes-IsKept s)
  | inr e ↦ rw e (keep_runes-IsKept s)
]

-- The second text is the first without the characters that are not kept.
abbrev pub IsCleaned : Text → Text → Type 0
IsCleaned [] doc = doc ≡ []
IsCleaned (c ∷ s) doc =
    (IsKept c × ((rest : Text) × (doc ≡ c ∷ rest) × IsCleaned s rest))
    ⊎ ((IsKept c → ⊥) × IsCleaned s doc)

keep_runes-IsCleaned : (s : Text) → IsCleaned s (keep_runes s)
unfolding keep_runes
keep_runes-IsCleaned [] = refl
keep_runes-IsCleaned (c ∷ s) = elim (Bool-cases (keeps_rune c)) [
  | inl e ↦ rw e (inl (ground arith, (keep_runes s, refl, keep_runes-IsCleaned s)))
  | inr e ↦ rw e (inr (λ k. absurd (ground arith), keep_runes-IsCleaned s))
]

keep_runes_kept : (s : Text) → All IsKept s → keep_runes s ≡ s
unfolding keep_runes
keep_runes_kept [] h = refl
keep_runes_kept (c ∷ s) h =
    let e : keeps_rune c ≡ true = ground arith in rw (e, keep_runes_kept s h.1)

to_upper_kept : (u : Unicode) (s : Text) → All IsKept s → to_upper u s ≡ s
unfolding to_upper rune_upper
to_upper_kept u [] h = refl
to_upper_kept u (c ∷ s) h =
    let e : rune_upper u c ≡ c = unfold rune_upper in ground arith in cc (e, to_upper_kept u s h.1)

keep_runes-append : (s t : Text) → keep_runes (s ++ t) ≡ keep_runes s ++ keep_runes t
unfolding keep_runes
keep_runes-append [] t = refl
keep_runes-append (c ∷ s) t = elim (Bool-cases (keeps_rune c)) [
  | inl e ↦ rw (e, keep_runes-append s t)
  | inr e ↦ rw (e, keep_runes-append s t)
]

length-eq-zero : (s : Text) → is_empty s ≡ true → s ≡ []
length-eq-zero [] h = refl
length-eq-zero (c ∷ s) h = cc

-- The document is one of a natural person or of a company, with right check digits.
abbrev pub IsValidDoc : Text → Type 0
IsValidDoc doc = ((length doc ≡ 11) × IsCpf doc) ⊎ ((length doc ≡ 14) × IsCnpj doc)

valid_doc_iff : (doc : Text) → (valid_doc doc ≡ true) ↔ IsValidDoc doc
unfolding valid_doc
valid_doc_iff doc = ground (arith, valid_cpf_iff doc, valid_cnpj_iff doc)

-- The document with its flag.
abbrev flagged : Text → Text × Option Bool
flagged doc = if is_empty doc then ([], none) else (doc, some (valid_doc doc))

abbrev IsFlagged : Text × Option Bool → Type 0
IsFlagged r = ((r.1 ≡ none) ↔ (r.0 ≡ [])) × ((r.1 ≡ some true) ↔ IsValidDoc r.0)

flagged-IsFlagged : (doc : Text) → IsFlagged (flagged doc)
flagged-IsFlagged [] = ((λ _. refl, λ _. refl), (λ e. cc, λ v. absurd (omega arith)))
flagged-IsFlagged (c ∷ s) = (
  (λ e. cc, λ e. cc),
  (λ e. (valid_doc_iff _).0 (some-injective _ _ e), λ v. ap some ((valid_doc_iff _).1 v)),
)

flagged_doc : (doc : Text) → (flagged doc).0 ≡ doc
flagged_doc [] = refl
flagged_doc (c ∷ s) = refl

-- What normalizeDoc leaves of a taxpayer number is its text in upper case with all its digits and
-- letters of ASCII, in their order, and nothing else; it has no flag exactly if nothing is left, and
-- the flag is true exactly for eleven characters that are a valid CPF or fourteen that are a valid
-- CNPJ.
pub normalize_doc_sound :
    (u : Unicode) (s : Text)
    → let (doc, flag) = normalize_doc u s in
      IsCleaned (to_upper u s) doc
      × ((flag ≡ none) ↔ (doc ≡ []))
      × ((flag ≡ some true) ↔ IsValidDoc doc)
unfolding normalize_doc
normalize_doc_sound u s =
    let doc = keep_runes (to_upper u s) in
    let (missing, valid) = flagged-IsFlagged doc in
    (rw (flagged_doc doc) (keep_runes-IsCleaned (to_upper u s)), missing, valid)

flagged_idem :
    (u : Unicode) (doc : Text) → All IsKept doc → normalize_doc u (flagged doc).0 ≡ flagged doc
unfolding normalize_doc
flagged_idem u [] h = unfold to_upper keep_runes in refl
flagged_idem u (c ∷ s) h = rw (to_upper_kept u (c ∷ s) h, keep_runes_kept (c ∷ s) h)

-- Cleaning a cleaned number gives it back with the same flag.
pub normalize_doc_idem :
    (u : Unicode) (s : Text) → normalize_doc u (normalize_doc u s).0 ≡ normalize_doc u s
unfolding normalize_doc
normalize_doc_idem u s = flagged_idem u _ (keep_runes-IsKept (to_upper u s))
