-- ===== src/Dates/Accepted.antt =====
-- What normalizeDate accepts: its results are dates of the calendar, and normalising them again
-- changes nothing.
use tax_deeds.Text.{is_digit, trim_space, Text, Unicode}
use tax_deeds.Dates.{
  year4, month2, day2, skip, iso, lit, format_date, digits2, in_calendar, date_layouts, accept,
  IsDate, parse_date, Layout, parse_from, Date, digits4, normalize_date, first_parse,
}
use tax_deeds.Base.{
  Option-cases, ℕ, ◌+◌, ◌-◌, ◌*◌, ◌≤◌, ◌<◌, ◌≡◌, refl, ap, ◌⊎◌, inl, inr, Bool, true, ◌&&◌, Option,
  none, some, List, [], ◌∷◌, arith, if◌then◌else◌, All,
}
use tax_deeds.Dates.Canonical.{normalize_date-format_date}

digit_value : (c : ℕ) → is_digit c ≡ true → c - b'0' ≤ 9
digit_value c h = ground arith

and-true : (a b : Bool) → (a && b) ≡ true → (a ≡ true) × (b ≡ true)
and-true a b h = ground arith

if-some {ℓ} :
    {A : Type ℓ} (b : Bool) (x y : A) → (if b then some x else none) ≡ some y → (b ≡ true) × (x ≡ y)
if-some b x y h = ground arith

four_digits :
    (a b c d : ℕ)
    → (is_digit a && is_digit b && is_digit c && is_digit d) ≡ true
    → (a - b'0') * 1000 + (b - b'0') * 100 + (c - b'0') * 10 + (d - b'0') < 10000
four_digits a b c d h =
    let (abc, hd) = and-true _ _ h in
    let (ab, hc) = and-true _ _ abc in
    let (ha, hb) = and-true _ _ ab in
    omega (arith, digit_value a ha, digit_value b hb, digit_value c hc, digit_value d hd)

digits4-lt : (s : Text) {n : ℕ} {r : Text} → digits4 s ≡ some (n, r) → n < 10000
unfolding digits4
digits4-lt [] h = cc
digits4-lt (a ∷ []) h = cc
digits4-lt (a ∷ b ∷ []) h = cc
digits4-lt (a ∷ b ∷ c ∷ []) h = cc
digits4-lt (a ∷ b ∷ c ∷ d ∷ s) h =
    let (t, e) = if-some _ _ _ h in
    let n = ap (λ (q : ℕ × Text). q.0) e in omega (arith, n, four_digits a b c d t)

parse_from_year :
    (ps : Layout) (s : Text) (e d : Date) (r : Text)
    → parse_from ps s e ≡ some (d, r)
    → e.year < 10000
    → d.year < 10000
unfolding parse_from
parse_from_year [] s e d r h k = ground arith
parse_from_year (year4 ∷ ps) s e d r h k = elim (Option-cases (digits4 s)) [
  | inl n ↦ absurd (ground arith)
  | inr ((n, t), p) ↦
      parse_from_year ps t (record e { year = n }) d r (rw (p, parse_from) at h) (digits4-lt s p)
]
parse_from_year (month2 ∷ ps) s e d r h k = elim (Option-cases (digits2 s)) [
  | inl n ↦ absurd (ground arith)
  | inr ((n, t), p) ↦ parse_from_year ps t (record e { month = n }) d r (rw (p, parse_from) at h) k
]
parse_from_year (day2 ∷ ps) s e d r h k = elim (Option-cases (digits2 s)) [
  | inl n ↦ absurd (ground arith)
  | inr ((n, t), p) ↦ parse_from_year ps t (record e { day = n }) d r (rw (p, parse_from) at h) k
]
parse_from_year (lit c ∷ ps) s e d r h k = elim (Option-cases (skip c s)) [
  | inl n ↦ absurd (ground arith)
  | inr (t, p) ↦ parse_from_year ps t e d r (rw (p, parse_from) at h) k
]

accept-some :
    (o : Option (Date × Text)) (d : Date)
    → accept o ≡ some d
    → (r : Text) × (o ≡ some (d, r)) × (in_calendar d ≡ true)
accept-some none d h = cc
accept-some (some (e, rest)) d h = (rest, ground arith, ground arith)

pub parse_date-IsDate : (l : Layout) (s : Text) (d : Date) → parse_date l s ≡ some d → IsDate d
unfolding parse_date
parse_date-IsDate l s d h =
    let (r, p, q) = accept-some _ d h in
    let y : d.year < 10000 = parse_from_year l s _ d r p (omega arith) in ground arith

-- A layout reads the text as a date of the calendar, after layouts of the list that do not read it.
abbrev pub IsRead : List Layout → Text → Date → Type 0
IsRead [] s d = ⊥
IsRead (l ∷ ls) s d =
    ((parse_date l s ≡ some d) × IsDate d) ⊎ ((parse_date l s ≡ none) × IsRead ls s d)

-- No layout of the list reads the text, or one does and the result is its date in ISO form.
abbrev pub IsOutcome : List Layout → Text → Text → Type 0
IsOutcome ls s t =
    ((t ≡ []) × All (λ l. parse_date l s ≡ none) ls)
    ⊎ ((d : Date) × IsRead ls s d × (t ≡ format_date iso d))

first_parse-IsOutcome : (ls : List Layout) (s : Text) → IsOutcome ls s (first_parse ls s)
unfolding first_parse
first_parse-IsOutcome [] s = inl (refl, tt)
first_parse-IsOutcome (l ∷ ls) s = elim (Option-cases (parse_date l s)) [
  | inl n ↦ elim (first_parse-IsOutcome ls s) [
    | inl (e, f) ↦ inl (rw (n, first_parse) e, (n, f))
    | inr (d, r, e) ↦ inr (d, inr (n, r), rw (n, first_parse) e)
  ]
  | inr (d, p) ↦ inr (d, inl (p, parse_date-IsDate l s d p), rw (p, first_parse))
]

pub IsRead-IsDate : (ls : List Layout) (s : Text) (d : Date) → IsRead ls s d → IsDate d
IsRead-IsDate [] s d h = absurd h
IsRead-IsDate (l ∷ ls) s d (inl (p, h)) = h
IsRead-IsDate (l ∷ ls) s d (inr (n, h)) = IsRead-IsDate ls s d h

Text-cases : (s : Text) → (s ≡ []) ⊎ ((c : ℕ) × (t : Text) × (s ≡ c ∷ t))
Text-cases [] = inl refl
Text-cases (c ∷ t) = inr (c, t, refl)

no_layout_empty : All (λ l. parse_date l [] ≡ none) date_layouts
unfolding parse_date parse_from digits4 digits2
no_layout_empty = (refl, (refl, (refl, (refl, tt))))

normalize_date_nil : (u : Unicode) → normalize_date u [] ≡ []
unfolding normalize_date trim_space
normalize_date_nil u = refl

-- What normalizeDate gives for the text without its blanks: the ISO form of the date of the calendar
-- that the first of the four layouts that reads the text finds in it, or the empty text if none of
-- them reads it.
pub normalize_date-IsOutcome :
    (u : Unicode) (s : Text) → IsOutcome date_layouts (trim_space u s) (normalize_date u s)
unfolding normalize_date
normalize_date-IsOutcome u s = elim (Text-cases (trim_space u s)) [
  | inl e ↦ rw e (inl (refl, no_layout_empty))
  | inr (c, t, e) ↦ rw e (first_parse-IsOutcome date_layouts (c ∷ t))
]

-- Normalising a date twice is normalising it once.
pub normalize_date_idem :
    (u : Unicode) (s : Text) → normalize_date u (normalize_date u s) ≡ normalize_date u s
normalize_date_idem u s = elim (normalize_date-IsOutcome u s) [
  | inl (e, _) ↦ rw (e, normalize_date_nil u)
  | inr (d, r, e) ↦ rw e ((normalize_date-format_date d (IsRead-IsDate date_layouts _ d r) u).0)
]
