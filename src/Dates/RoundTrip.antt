-- ===== src/Dates/RoundTrip.antt =====
-- Parsing a formatted date gives the date back, in every layout.
use tax_deeds.Base.{◌≢◌, ℕ, ◌≤◌, ◌<◌, ◌≡◌, refl, true, false, none, some, [], ◌∷◌, arith}
use tax_deeds.Text.{Text}
use tax_deeds.Dates.{
  is_digit, in_calendar, Date, year4, month2, day2, lit, Layout, iso, day_first, digits2, digits4,
  skip, parse_from, days_in, parse_date, pad2, pad4, format_before, format_date, IsDate,
}

digits2-pad2 : (n : ℕ) (s : Text) → n < 100 → digits2 (pad2 n s) ≡ some (n, s)
unfolding digits2
digits2-pad2 n s h = ground arith

digits4-pad4 : (n : ℕ) (s : Text) → n < 10000 → digits4 (pad4 n s) ≡ some (n, s)
unfolding digits4
digits4-pad4 n s h = ground arith

days_in-le : (m y : ℕ) → days_in m y ≤ 31
unfolding days_in
days_in-le m y = ground arith

skip_self : (c : ℕ) (s : Text) → skip c (c ∷ s) ≡ some s
unfolding skip
skip_self c s = ground arith

-- The fields that a layout names, taken from `d`.
abbrev fill : Layout → Date → Date → Date
fill [] d e = e
fill (year4 ∷ ps) d e = fill ps d (record e { year = d.year })
fill (month2 ∷ ps) d e = fill ps d (record e { month = d.month })
fill (day2 ∷ ps) d e = fill ps d (record e { day = d.day })
fill (lit c ∷ ps) d e = fill ps d e

parse_from-format_before :
    (ps : Layout) (d e : Date) (rest : Text)
    → IsDate d
    → parse_from ps (format_before ps d rest) e ≡ some (fill ps d e, rest)
unfolding parse_from format_before
parse_from-format_before [] d e rest h = refl
parse_from-format_before (year4 ∷ ps) d e rest h =
    rw (digits4-pad4 d.year (format_before ps d rest) h.year_short, parse_from)
      (parse_from-format_before ps d (record e { year = d.year }) rest h)
parse_from-format_before (month2 ∷ ps) d e rest h =
    rw (digits2-pad2 d.month (format_before ps d rest) (omega arith), parse_from)
      (parse_from-format_before ps d (record e { month = d.month }) rest h)
parse_from-format_before (day2 ∷ ps) d e rest h =
    rw
      (
        digits2-pad2 d.day (format_before ps d rest) (omega (arith, days_in-le d.month d.year)),
        parse_from,
      )
      (parse_from-format_before ps d (record e { day = d.day }) rest h)
parse_from-format_before (lit c ∷ ps) d e rest h =
    rw (skip_self c (format_before ps d rest), parse_from) (parse_from-format_before ps d e rest h)

in_calendar-IsDate : (d : Date) → IsDate d → in_calendar d ≡ true
in_calendar-IsDate d h = ground arith

-- A layout names every field.
abbrev pub IsComplete : Layout → Type 0
IsComplete ps = (d e : Date) → fill ps d e ≡ d

pub parse_date-format_date :
    (l : Layout) (d : Date) → IsComplete l → IsDate d → parse_date l (format_date l d) ≡ some d
unfolding parse_date format_date
parse_date-format_date l d full h = rw (
  parse_from-format_before l d (record { year = 0; month = 0; day = 0 }) [] h,
  full d (record { year = 0; month = 0; day = 0 }),
  in_calendar-IsDate d h,
)

-- What the layout with the year in front does not read: a text whose third character is no digit.
pub iso_refuses :
    (a b c : ℕ) (s : Text) → is_digit c ≡ false → parse_date iso (a ∷ b ∷ c ∷ s) ≡ none
unfolding parse_date parse_from digits4
iso_refuses a b c [] k = refl
iso_refuses a b c (e ∷ s) k = ground arith

-- What a layout with the day in front does not read: another separator.
pub day_first_refuses :
    (sep a b c : ℕ) (s : Text) → sep ≢ c → parse_date (day_first sep) (a ∷ b ∷ c ∷ s) ≡ none
unfolding parse_date parse_from digits2 skip
day_first_refuses sep a b c s k = ground arith
