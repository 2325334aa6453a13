-- ===== src/Dates.antt =====
-- normalizeDate of internal/services/extraction/normalize.go, with what it uses of package `time`:
-- Parse and Format on layouts made of a four-digit year, two-digit months and days, and separators.
pub mod RoundTrip
pub mod Tests
pub mod Canonical
pub mod Accepted
use tax_deeds.Base.{
  ℕ, ◌+◌, ◌-◌, ◌*◌, ◌/◌, ◌%◌, ◌≤◌, ◌<◌, Bool, ◌&&◌, ◌||◌, not, Option, none, some, List, [], ◌∷◌,
  leb, ◌==◌, if◌then◌else◌,
}
use tax_deeds.Text.{Text, Unicode, is_digit, is_empty, trim_space}

pub record Date : Type 0 where
  pub year : ℕ
  pub month : ℕ
  pub day : ℕ

-- The elements of the layouts: "2006", "01", "02" and a separator.
pub data Piece : Type 0 where
  year4 month2 day2 : Piece
  lit : ℕ → Piece

abbrev pub Layout : Type 0
Layout = List Piece

abbrev pub iso : Layout
iso = year4 ∷ lit b'-' ∷ month2 ∷ lit b'-' ∷ day2 ∷ []

abbrev pub day_first : ℕ → Layout
day_first c = day2 ∷ lit c ∷ month2 ∷ lit c ∷ year4 ∷ []

-- `dateLayouts`
abbrev pub date_layouts : List Layout
date_layouts = iso ∷ day_first b'/' ∷ day_first b'-' ∷ day_first b'.' ∷ []

abbrev value : ℕ → ℕ
value c = c - b'0'

-- Two digits, and the text behind them.
unfoldable pub digits2 : Text → Option (ℕ × Text)
digits2 (a ∷ b ∷ s) = if is_digit a && is_digit b then some (value a * 10 + value b, s) else none
digits2 _ = none

unfoldable pub digits4 : Text → Option (ℕ × Text)
digits4 (a ∷ b ∷ c ∷ d ∷ s) =
    if is_digit a && is_digit b && is_digit c && is_digit d
    then some (value a * 1000 + value b * 100 + value c * 10 + value d, s)
    else none
digits4 _ = none

unfoldable pub skip : ℕ → Text → Option Text
skip c [] = none
skip c (d ∷ s) = if c == d then some s else none

unfoldable pub parse_from : Layout → Text → Date → Option (Date × Text)
parse_from [] s d = some (d, s)
parse_from (year4 ∷ ps) s d = elim (digits4 s) [
  | none ↦ none
  | some (n, r) ↦ parse_from ps r (record d { year = n })
]
parse_from (month2 ∷ ps) s d = elim (digits2 s) [
  | none ↦ none
  | some (n, r) ↦ parse_from ps r (record d { month = n })
]
parse_from (day2 ∷ ps) s d = elim (digits2 s) [
  | none ↦ none
  | some (n, r) ↦ parse_from ps r (record d { day = n })
]
parse_from (lit c ∷ ps) s d = elim (skip c s) [ none ↦ none | some r ↦ parse_from ps r d ]

abbrev pub is_leap : ℕ → Bool
is_leap y = y % 4 == 0 && (not (y % 100 == 0) || y % 400 == 0)

unfoldable pub days_in : ℕ → ℕ → ℕ
days_in m y =
    if m == 2
    then (if is_leap y then 29 else 28)
    else if m == 4 || m == 6 || m == 9 || m == 11
    then 30
    else 31

abbrev pub in_calendar : Date → Bool
in_calendar d = leb 1 d.month && leb d.month 12 && leb 1 d.day && leb d.day (days_in d.month d.year)

abbrev accept : Option (Date × Text) → Option Date
accept none = none
accept (some (d, rest)) = if is_empty rest && in_calendar d then some d else none

-- `time.Parse(layout, s)`; `none` is any error.
unfoldable pub parse_date : Layout → Text → Option Date
parse_date layout s = accept (parse_from layout s (record { year = 0; month = 0; day = 0 }))

abbrev digit : ℕ → ℕ
digit n = b'0' + n

abbrev pub pad2 : ℕ → Text → Text
pad2 n rest = digit (n / 10 % 10) ∷ digit (n % 10) ∷ rest

abbrev pub pad4 : ℕ → Text → Text
pad4 n rest =
    digit (n / 1000 % 10) ∷ digit (n / 100 % 10) ∷ digit (n / 10 % 10) ∷ digit (n % 10) ∷ rest

-- `t.Format(layout)` for the years 0 to 9999, before a text.
unfoldable pub format_before : Layout → Date → Text → Text
format_before [] d rest = rest
format_before (year4 ∷ ps) d rest = pad4 d.year (format_before ps d rest)
format_before (month2 ∷ ps) d rest = pad2 d.month (format_before ps d rest)
format_before (day2 ∷ ps) d rest = pad2 d.day (format_before ps d rest)
format_before (lit c ∷ ps) d rest = c ∷ format_before ps d rest

unfoldable pub format_date : Layout → Date → Text
unfolding format_before
format_date layout d = format_before layout d []

-- The loop over the layouts: the first that parses wins.
unfoldable pub first_parse : List Layout → Text → Text
first_parse [] s = []
first_parse (l ∷ ls) s = elim (parse_date l s) [
  | none ↦ first_parse ls s
  | some d ↦ format_date iso d
]

unfoldable pub normalize_date : Unicode → Text → Text
unfolding first_parse
normalize_date u s = let t = trim_space u s in if is_empty t then [] else first_parse date_layouts t

-- A date of the calendar that four digits can name the year of.
pub record IsDate (d : Date) : Type 0 where
  pub year_short : d.year < 10000
  pub month_pos : 1 ≤ d.month
  pub month_le : d.month ≤ 12
  pub day_pos : 1 ≤ d.day
  pub day_le : d.day ≤ days_in d.month d.year
