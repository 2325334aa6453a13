-- ===== src/Dates/Tests.antt =====
-- Runs of normalizeDate on dates as they are printed, and the theorems at those dates.
use tax_deeds.Dates.Canonical.{normalize_date-format_date}
use tax_deeds.Text.{is_space, codes, trim_left, trim_space}
use tax_deeds.Samples.{ascii}
use tax_deeds.Dates.{
  skip, days_in, digits4, digits2, parse_from, parse_date, first_parse, iso, format_date,
  date_layouts, IsDate, Date, normalize_date,
}
use tax_deeds.Dates.Accepted.{normalize_date-IsOutcome, IsOutcome}
use tax_deeds.Base.{◌≡◌, refl, [], arith, All}

abbrev day : Date
day = record { year = 1999; month = 2; day = 3 }

day-IsDate : IsDate day
unfolding days_in
day-IsDate = ground arith

printed : normalize_date ascii (codes " 03.02.1999 ") ≡ codes "1999-02-03"
unfolding normalize_date trim_space trim_left is_space first_parse parse_date parse_from digits2
    digits4 skip days_in format_date
printed = refl

no_leap_day : normalize_date ascii (codes "29/02/1900") ≡ []
unfolding normalize_date trim_space trim_left is_space first_parse parse_date parse_from digits2
    digits4 skip days_in
no_leap_day = refl

normalize_date-format_date_example :
    All (λ l. normalize_date ascii (format_date l day) ≡ format_date iso day) date_layouts
normalize_date-format_date_example = normalize_date-format_date day day-IsDate ascii

normalize_date-IsOutcome_example :
    IsOutcome date_layouts
      (trim_space ascii (codes "03.02.1999"))
      (normalize_date ascii (codes "03.02.1999"))
normalize_date-IsOutcome_example = normalize_date-IsOutcome ascii (codes "03.02.1999")
