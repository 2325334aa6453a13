-- ===== src/Dates/Canonical.antt =====
-- normalizeDate: what it accepts, and that its results are canonical.
use tax_deeds.Dates.RoundTrip.{iso_refuses, day_first_refuses, parse_date-format_date}
use tax_deeds.Text.Laws.{is_space_ascii, trim_space-IsInked, IsInked}
use tax_deeds.Base.{List, ◌∙◌, All, none, ◌≢◌, ◌<◌, ◌∷◌, refl, false, some, ◌%◌, arith, [], ◌≡◌, ℕ}
use tax_deeds.Text.{Text, is_digit, is_space, trim_space, Unicode}
use tax_deeds.Dates.{
  date_layouts, year4, month2, day2, lit, first_parse, day_first, iso, parse_date, digit, IsDate,
  Layout, Date, normalize_date, format_before, format_date,
}

-- The separators of a layout are printed characters.
abbrev HasInk : Layout → Type 0
HasInk [] = Unit
HasInk (lit c ∷ ps) = (32 < c) × (c < 128) × HasInk ps
HasInk (_ ∷ ps) = HasInk ps

IsInked-digit : (u : Unicode) (n : ℕ) → is_space u (digit (n % 10)) ≡ false
IsInked-digit u n = is_space_ascii u (digit (n % 10)) (omega arith) (omega arith)

IsInked-format_before :
    (u : Unicode) (ps : Layout) (d : Date) → HasInk ps → IsInked u (format_before ps d [])
unfolding format_before
IsInked-format_before u [] d h = tt
IsInked-format_before u (year4 ∷ ps) d h = (
  IsInked-digit u _,
  (IsInked-digit u _, (IsInked-digit u _, (IsInked-digit u _, IsInked-format_before u ps d h))),
)
IsInked-format_before u (month2 ∷ ps) d h =
    (IsInked-digit u _, (IsInked-digit u _, IsInked-format_before u ps d h))
IsInked-format_before u (day2 ∷ ps) d h =
    (IsInked-digit u _, (IsInked-digit u _, IsInked-format_before u ps d h))
IsInked-format_before u (lit c ∷ ps) d h =
    (is_space_ascii u c h.0 h.1, IsInked-format_before u ps d h.2)

trim_space-format_date :
    (u : Unicode) (l : Layout) (d : Date)
    → HasInk l
    → trim_space u (format_date l d) ≡ format_date l d
unfolding format_date
trim_space-format_date u l d h = trim_space-IsInked u _ (IsInked-format_before u l d h)

parse_date-iso : (d : Date) → IsDate d → parse_date iso (format_date iso d) ≡ some d
parse_date-iso d h = parse_date-format_date iso d (λ a e. refl) h

parse_date-day_first :
    (c : ℕ) (d : Date) → IsDate d → parse_date (day_first c) (format_date (day_first c) d) ≡ some d
parse_date-day_first c d h = parse_date-format_date (day_first c) d (λ a e. refl) h

normalize_date-iso :
    (u : Unicode) (d : Date) → IsDate d → normalize_date u (format_date iso d) ≡ format_date iso d
unfolding normalize_date
normalize_date-iso u d h =
    rw (trim_space-format_date u iso d (omega arith), parse_date-iso d h, first_parse)
      (unfold format_date in refl)

first_parse-cons_none :
    (l : Layout) (ls : List Layout) (s : Text)
    → parse_date l s ≡ none
    → first_parse (l ∷ ls) s ≡ first_parse ls s
unfolding first_parse
first_parse-cons_none l ls s h = rw (h, first_parse)

first_parse-cons_some :
    (l : Layout) (ls : List Layout) (s : Text) (d : Date)
    → parse_date l s ≡ some d
    → first_parse (l ∷ ls) s ≡ format_date iso d
unfolding first_parse
first_parse-cons_some l ls s d h = rw (h, first_parse)

-- The other layouts refuse a text with the day in front and another separator.
iso_refuses_day_first :
    (c : ℕ) (d : Date) → is_digit c ≡ false → parse_date iso (format_date (day_first c) d) ≡ none
unfolding format_date
iso_refuses_day_first c d k = iso_refuses _ _ c _ k

day_first_refuses_other :
    (sep c : ℕ) (d : Date)
    → sep ≢ c
    → parse_date (day_first sep) (format_date (day_first c) d) ≡ none
unfolding format_date
day_first_refuses_other sep c d k = day_first_refuses sep _ _ c _ k

module _ (d : Date) (h : IsDate d) where
  first_parse_slash : first_parse date_layouts (format_date (day_first b'/') d) ≡ format_date iso d
  first_parse_slash =
      first_parse-cons_none iso _ _ (iso_refuses_day_first b'/' d refl)
      ∙ first_parse-cons_some (day_first b'/') _ _ d (parse_date-day_first b'/' d h)

  first_parse_dash : first_parse date_layouts (format_date (day_first b'-') d) ≡ format_date iso d
  first_parse_dash =
      first_parse-cons_none iso _ _ (iso_refuses_day_first b'-' d refl)
      ∙ first_parse-cons_none (day_first b'/') _ _
          (day_first_refuses_other b'/' b'-' d (omega arith))
      ∙ first_parse-cons_some (day_first b'-') _ _ d (parse_date-day_first b'-' d h)

  first_parse_dot : first_parse date_layouts (format_date (day_first b'.') d) ≡ format_date iso d
  first_parse_dot =
      first_parse-cons_none iso _ _ (iso_refuses_day_first b'.' d refl)
      ∙ first_parse-cons_none (day_first b'/') _ _
          (day_first_refuses_other b'/' b'.' d (omega arith))
      ∙ first_parse-cons_none (day_first b'-') _ _
          (day_first_refuses_other b'-' b'.' d (omega arith))
      ∙ first_parse-cons_some (day_first b'.') _ _ d (parse_date-day_first b'.' d h)

  normalize_date-day_first :
      (u : Unicode) (c : ℕ)
      → (32 < c) × (c < 128)
      → first_parse date_layouts (format_date (day_first c) d) ≡ format_date iso d
      → normalize_date u (format_date (day_first c) d) ≡ format_date iso d
  unfolding normalize_date
  normalize_date-day_first u c ink e =
      rw (trim_space-format_date u (day_first c) d (ink.0, ink.1, (ink.0, ink.1, tt)))
        (unfold format_date in e)

  -- Whichever of the layouts a date of the calendar is written in, it is normalised to ISO.
  pub normalize_date-format_date :
      (u : Unicode) → All (λ l. normalize_date u (format_date l d) ≡ format_date iso d) date_layouts
  normalize_date-format_date u = (
    normalize_date-iso u d h,
    (
      normalize_date-day_first u b'/' (omega arith) first_parse_slash,
      (
        normalize_date-day_first u b'-' (omega arith) first_parse_dash,
        (normalize_date-day_first u b'.' (omega arith) first_parse_dot, tt),
      ),
    ),
  )
