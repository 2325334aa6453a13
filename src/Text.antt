-- ===== src/Text.antt =====
-- Go strings as sequences of code points, and the functions of the packages `strings` and
-- `unicode` that the program calls on them.
pub mod Laws
use Prim.Native.Char.{code}
use mathlib.Core.List.{reverse}
use tax_deeds.Base.{
  ℕ, ◌+◌, ◌-◌, Bool, true, false, ◌&&◌, ◌||◌, String, List, [], ◌∷◌, map, ltb, leb, ◌==◌,
  if◌then◌else◌,
}

abbrev pub Text : Type 0
Text = List ℕ

-- A literal of the source.
abbrev pub codes : String → Text
codes String.[] = []
codes (String.◌∷◌ c s) = code c ∷ codes s

-- `s == t`
unfoldable pub same : Text → Text → Bool
same [] [] = true
same [] (d ∷ t) = false
same (c ∷ s) [] = false
same (c ∷ s) (d ∷ t) = c == d && same s t

-- `s == ""`
abbrev pub is_empty : Text → Bool
is_empty [] = true
is_empty (c ∷ s) = false

abbrev pub is_digit : ℕ → Bool
is_digit c = leb b'0' c && leb c b'9'

abbrev pub is_upper : ℕ → Bool
is_upper c = leb b'A' c && leb c b'Z'

abbrev pub is_lower : ℕ → Bool
is_lower c = leb b'a' c && leb c b'z'

-- The tables of package `unicode` beyond ASCII.
pub record Unicode : Type 0 where
  pub upper : ℕ → ℕ
  pub lower : ℕ → ℕ
  pub space : ℕ → Bool

-- `unicode.IsSpace`: tab, line feed, vertical tab, form feed, carriage return and blank in ASCII.
unfoldable pub is_space : Unicode → ℕ → Bool
is_space u c = if ltb c 128 then c == 32 || (leb 9 c && leb c 13) else u.space c

-- `unicode.ToUpper`
unfoldable pub rune_upper : Unicode → ℕ → ℕ
rune_upper u c = if ltb c 128 then (if is_lower c then c - 32 else c) else u.upper c

-- `unicode.ToLower`
unfoldable pub rune_lower : Unicode → ℕ → ℕ
rune_lower u c = if ltb c 128 then (if is_upper c then c + 32 else c) else u.lower c

unfoldable pub to_upper : Unicode → Text → Text
to_upper u s = map (rune_upper u) s

unfoldable pub to_lower : Unicode → Text → Text
to_lower u s = map (rune_lower u) s

unfoldable pub trim_left : Unicode → Text → Text
trim_left u [] = []
trim_left u (c ∷ s) = if is_space u c then trim_left u s else c ∷ s

-- `strings.TrimSpace`
unfoldable pub trim_space : Unicode → Text → Text
unfolding trim_left
trim_space u s = reverse (trim_left u (reverse (trim_left u s)))
