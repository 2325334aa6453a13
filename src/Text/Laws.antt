-- ===== src/Text/Laws.antt =====
-- Equality of texts, and how trimming and changing the case of letters commute.
use mathlib.Core.List.{reverse, reverse-cons, reverse-reverse, reverse-append, map-append}
use tax_deeds.Base.{
  ◌<◌, All, ℕ, ◌≤◌, ◌≡◌, refl, ap, ◌↔◌, inl, inr, true, false, [], ◌∷◌, ◌++◌, map, arith, ==_iff,
  Bool-cases,
}
use tax_deeds.Text.{
  Text, same, Unicode, is_space, rune_upper, rune_lower, to_upper, to_lower, trim_left, trim_space,
}

pub same_iff : (s t : Text) → (same s t ≡ true) ↔ (s ≡ t)
unfolding same
same_iff [] [] = ground arith
same_iff [] (d ∷ t) = ground arith
same_iff (c ∷ s) [] = ground arith
same_iff (c ∷ s) (d ∷ t) = ground (arith, same_iff s t, ==_iff c d)

pub same_refl : (s : Text) → same s s ≡ true
same_refl s = (same_iff s s).1 refl

-- What the letter tables beyond ASCII are relied on for: changing case twice is changing it once,
-- and neither makes nor removes a blank.
pub record IsUnicode (u : Unicode) : Type 0 where
  pub upper_upper : (c : ℕ) → 128 ≤ c → rune_upper u (u.upper c) ≡ u.upper c
  pub lower_lower : (c : ℕ) → 128 ≤ c → rune_lower u (u.lower c) ≡ u.lower c
  pub space_upper : (c : ℕ) → 128 ≤ c → is_space u (u.upper c) ≡ u.space c
  pub space_lower : (c : ℕ) → 128 ≤ c → is_space u (u.lower c) ≡ u.space c

module _ (u : Unicode) (h : IsUnicode u) where
  rune_lower_idem : (c : ℕ) → rune_lower u (rune_lower u c) ≡ rune_lower u c
  unfolding rune_lower
  rune_lower_idem c = ground (arith, h.lower_lower c)

  rune_upper_idem : (c : ℕ) → rune_upper u (rune_upper u c) ≡ rune_upper u c
  unfolding rune_upper
  rune_upper_idem c = ground (arith, h.upper_upper c)

  is_space-rune_lower : (c : ℕ) → is_space u (rune_lower u c) ≡ is_space u c
  unfolding rune_lower is_space
  is_space-rune_lower c = ground (arith, h.space_lower c)

  is_space-rune_upper : (c : ℕ) → is_space u (rune_upper u c) ≡ is_space u c
  unfolding rune_upper is_space
  is_space-rune_upper c = ground (arith, h.space_upper c)

module _ (u : Unicode) where
  trim_left_idem : (s : Text) → trim_left u (trim_left u s) ≡ trim_left u s
  unfolding trim_left
  trim_left_idem [] = refl
  trim_left_idem (c ∷ s) = ground (arith, trim_left_idem s)

  trim_left-cons : (c : ℕ) (s : Text) → is_space u c ≡ false → trim_left u (c ∷ s) ≡ c ∷ s
  unfolding trim_left
  trim_left-cons c s k = rw k

  -- A letter that is no blank stops the trimming.
  trim_left-snoc :
      (c : ℕ) (s : Text)
      → is_space u c ≡ false
      → trim_left u (s ++ c ∷ []) ≡ trim_left u s ++ c ∷ []
  unfolding trim_left
  trim_left-snoc c [] k = rw k
  trim_left-snoc c (d ∷ s) k = elim (Bool-cases (is_space u d)) [
    | inl e ↦ rw e (trim_left-snoc c s k)
    | inr e ↦ rw e
  ]

  -- A text that is trimmed on the left has no blank in front.
  data IsTrimmedLeft : Text → Type 0 where
    nil : IsTrimmedLeft []
    cons : (c : ℕ) (s : Text) → is_space u c ≡ false → IsTrimmedLeft (c ∷ s)

  trim_left-IsTrimmedLeft : (s : Text) → IsTrimmedLeft (trim_left u s)
  unfolding trim_left
  trim_left-IsTrimmedLeft [] = nil
  trim_left-IsTrimmedLeft (c ∷ s) = elim (Bool-cases (is_space u c)) [
    | inl e ↦ rw e (trim_left-IsTrimmedLeft s)
    | inr e ↦ rw e (cons c s e)
  ]

  abbrev trim_right : Text → Text
  trim_right s = reverse (trim_left u (reverse s))

  trim_right-cons :
      (c : ℕ) (s : Text) → is_space u c ≡ false → trim_right (c ∷ s) ≡ c ∷ trim_right s
  trim_right-cons c s k = rw (reverse-cons, trim_left-snoc c (reverse s) k, reverse-append) refl

  trim_right_idem : (s : Text) → trim_right (trim_right s) ≡ trim_right s
  trim_right_idem s = simp (reverse-reverse, trim_left_idem)

  trim_space_trimmed : (t : Text) → IsTrimmedLeft t → trim_left u (trim_right t) ≡ trim_right t
  unfolding trim_left
  trim_space_trimmed [] nil = refl
  trim_space_trimmed (c ∷ s) (cons _ _ k) =
      rw (trim_right-cons c s k) (trim_left-cons c (trim_right s) k)

  pub trim_space_idem : (s : Text) → trim_space u (trim_space u s) ≡ trim_space u s
  unfolding trim_space
  trim_space_idem s =
      rw (trim_space_trimmed (trim_left u s) (trim_left-IsTrimmedLeft s))
        (trim_right_idem (trim_left u s))

  -- Trimming commutes with a map that neither makes nor removes a blank.
  module _ (f : ℕ → ℕ) (keep : (c : ℕ) → is_space u (f c) ≡ is_space u c) where
    trim_left-map : (s : Text) → trim_left u (map f s) ≡ map f (trim_left u s)
    unfolding trim_left
    trim_left-map [] = refl
    trim_left-map (c ∷ s) = ground (arith, keep c, trim_left-map s)

    map-reverse_lem : (s : Text) → reverse (map f s) ≡ map f (reverse s)
    map-reverse_lem [] = refl
    map-reverse_lem (c ∷ s) =
        rw (reverse-cons, reverse-cons, map-append) (ap (λ t. t ++ f c ∷ []) (map-reverse_lem s))

    trim_space-map : (s : Text) → trim_space u (map f s) ≡ map f (trim_space u s)
    unfolding trim_space
    trim_space-map s = rw (trim_left-map s, map-reverse_lem, trim_left-map, map-reverse_lem) refl

module _ (u : Unicode) (h : IsUnicode u) where
  map_idem : (f : ℕ → ℕ) → ((c : ℕ) → f (f c) ≡ f c) → (s : Text) → map f (map f s) ≡ map f s
  map_idem f k [] = refl
  map_idem f k (c ∷ s) = cc (k c, map_idem f k s)

  -- Trimming and lowering a second time changes nothing.
  pub lower-trim_idem :
      (s : Text)
      → to_lower u (trim_space u (to_lower u (trim_space u s))) ≡ to_lower u (trim_space u s)
  unfolding to_lower
  lower-trim_idem s =
      rw
        (
          trim_space-map u (rune_lower u) (is_space-rune_lower u h) (trim_space u s),
          trim_space_idem u s,
        )
        (map_idem (rune_lower u) (rune_lower_idem u h) (trim_space u s))

  pub upper-trim_idem :
      (s : Text)
      → to_upper u (trim_space u (to_upper u (trim_space u s))) ≡ to_upper u (trim_space u s)
  unfolding to_upper
  upper-trim_idem s =
      rw
        (
          trim_space-map u (rune_upper u) (is_space-rune_upper u h) (trim_space u s),
          trim_space_idem u s,
        )
        (map_idem (rune_upper u) (rune_upper_idem u h) (trim_space u s))

-- A text without blanks is trimmed.
abbrev pub IsInked : Unicode → Text → Type 0
IsInked u s = All (λ c. is_space u c ≡ false) s

trim_left-IsInked : (u : Unicode) (s : Text) → IsInked u s → trim_left u s ≡ s
trim_left-IsInked u [] h = unfold trim_left in refl
trim_left-IsInked u (c ∷ s) h = trim_left-cons u c s h.0

IsInked-snoc :
    (u : Unicode) (s : Text) (c : ℕ) → IsInked u s → is_space u c ≡ false → IsInked u (s ++ c ∷ [])
IsInked-snoc u [] c h k = (k, tt)
IsInked-snoc u (d ∷ s) c h k = (h.0, IsInked-snoc u s c h.1 k)

IsInked-reverse : (u : Unicode) (s : Text) → IsInked u s → IsInked u (reverse s)
IsInked-reverse u [] h = tt
IsInked-reverse u (c ∷ s) h =
    rw reverse-cons (IsInked-snoc u (reverse s) c (IsInked-reverse u s h.1) h.0)

pub trim_space-IsInked : (u : Unicode) (s : Text) → IsInked u s → trim_space u s ≡ s
unfolding trim_space
trim_space-IsInked u s h =
    rw (trim_left-IsInked u s h, trim_left-IsInked u (reverse s) (IsInked-reverse u s h))
      (reverse-reverse s)

pub is_space_ascii : (u : Unicode) (c : ℕ) → 32 < c → c < 128 → is_space u c ≡ false
unfolding is_space
is_space_ascii u c lo hi = ground arith
