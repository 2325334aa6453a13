-- ===== src/Queries/Keys.antt =====
-- Rows with an identifier, and what a selection keeps of a property of all rows.
use tax_deeds.Queries.{select, insert_row, order_by}
use tax_deeds.Base.{
  ==_lt, or_false, ==_gt, ==_refl, All-imp, any, All-append, ℕ, ◌≤◌, ◌<◌, ◌≡◌, refl, inl, inr, Bool,
  true, false, ◌&&◌, List, [], ◌∷◌, ◌++◌, map, arith, ◌==◌, Bool-cases, All,
}

-- The identifiers were taken from a supply, one after the other.
abbrev pub IsAscending {ℓ} : {A : Type ℓ} → (A → ℕ) → List A → Type ℓ
IsAscending id [] = Unit
IsAscending id (a ∷ rows) = All (λ b. id a < id b) rows × IsAscending id rows

module _ {ℓ} {A : Type ℓ} where
  pub All-imp2 {κ ι ο} :
      (P : A → Type κ) (Q : A → Type ι) (R : A → Type ο)
      → ((a : A) → P a → Q a → R a)
      → (rows : List A) → All P rows
      → All Q rows
      → All R rows
  All-imp2 P Q R step [] h k = tt
  All-imp2 P Q R step (a ∷ rows) (p, h) (q, k) = (step a p q, All-imp2 P Q R step rows h k)

  pub select-All {κ} :
      (P : A → Type κ) (test : A → Bool) (rows : List A)
      → All P rows
      → All (λ a. (test a ≡ true) × P a) (select test rows)
  unfolding select
  select-All P test [] h = tt
  select-All P test (a ∷ rows) (p, h) = elim (Bool-cases (test a)) [
    | inl e ↦ rw e ((e, p), select-All P test rows h)
    | inr e ↦ rw e (select-All P test rows h)
  ]

  pub select-All_kept {κ} :
      (P : A → Type κ) (test : A → Bool) (rows : List A) → All P rows → All P (select test rows)
  select-All_kept P test rows h =
      All-imp _ P (λ a k. k.1) (select test rows) (select-All P test rows h)

  insert_row-All {κ} :
      (P : A → Type κ) (before : A → A → Bool) (a : A) (rows : List A)
      → P a
      → All P rows
      → All P (insert_row before a rows)
  unfolding insert_row
  insert_row-All P before a [] p h = (p, tt)
  insert_row-All P before a (b ∷ rows) p (q, h) = elim (Bool-cases (before a b)) [
    | inl e ↦ rw e (p, (q, h))
    | inr e ↦ rw e (q, insert_row-All P before a rows p h)
  ]

  pub order_by-All {κ} :
      (P : A → Type κ) (before : A → A → Bool) (rows : List A)
      → All P rows
      → All P (order_by before rows)
  unfolding order_by
  order_by-All P before [] h = tt
  order_by-All P before (a ∷ rows) (p, h) =
      insert_row-All P before a (order_by before rows) p (order_by-All P before rows h)

  pub map-pointwise {κ} :
      {B : Type κ} (f g : A → B) (rows : List A)
      → All (λ a. f a ≡ g a) rows
      → map f rows ≡ map g rows
  map-pointwise f g [] h = refl
  map-pointwise f g (a ∷ rows) (e, h) = λ i. e i ∷ map-pointwise f g rows h i

  pub All-each {κ} : (P : A → Type κ) (rows : List A) → ((a : A) → P a) → All P rows
  All-each P [] h = tt
  All-each P (a ∷ rows) h = (h a, All-each P rows h)

  pub select-IsAscending :
      (id : A → ℕ) (test : A → Bool) (rows : List A)
      → IsAscending id rows
      → IsAscending id (select test rows)
  unfolding select
  select-IsAscending id test [] h = tt
  select-IsAscending id test (a ∷ rows) (p, h) = elim (Bool-cases (test a)) [
    | inl e ↦ rw e (select-All_kept _ test rows p, select-IsAscending id test rows h)
    | inr e ↦ rw e (select-IsAscending id test rows h)
  ]

  pub append-IsAscending :
      (id : A → ℕ) (k : ℕ) (xs ys : List A)
      → IsAscending id xs
      → All (λ a. id a < k) xs
      → IsAscending id ys
      → All (λ a. k ≤ id a) ys
      → IsAscending id (xs ++ ys)
  append-IsAscending id k [] ys up low up' high = up'
  append-IsAscending id k (x ∷ xs) ys (p, up) (q, low) up' high = (
    All-append _ xs ys p (All-imp _ _ (λ b h. omega arith) ys high),
    append-IsAscending id k xs ys up low up' high,
  )

  any_above :
      (id : A → ℕ) (q : A → Bool) (k : ℕ) (rows : List A)
      → All (λ b. k < id b) rows
      → any (λ b. id b == k && q b) rows ≡ false
  any_above id q k [] h = refl
  any_above id q k (b ∷ rows) (p, h) = rw (==_gt (id b) k p) (any_above id q k rows h)

  -- An identifier names one row.
  pub any_same_id :
      (id : A → ℕ) (q : A → Bool) (rows : List A)
      → IsAscending id rows
      → All (λ a. any (λ b. id b == id a && q b) rows ≡ q a) rows
  any_same_id id q [] h = tt
  any_same_id id q (a ∷ rows) (p, h) = (
    rw (==_refl (id a), any_above id q (id a) rows p) (or_false (q a)),
    All-imp2 _ _ (λ b. any (λ c. id c == id b && q c) (a ∷ rows) ≡ q b)
        (λ b lt e. rw (==_lt (id a) (id b) lt) e) rows p (any_same_id id q rows h),
  )
