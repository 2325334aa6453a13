-- ===== src/Queries/Laws.antt =====
-- Selecting and ordering rows.
use tax_deeds.Queries.{order_by, select, insert_row}
use mathlib.Core.List.{append-nil}
use tax_deeds.Base.{
  ◌≡◌, refl, ap, ◌∙◌, inl, inr, Bool, true, false, List, [], ◌∷◌, ◌++◌, map, Bool-cases, All,
}

module _ {ℓ} {A : Type ℓ} where
  pub select-append :
      (test : A → Bool) (as' bs : List A)
      → select test (as' ++ bs) ≡ select test as' ++ select test bs
  unfolding select
  select-append test [] bs = refl
  select-append test (a ∷ as') bs = elim (Bool-cases (test a)) [
    | inl e ↦ rw e (ap (λ l. a ∷ l) (select-append test as' bs))
    | inr e ↦ rw e (select-append test as' bs)
  ]

  pub select_every :
      (test : A → Bool) (as' : List A) → All (λ a. test a ≡ true) as' → select test as' ≡ as'
  unfolding select
  select_every test [] h = refl
  select_every test (a ∷ as') (p, h) = rw p (ap (λ l. a ∷ l) (select_every test as' h))

  pub select-nil :
      (test : A → Bool) (as' : List A) → All (λ a. test a ≡ false) as' → select test as' ≡ []
  unfolding select
  select-nil test [] h = refl
  select-nil test (a ∷ as') (p, h) = rw p (select-nil test as' h)

  -- The rows that a test takes, from between others.
  pub select-middle :
      (test : A → Bool) (before mid after : List A)
      → All (λ a. test a ≡ false) before
      → All (λ a. test a ≡ true) mid
      → All (λ a. test a ≡ false) after
      → select test (before ++ mid ++ after) ≡ mid
  select-middle test before mid after out in' out' =
      rw
        (
          select-append test (before ++ mid) after,
          select-append test before mid,
          select-nil test before out,
          select_every test mid in',
          select-nil test after out',
        )
        (append-nil mid)

  -- Rows at the end of a table that are the only ones a test takes.
  pub select-append_new :
      (test : A → Bool) (before rows : List A)
      → All (λ a. test a ≡ false) before
      → All (λ a. test a ≡ true) rows
      → select test (before ++ rows) ≡ rows
  select-append_new test before rows low h =
      rw (select-append test before rows, select-nil test before low) (select_every test rows h)

  -- Rows at the end of a table that a test does not take.
  pub select-append_old :
      (test : A → Bool) (before rows : List A)
      → All (λ a. test a ≡ false) rows
      → select test (before ++ rows) ≡ select test before
  select-append_old test before rows h =
      rw (select-append test before rows, select-nil test rows h) (append-nil (select test before))

  -- A selection is not changed by leaving out rows that it does not take.
  pub select-select_keeps :
      (test keep : A → Bool) (as' : List A)
      → All (λ a. test a ≡ true → keep a ≡ true) as'
      → select test (select keep as') ≡ select test as'
  unfolding select
  select-select_keeps test keep [] h = refl
  select-select_keeps test keep (a ∷ as') (p, h) = elim (Bool-cases (keep a)) [
    | inl e ↦ rw (e, select-select_keeps test keep as' h) refl
    | inr e ↦ elim (Bool-cases (test a)) [
      | inl f ↦ absurd (cc (p f, e))
      | inr f ↦ rw (e, f) (select-select_keeps test keep as' h)
    ]
  ]

  -- The first of these rows, if there is one, does not come before the row.
  abbrev pub Leads : (A → A → Bool) → A → List A → Type 0
  Leads before a [] = Unit
  Leads before a (b ∷ rows) = before a b ≡ true

  -- Every row comes before the next.
  abbrev pub IsOrdered : (A → A → Bool) → List A → Type 0
  IsOrdered before [] = Unit
  IsOrdered before (a ∷ rows) = Leads before a rows × IsOrdered before rows

  insert_row_lead :
      (before : A → A → Bool) (a : A) (rows : List A)
      → Leads before a rows
      → insert_row before a rows ≡ a ∷ rows
  unfolding insert_row
  insert_row_lead before a [] h = refl
  insert_row_lead before a (b ∷ rows) h = rw h refl

  -- Ordering rows that are in order changes nothing.
  pub order_by_ordered :
      (before : A → A → Bool) (rows : List A) → IsOrdered before rows → order_by before rows ≡ rows
  unfolding order_by
  order_by_ordered before [] h = refl
  order_by_ordered before (a ∷ rows) (lead, h) =
      rw (order_by_ordered before rows h) (insert_row_lead before a rows lead)

module _ {ℓ κ} {A : Type ℓ} {B : Type κ} (f : A → B) (before : A → A → Bool)
    (before' : B → B → Bool) (same_order : (a b : A) → before' (f a) (f b) ≡ before a b) where
  map-insert_row :
      (a : A) (rows : List A)
      → map f (insert_row before a rows) ≡ insert_row before' (f a) (map f rows)
  unfolding insert_row
  map-insert_row a [] = refl
  map-insert_row a (b ∷ rows) = elim (Bool-cases (before a b)) [
    | inl e ↦ rw (same_order a b, e) refl
    | inr e ↦ rw (same_order a b, e) (ap (λ l. f b ∷ l) (map-insert_row a rows))
  ]

  -- Reading the rows and ordering what was read is ordering the rows and reading them.
  pub map-order_by : (rows : List A) → map f (order_by before rows) ≡ order_by before' (map f rows)
  unfolding order_by
  map-order_by [] = refl
  map-order_by (a ∷ rows) =
      map-insert_row a (order_by before rows) ∙ ap (insert_row before' (f a)) (map-order_by rows)
