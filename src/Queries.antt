-- ===== src/Queries.antt =====
-- What a query or a filtering loop does with a list of rows.
pub mod Laws
pub mod Keys
use tax_deeds.Base.{
  ℕ, zero, suc, ◌+◌, ◌-◌, ◌*◌, ◌≤◌, ◌<◌, ◌≡◌, ◌≢◌, refl, sym, ap, ◌∙◌, ◌↔◌, ◌⊎◌, inl, inr, Bool,
  true, false, ◌&&◌, ◌||◌, not, Option, none, some, List, [], ◌∷◌, ◌++◌, map, arith, ltb, leb, ◌==◌,
  if◌then◌else◌, Bool-cases, All, length,
}

-- The elements that pass a test, in their order: the loops of Atos, Onus and OwnershipChain.
unfoldable pub select {ℓ} : {A : Type ℓ} → (A → Bool) → List A → List A
select test [] = []
select test (a ∷ as') = if test a then a ∷ select test as' else select test as'

-- One row, put in front of the first that does not come before it.
unfoldable pub insert_row {ℓ} : {A : Type ℓ} → (A → A → Bool) → A → List A → List A
insert_row before a [] = a ∷ []
insert_row before a (b ∷ rows) = if before a b then a ∷ b ∷ rows else b ∷ insert_row before a rows

-- `ORDER BY`; rows that compare alike stay in the order of the table.
unfoldable pub order_by {ℓ} : {A : Type ℓ} → (A → A → Bool) → List A → List A
unfolding insert_row
order_by before [] = []
order_by before (a ∷ rows) = insert_row before a (order_by before rows)
