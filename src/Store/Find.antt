-- ===== src/Store/Find.antt =====
-- Looking a row up behind an update, an insertion or a claim.
use tax_deeds.Text.Laws.{same_refl, same_iff}
use tax_deeds.Text.{same, Text}
use tax_deeds.Store.{update_rows, Document, find, Documents}
use tax_deeds.Base.{
  ◌≤◌, ◌≡◌, refl, ap, ◌↔◌, ◌⊎◌, inl, inr, Bool, true, false, none, some, [], ◌∷◌, ◌++◌, arith,
  if◌then◌else◌, Bool-cases, All,
}
use mathlib.Core.Option
use mathlib.Core.Path.{subst}
use native.Mathlib.Nat.{le_trans}
use tax_deeds.Base.{Option-cases, All-imp}
use tax_deeds.Store.Statements.{oldest}

-- No two rows have one identifier: the primary key.
abbrev pub IsKeyed : Documents → Type 0
IsKeyed [] = Unit
IsKeyed (d ∷ ds) = (find d.id ds ≡ none) × IsKeyed ds

abbrev pub changed : (Document → Bool) → (Document → Document) → Document → Document
changed test set d = if test d then set d else d

module _ (test : Document → Bool) (set : Document → Document)
    (keep : (d : Document) → (set d).id ≡ d.id) where
  changed_id : (d : Document) → (changed test set d).id ≡ d.id
  changed_id d = ground (arith, keep d)

  pub find-update_rows :
      (id : Text) (ds : Documents)
      → find id (update_rows test set ds) ≡ Option.map (changed test set) (find id ds)
  unfolding find update_rows
  find-update_rows id [] = refl
  find-update_rows id (d ∷ ds) = elim (Bool-cases (same d.id id)) [
    | inl e ↦ rw (changed_id d, e)
    | inr e ↦ rw (changed_id d, e) (find-update_rows id ds)
  ]

  pub update_rows-IsKeyed : (ds : Documents) → IsKeyed ds → IsKeyed (update_rows test set ds)
  unfolding update_rows
  update_rows-IsKeyed [] h = tt
  update_rows-IsKeyed (d ∷ ds) h =
      (rw (changed_id d, find-update_rows d.id ds, h.0) refl, update_rows-IsKeyed ds h.1)

pub find-eq_id : (id : Text) (ds : Documents) (d : Document) → find id ds ≡ some d → d.id ≡ id
unfolding find
find-eq_id id [] d h = cc
find-eq_id id (e ∷ ds) d h = ground (arith, same_iff e.id id, find-eq_id id ds d)

pub find-append_some :
    (id : Text) (ds es : Documents) (d : Document)
    → find id ds ≡ some d
    → find id (ds ++ es) ≡ some d
unfolding find
find-append_some id [] es d h = cc
find-append_some id (e ∷ ds) es d h = ground (arith, find-append_some id ds es d)

pub find-append_none :
    (id : Text) (ds : Documents) (d : Document)
    → find id ds ≡ none
    → find id (ds ++ d ∷ []) ≡ (if same d.id id then some d else none)
unfolding find
find-append_none id [] d h = refl
find-append_none id (e ∷ ds) d h = ground (arith, find-append_none id ds d)

pub append-IsKeyed :
    (ds : Documents) (d : Document) → IsKeyed ds → find d.id ds ≡ none → IsKeyed (ds ++ d ∷ [])
unfolding find
append-IsKeyed [] d h k = (refl, tt)
append-IsKeyed (e ∷ ds) d h k = elim (Bool-cases (same e.id d.id)) [
  | inl t ↦ absurd (ground arith)
  | inr t ↦ (
    rw (find-append_none e.id ds d h.0) (ground (arith, same_iff e.id d.id, same_iff d.id e.id)),
    append-IsKeyed ds d h.1 (ground arith),
  )
]

oldest-cons :
    (test : Document → Bool) (d : Document) (ds : Documents) (c : Document)
    → oldest test (d ∷ ds) ≡ some c
    → ((test d ≡ true) × (d ≡ c)) ⊎ (oldest test ds ≡ some c)
unfolding oldest
oldest-cons test d ds c o = ground arith

-- A row behind the first is found if its identifier differs.
find-cons_later :
    (d : Document) (ds : Documents) (c : Document)
    → find d.id ds ≡ none
    → find c.id ds ≡ some c
    → find c.id (d ∷ ds) ≡ some c
unfolding find
find-cons_later d ds c fresh found = elim (Bool-cases (same d.id c.id)) [
  | inl e ↦ absurd (cc (ap (λ i. find i ds) ((same_iff d.id c.id).0 e)))
  | inr e ↦ rw e found
]

find-cons_self : (d : Document) (ds : Documents) → find d.id (d ∷ ds) ≡ some d
unfolding find
find-cons_self d ds = rw (same_refl d.id)

-- The row that a claim picks passes its test, and is the row with its identifier.
pub oldest_found :
    (test : Document → Bool) (ds : Documents) (c : Document)
    → IsKeyed ds
    → oldest test ds ≡ some c
    → (test c ≡ true) × (find c.id ds ≡ some c)
oldest_found test [] c h o = unfold oldest in cc o
oldest_found test (d ∷ ds) c h o = elim (oldest-cons test d ds c o) [
  | inl (t, e) ↦ (rw e at t, subst (λ x. find x.id (d ∷ ds) ≡ some x) e (find-cons_self d ds))
  | inr later' ↦
      let (t, found) = oldest_found test ds c h.1 later' in (t, find-cons_later d ds c h.0 found)
]

-- A claim picks nothing exactly if no row passes the test.
pub oldest-none :
    (test : Document → Bool) (ds : Documents)
    → (oldest test ds ≡ none) ↔ All (λ d. test d ≡ false) ds
unfolding oldest
oldest-none test [] = (λ _. tt, λ _. refl)
oldest-none test (d ∷ ds) = ground (arith, oldest-none test ds)

oldest_bound :
    (test : Document → Bool) (d : Document) (ds : Documents) (e c : Document)
    → oldest test ds ≡ some e
    → oldest test (d ∷ ds) ≡ some c
    → (c.updated_at ≤ e.updated_at) × (test d ≡ true → c.updated_at ≤ d.updated_at)
unfolding oldest
oldest_bound test d ds e c p o = ground arith

-- No row that passes the test was written before the row that a claim picks.
pub oldest_first :
    (test : Document → Bool) (ds : Documents) (c : Document)
    → oldest test ds ≡ some c
    → All (λ d. test d ≡ true → c.updated_at ≤ d.updated_at) ds
unfolding oldest
oldest_first test [] c o = tt
oldest_first test (d ∷ ds) c o = elim (Option-cases (oldest test ds)) [
  | inl n ↦ (
    ground arith,
    All-imp (λ x. test x ≡ false) (λ x. test x ≡ true → c.updated_at ≤ x.updated_at) (λ x f t. cc)
        ds ((oldest-none test ds).0 n),
  )
  | inr (e, p) ↦
      let (low, here) = oldest_bound test d ds e c p o in
      (
        here,
        All-imp (λ x. test x ≡ true → e.updated_at ≤ x.updated_at)
            (λ x. test x ≡ true → c.updated_at ≤ x.updated_at) (λ x h t. le_trans low (h t)) ds
            (oldest_first test ds e p),
      )
]
