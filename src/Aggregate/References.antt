-- ===== src/Aggregate/References.antt =====
-- The references between the rows of one aggregate: the number of an ato, its identifier, and back.
use tax_deeds.Text.Laws.{same_iff}
use tax_deeds.Aggregate.Save.{ato_id}
use tax_deeds.Aggregate.Stored.{listed}
use tax_deeds.Aggregate.Save.{ato_ref, AtoIds}
use tax_deeds.Aggregate.Load.{numero_of, numero_at}
use tax_deeds.Dto.{Ato}
use tax_deeds.Aggregate.Rows.{ato_table, ids_table}
use tax_deeds.Text.{same, Text}
use tax_deeds.Aggregate.{Postgres}
use tax_deeds.Base.{
  ==_refl, or_true, ==_lt, any, ℕ, ◌+◌, ◌≤◌, ◌≡◌, refl, sym, ◌∙◌, ◌⊎◌, inl, inr, Bool, true, false,
  none, some, List, [], ◌∷◌, ◌++◌, arith, if◌then◌else◌, Bool-cases,
}

if_idem : (b : Bool) (s : Text) → (if b then s else s) ≡ s
if_idem true s = refl
if_idem false s = refl

ato_id-append :
    (numero : Text) (ids : AtoIds) (n : Text) (id : ℕ)
    → ((k : ℕ) × (ato_id numero ids ≡ some k) × (ato_id numero (ids ++ (n, id) ∷ []) ≡ some k))
      ⊎ ((ato_id numero ids ≡ none)
          × (ato_id numero (ids ++ (n, id) ∷ []) ≡ (if same n numero then some id else none)))
unfolding ato_id
ato_id-append numero [] n id = inr (refl, refl)
ato_id-append numero ((n', id') ∷ ids) n id = elim (Bool-cases (same n' numero)) [
  | inl e ↦ inl (id', rw e refl, rw e refl)
  | inr e ↦ rw e (ato_id-append numero ids n id)
]

module _ {Num : Type 0} (db : Postgres) (matricula : ℕ) where
  abbrev is_listed : List (Ato Num) → Text → Bool
  is_listed atos numero = any (λ a. same a.numero numero) atos

  -- A number is resolved to the identifier of an ato of this number, if there is one.
  ato_id-ids_table :
      (seq id : ℕ) (atos : List (Ato Num)) (numero : Text)
      → ((ato_id numero (ids_table id atos) ≡ none) × (is_listed atos numero ≡ false))
        ⊎ ((k : ℕ) × (ato_id numero (ids_table id atos) ≡ some k)
            × (id ≤ k)
            × (numero_of k (ato_table db matricula seq id atos) ≡ numero)
            × (is_listed atos numero ≡ true))
  unfolding ids_table ato_table numero_of
  ato_id-ids_table seq id [] numero = inl (unfold ato_id in refl, refl)
  ato_id-ids_table seq id (a ∷ atos) numero =
      elim (ato_id-ids_table (seq + 1) (id + 1) atos numero) [
        | inr (j, f, le, num, l) ↦
            elim (ato_id-append numero (ids_table (id + 1) atos) a.numero id) [
              | inl (k, e, e') ↦ inr (
                j,
                cc (e, e', f),
                omega arith,
                rw (==_lt id j (omega arith)) num,
                rw l (or_true (same a.numero numero)),
              )
              | inr (e, e') ↦ absurd (cc (e, f))
            ]
        | inl (f, l) ↦ elim (ato_id-append numero (ids_table (id + 1) atos) a.numero id) [
          | inl (k, e, e') ↦ absurd (cc (e, f))
          | inr (e, e') ↦ elim (Bool-cases (same a.numero numero)) [
            | inl g ↦ inr (
              id,
              e' ∙ rw g refl,
              omega arith,
              rw (==_refl id) ((same_iff a.numero numero).0 g),
              rw g refl,
            )
            | inr g ↦ inl (e' ∙ rw g refl, rw g l)
          ]
        ]
      ]

  -- A reference is read as it was written, or as empty if no ato has the number.
  pub numero_at-ato_ref :
      (seq id : ℕ) (atos : List (Ato Num)) (numero : Text)
      → numero_at (ato_ref (ids_table id atos) numero) (ato_table db matricula seq id atos)
        ≡ listed atos numero
  numero_at-ato_ref seq id atos [] = sym (if_idem (is_listed atos []) [])
  numero_at-ato_ref seq id atos (c ∷ s) = elim (ato_id-ids_table seq id atos (c ∷ s)) [
    | inl (e, l) ↦ rw (e, l) refl
    | inr (k, e, le, num, l) ↦ rw (e, l) num
  ]
