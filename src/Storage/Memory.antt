-- ===== src/Storage/Memory.antt =====
-- An object storage in memory, which does what the documentation of the library says.
use tax_deeds.Storage.{ObjectStore, attrs_found}
use tax_deeds.Storage.Objects.{KeepsObjects}
use tax_deeds.Text.Laws.{same_iff}
use tax_deeds.Failure.{err, ok, plain, Result}
use tax_deeds.Text.{codes, same, Text}
use tax_deeds.Base.{
  inr, inl, Bool-cases, ◌≢◌, some, refl, none, if◌then◌else◌, ◌≡◌, ℕ, List, Option,
}

abbrev pub Objects : Type 0
Objects = Text → Text → Option (List ℕ)

abbrev pub stored_at : Text → Text → List ℕ → Objects → Objects
stored_at b o bytes s b' o' =
    if same b' b then if same o' o then some bytes else s b' o' else s b' o'

abbrev pub read_from : Option (List ℕ) → Result (List ℕ)
read_from none = err (plain (codes "no such object"))
read_from (some bytes) = ok bytes

-- A storage in memory, which has every bucket.
abbrev pub in_memory : ObjectStore
in_memory = record {
  State = Objects;
  Reader = List ℕ;
  attrs = λ b s. attrs_found;
  create = λ b project s. (none, s);
  close_writer = λ b o ct bytes s. (none, stored_at b o bytes s);
  new_reader = λ b o s. read_from (s b o);
  read_all = λ r. ok r;
}

pub read_from_ok :
    (m : Option (List ℕ)) (r bytes : List ℕ)
    → read_from m ≡ ok r
    → ◌≡◌ {A = Result (List ℕ)} (ok r) (ok bytes)
    → m ≡ some bytes
read_from_ok none r bytes p q = absurd (cc p)
read_from_ok (some b) r bytes p q = cc

pub stored_at_other :
    (b o p : Text) (bytes : List ℕ) (s : Objects) → p ≢ o → stored_at b o bytes s b p ≡ s b p
stored_at_other b o p bytes s n = elim (Bool-cases (same p o)) [
  | inl e ↦ absurd (n ((same_iff p o).0 e))
  | inr e ↦ rw ((same_iff b b).1 refl, e)
]

abbrev pub in_memory-KeepsObjects : KeepsObjects in_memory
in_memory-KeepsObjects = record {
  content = λ b o s. s b o;
  content-close_writer = λ b o ct bytes s h. rw ((same_iff b b).1 refl, (same_iff o o).1 refl);
  content-close_writer_other = λ b o ct p bytes s n. stored_at_other b o p bytes s n;
  content-read_all = λ b o s r bytes p q. read_from_ok (s b o) r bytes p q;
}
