-- ===== src/Store/Claims.antt =====
-- ClaimForExtraction: which row a claim takes.
use tax_deeds.Text.Laws.{same_refl}
use tax_deeds.Store.Find.{oldest_first, find-update_rows, oldest_found, oldest-none, IsKeyed}
use tax_deeds.Store.Statements.{has_id, oldest, claimed, claim_picked, claim, is_claimable}
use tax_deeds.Store.{find, Documents, Document}
use tax_deeds.Base.{ℕ, ◌≤◌, ◌≡◌, refl, Bool, true, false, ◌&&◌, not, Option, none, some, arith, All}

-- What a claim may answer.
abbrev pub ClaimFits : ℕ → ℕ → (Document → Bool) → Documents → Option Document × Documents → Type 0
ClaimFits max now locked ds (none, es) =
    All (λ d. is_claimable max now d && not (locked d) ≡ false) ds × (es ≡ ds)
ClaimFits max now locked ds (some d, es) =
    (c : Document) × (find c.id ds ≡ some c)
    × (is_claimable max now c ≡ true)
    × (locked c ≡ false)
    × (d ≡ claimed now c)
    × (find c.id es ≡ some d)
    × All (λ e. is_claimable max now e && not (locked e) ≡ true → c.updated_at ≤ e.updated_at) ds

module _ (max now : ℕ) (locked : Document → Bool) (ds : Documents) (keyed : IsKeyed ds) where
  picked_fits :
      (o : Option Document)
      → oldest (λ d. is_claimable max now d && not (locked d)) ds ≡ o
      → ClaimFits max now locked ds (claim_picked now o ds)
  unfolding claim_picked
  picked_fits none e = ((oldest-none _ ds).0 e, refl)
  picked_fits (some c) e =
      let (t, found) = oldest_found _ ds c keyed e in
      (
        c,
        found,
        ground arith,
        ground arith,
        refl,
        rw (find-update_rows (has_id c.id) (claimed now) (λ d. refl) c.id ds, found)
            (ground (arith, same_refl c.id)),
        oldest_first _ ds c e,
      )

  -- On a table without two rows of one identifier, a claim takes a row that is ocr_done, due, below
  -- the limit of attempts and not locked, and none that is eligible was written before it; the
  -- table then holds the row as the claim returns it. It takes nothing, and leaves the table as it
  -- is, only if no row is eligible.
  pub claim_fits : ClaimFits max now locked ds (claim max now locked ds)
  unfolding claim
  claim_fits = picked_fits _ refl
