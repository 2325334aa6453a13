-- ===== src/Extraction/Poller/Drained.antt =====
-- The attempts that are left, as the measure of the loop of the poller.
use tax_deeds.Extraction.Outcome.{extract_document_keeps}
use tax_deeds.Failure.{Failure}
use tax_deeds.Extraction.Poller.{Turn, drain, turn_claimed, turn_from}
use tax_deeds.Store.Find.{update_rows-IsKeyed, oldest_found, IsKeyed}
use tax_deeds.Extraction.Service.{World, AggregateTables}
use tax_deeds.Store.Statements.{is_claimable, oldest, claim_picked, claim, claimed, has_id}
use tax_deeds.Text.{Unicode, Text}
use tax_deeds.Store.{Document, find, update_rows, Documents}
use tax_deeds.Base.{
  ℕ, ◌+◌, ◌-◌, ◌≤◌, ◌<◌, ◌≡◌, refl, ◌⊎◌, inl, inr, Bool, true, ◌&&◌, not, Option, none, some, List,
  [], ◌∷◌, arith, length,
}

-- The attempts that are left, over the whole table.
abbrev pub remaining : ℕ → Documents → ℕ
remaining max [] = 0
remaining max (d ∷ ds) = (max - d.extraction_attempts) + remaining max ds

module _ (max : ℕ) where
  remaining-update_rows :
      (test : Document → Bool) (set : Document → Document)
      → ((d : Document) → (set d).extraction_attempts ≡ d.extraction_attempts)
      → (ds : Documents) → remaining max (update_rows test set ds) ≡ remaining max ds
  unfolding update_rows
  remaining-update_rows test set keep [] = refl
  remaining-update_rows test set keep (d ∷ ds) =
      ground (arith, keep d, remaining-update_rows test set keep ds)

  remaining_le :
      (now : ℕ) (id : Text) (ds : Documents)
      → remaining max (update_rows (has_id id) (claimed now) ds) ≤ remaining max ds
  unfolding update_rows
  remaining_le now id [] = omega arith
  remaining_le now id (d ∷ ds) = ground (arith, remaining_le now id ds)

  remaining_lt :
      (now : ℕ) (id : Text) (ds : Documents) (c : Document)
      → find id ds ≡ some c
      → c.extraction_attempts < max
      → remaining max (update_rows (has_id id) (claimed now) ds) < remaining max ds
  unfolding update_rows find
  remaining_lt now id [] c p h = absurd (cc p)
  remaining_lt now id (d ∷ ds) c p h =
      ground (arith, remaining_le now id ds, remaining_lt now id ds c)

  picked_remaining :
      (now : ℕ) (locked : Document → Bool) (ds : Documents) (o : Option Document)
      → IsKeyed ds
      → oldest (λ d. is_claimable max now d && not (locked d)) ds ≡ o
      → IsKeyed (claim_picked now o ds).1
        × (((claim_picked now o ds).0 ≡ none)
            ⊎ (remaining max (claim_picked now o ds).1 < remaining max ds))
  unfolding claim_picked
  picked_remaining now locked ds none keyed e = (keyed, inl refl)
  picked_remaining now locked ds (some c) keyed e =
      let (t, found) = oldest_found _ ds c keyed e in
      (
        update_rows-IsKeyed (has_id c.id) (claimed now) (λ d. refl) ds keyed,
        inr (remaining_lt now c.id ds c found (ground arith)),
      )

  claim-remaining :
      (now : ℕ) (locked : Document → Bool) (ds : Documents)
      → IsKeyed ds
      → IsKeyed (claim max now locked ds).1
        × (((claim max now locked ds).0 ≡ none)
            ⊎ (remaining max (claim max now locked ds).1 < remaining max ds))
  unfolding claim
  claim-remaining now locked ds keyed = picked_remaining now locked ds _ keyed refl

module _ {Num : Type 0} (store : AggregateTables Num) (u : Unicode) (decimal : ℕ → Text)
    (model prompt_version : Text) (max : ℕ) where
  -- The rows stay keyed, and a turn after which the loop goes on uses up an attempt.
  abbrev TurnFits : World Num store.Tables → Bool × World Num store.Tables → Type 0
  TurnFits w next =
      IsKeyed next.1.documents
      × ((next.0 ≡ true) ⊎ (remaining max next.1.documents < remaining max w.documents))

  claimed_fits :
      (t : Turn Num) (c : Option Document × Documents) (w : World Num store.Tables)
      → IsKeyed c.1
      → (c.0 ≡ none) ⊎ (remaining max c.1 < remaining max w.documents)
      → TurnFits w (turn_claimed store u decimal model prompt_version max t c w)
  unfolding turn_claimed
  claimed_fits t (none, ds) w keyed h = (keyed, inl refl)
  claimed_fits t (some doc, ds) w keyed (inl e) = absurd (cc e)
  claimed_fits t (some doc, ds) w keyed (inr less) =
      let (k, r) =
        extract_document_keeps store u decimal t.extractor model prompt_version t.now doc t.faults
          (record w { documents = ds }) (λ es. IsKeyed es × (remaining max es ≡ remaining max ds))
          (keyed, refl)
          (λ test set keep count. (
            update_rows-IsKeyed test set keep ds keyed,
            remaining-update_rows max test set count ds,
          )) in
      (k, inr (rw r less))

  turn_fits :
      (fault : Option Failure) (t : Turn Num) (w : World Num store.Tables)
      → IsKeyed w.documents
      → TurnFits w (turn_from store u decimal model prompt_version max fault t w)
  unfolding turn_from
  turn_fits (some e) t w keyed = (keyed, inl refl)
  turn_fits none t w keyed =
      let (k, h) = claim-remaining max t.now t.locked w.documents keyed in claimed_fits t _ w k h

  -- The loop of tick is left after at most as many turns as attempts are left over the whole table,
  -- and one more: whatever the instants, the failing calls and the answers of the language model.
  pub drain_ends :
      (turns : List (Turn Num)) (w : World Num store.Tables)
      → IsKeyed w.documents
      → remaining max w.documents < length turns
      → (drain store u decimal model prompt_version max turns w).0 ≡ true
  unfolding drain
  drain_ends [] w keyed h = absurd (omega arith)
  drain_ends (t ∷ turns) w keyed h =
      let (k, fit) = turn_fits t.claim_fault t w keyed in
      elim fit [
        | inl left ↦ rw left left
        | inr less ↦
            let rest =
              drain_ends turns
                (turn_from store u decimal model prompt_version max t.claim_fault t w).1 k
                (omega arith) in
            ground arith
      ]
