-- ===== src/Extraction/Poller.antt =====
-- The loop of tick of internal/services/extraction/poller.go that drains the queue, and that it ends.
pub mod Drained
pub mod Janitor
pub mod Tick
use tax_deeds.Dto.{ExtractedMatricula}
use tax_deeds.Store.Statements.{claim, fail_exhausted}
use tax_deeds.Llm.Chain.{Answer}
use tax_deeds.Failure.{Failure}
use tax_deeds.Text.{Text, Unicode}
use tax_deeds.Extraction.Service.{extract_document, World, Faults, AggregateTables}
use tax_deeds.Store.{Documents, Document}
use tax_deeds.Base.{
  ℕ, zero, suc, ◌+◌, ◌-◌, ◌*◌, ◌≤◌, ◌<◌, ◌≡◌, ◌≢◌, refl, sym, ap, ◌∙◌, ◌↔◌, ◌⊎◌, inl, inr, Bool,
  true, false, ◌&&◌, ◌||◌, not, Option, none, some, List, [], ◌∷◌, ◌++◌, map, arith, ltb, leb, ◌==◌,
  if◌then◌else◌, Bool-cases, All, length,
}

-- What one turn of the loop meets: the instant, the rows that other claims hold, whether the claim
-- itself fails, and the outcome of the other calls.
pub record Turn (Num : Type 0) : Type 0 where
  pub now : ℕ
  pub locked : Document → Bool
  pub claim_fault : Option Failure
  pub faults : Faults
  pub extractor : Text → Answer (ExtractedMatricula Num × Text)

module _ {Num : Type 0} (store : AggregateTables Num) (u : Unicode) (decimal : ℕ → Text)
    (model prompt_version : Text) (max : ℕ) where
  -- A turn; the flag says that the loop is left.
  unfoldable pub turn_claimed :
      Turn Num
      → Option Document × Documents
      → World Num store.Tables
      → Bool × World Num store.Tables
  turn_claimed t (none, ds) w = (true, record w { documents = ds })
  turn_claimed t (some doc, ds) w = (
    false,
    extract_document store u decimal t.extractor model prompt_version t.now t.faults doc
        (record w { documents = ds }),
  )

  unfoldable pub turn_from :
      Option Failure → Turn Num → World Num store.Tables → Bool × World Num store.Tables
  unfolding turn_claimed
  turn_from (some e) t w = (true, w)
  turn_from none t w = turn_claimed t (claim max t.now t.locked w.documents) w

  -- The loop over a list of turns; the flag says that it was left before the list ended.
  unfoldable pub drain : List (Turn Num) → World Num store.Tables → Bool × World Num store.Tables
  unfolding turn_from
  drain [] w = (false, w)
  drain (t ∷ turns) w =
      let next = turn_from t.claim_fault t w in
      let rest = drain turns next.1 in if next.0 then next else rest

  -- FailExhausted behind the loop, unless that call fails.
  unfoldable pub give_up_after :
      ℕ → Option Failure → World Num store.Tables → World Num store.Tables
  give_up_after now (some e) w = w
  give_up_after now none w = record w { documents = (fail_exhausted now max w.documents).1 }

  -- tick up to the janitor; `now` is the instant of FailExhausted.
  unfoldable pub tick_claims :
      List (Turn Num) → ℕ → Option Failure → World Num store.Tables → World Num store.Tables
  unfolding drain give_up_after
  tick_claims turns now fault w = give_up_after now fault (drain turns w).1
