-- ===== src/Extraction/Poller/Tick.antt =====
-- tick and Run of internal/services/extraction/poller.go, on the tables of all parts.
use tax_deeds.Extraction.Poller.Janitor.{janitor}
use tax_deeds.Ingest.{Tables, Env}
use tax_deeds.Text.{Text, Unicode}
use tax_deeds.Store.{is_positive, Duration, Page}
use tax_deeds.Failure.{Failure}
use tax_deeds.Extraction.Service.{AggregateTables, World}
use tax_deeds.Extraction.Poller.{tick_claims, Turn}
use tax_deeds.Base.{none, some, if◌then◌else◌, ℕ, Option, List, [], ◌∷◌}

-- What one tick meets.
pub record Ticking (Num : Type 0) : Type 0 where
  pub turns : List (Turn Num)
  pub exhausted_now : ℕ
  pub exhausted_fault : Option Failure
  pub cutoff : ℕ  -- the instant of StuckDocuments less StuckTimeout
  pub list_fault : Option Failure
  pub rescues : List (Env × Option Failure)

pub record Shared (Num T : Type 0) : Type 0 where
  pub world : World Num T
  pub pages : List Page

module _ {Num : Type 0} (store : AggregateTables Num) (u : Unicode) (decimal decimal4 : ℕ → Text)
    (model prompt_version : Text) (max : ℕ) where
  -- The janitor behind the claims.
  abbrev pub tidied : Ticking Num → World Num store.Tables → List Page → Tables
  tidied t w pages =
      janitor decimal decimal4 max t.cutoff t.list_fault t.rescues
        (record { documents = w.documents; pages = pages })

  unfoldable pub tick : Ticking Num → Shared Num store.Tables → Shared Num store.Tables
  unfolding tick_claims janitor
  tick t s =
      let w =
        tick_claims store u decimal model prompt_version max t.turns t.exhausted_now
          t.exhausted_fault s.world in
      let after = tidied t w s.pages in
      record { world = record w { documents = after.documents }; pages = after.pages }

  unfoldable pub ticked : List (Ticking Num) → Shared Num store.Tables → Shared Num store.Tables
  unfolding tick
  ticked [] s = s
  ticked (t ∷ ticks) s = ticked ticks (tick t s)

  -- Run, until the context ends: the ticks of the ticker, one after the other. `none` is a panic, which
  -- time.NewTicker raises for an interval that is not positive.
  unfoldable pub run_poller :
      Duration → List (Ticking Num) → Shared Num store.Tables → Option (Shared Num store.Tables)
  unfolding ticked
  run_poller interval ticks s = if is_positive interval then some (ticked ticks s) else none
