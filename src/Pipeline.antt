-- ===== src/Pipeline.antt =====
-- The components together: the store of internal/store/matriculas.go behind the interfaces by which
-- internal/services/extraction/extraction.go writes it and internal/services/matriculas reads it.
pub mod Answered
pub mod Transcribed
pub mod Delivered
pub mod Tests
use tax_deeds.Aggregate.Load.{get_by_id, get_by_document_id}
use tax_deeds.Extraction.Service.{AggregateTables}
use tax_deeds.Matriculas.{AggregateReads}
use tax_deeds.Text.{Text}
use tax_deeds.Aggregate.Save.{save_aggregate, SaveStep}
use tax_deeds.Aggregate.{Aggregates, Postgres}
use tax_deeds.Failure.{err, ok, Failure, Result}
use tax_deeds.Base.{
  ℕ, zero, suc, ◌+◌, ◌-◌, ◌*◌, ◌≤◌, ◌<◌, ◌≡◌, ◌≢◌, refl, sym, ap, ◌∙◌, ◌↔◌, ◌⊎◌, inl, inr, Bool,
  true, false, ◌&&◌, ◌||◌, not, Option, none, some, List, [], ◌∷◌, ◌++◌, map, arith, ltb, leb, ◌==◌,
  if◌then◌else◌, Bool-cases, All, length,
}

-- The tables without the identifier.
abbrev pub tables_of : {Num : Type 0} → Result (ℕ × Aggregates Num) → Result (Aggregates Num)
tables_of (ok (id, t)) = ok t
tables_of (err e) = err e

module _ {Num : Type 0} (db : Postgres) where
  -- What the extraction service writes.
  abbrev pub aggregate_tables : (SaveStep → Option Failure) → AggregateTables Num
  aggregate_tables fault = record {
    Tables = Aggregates Num;
    save_aggregate = λ document m meta t. tables_of (save_aggregate db fault document m meta t);
  }

  -- What the read service reads, while the database answers.
  abbrev pub aggregate_reads : (ℕ → Text) → Aggregates Num → AggregateReads Num
  aggregate_reads uuid t = record {
    get_by_document_id = λ document. ok (get_by_document_id db uuid document t);
    get_by_id = λ id. ok (get_by_id db uuid id t);
  }
