-- ===== src/Aggregate/Sound.antt =====
-- What holds of the tables of the aggregates between two transactions.
use tax_deeds.Queries.Keys.{IsAscending}
use tax_deeds.Aggregate.{MatriculaRow, Aggregates}
use tax_deeds.Base.{ℕ, Option, none, some, ◌<◌, ◌≢◌, List, [], ◌∷◌, All}

-- A reference that may be NULL is to an identifier below the bound.
abbrev pub RefersBelow : ℕ → Option ℕ → Type 0
RefersBelow bound none = Unit
RefersBelow bound (some id) = id < bound

module _ {Num : Type 0} where
  -- At most one row of each document.
  abbrev pub OnePerDocument : List (MatriculaRow Num) → Type 0
  OnePerDocument [] = Unit
  OnePerDocument (r ∷ rows) = All (λ s. r.document_id ≢ s.document_id) rows × OnePerDocument rows

  -- Identifiers and references are below the supply, and no identifier is there twice in its table,
  -- nor a document.
  pub record IsSound (t : Aggregates Num) : Type 0 where
    pub matriculas_below : All (λ r. r.id < t.supply) t.matriculas
    pub matriculas_ascending : IsAscending (λ r. r.id) t.matriculas
    pub one_each : OnePerDocument t.matriculas
    pub atos_below : All (λ a. a.id < t.supply) t.atos
    pub atos_ascending : IsAscending (λ a. a.id) t.atos
    pub atos_owned : All (λ a. a.matricula_id < t.supply) t.atos
    pub partes_owned : All (λ p. p.ato_id < t.supply) t.partes
    pub owners_owned : All (λ p. p.matricula_id < t.supply) t.proprietarios
    pub liens_owned : All (λ o. o.matricula_id < t.supply) t.onus
    pub extractions_below : All (λ x. x.id < t.supply) t.extractions
    pub extractions_ascending : IsAscending (λ x. x.id) t.extractions
    pub extracted_from : All (λ r. r.extraction_id < t.supply) t.matriculas
    pub acquired_by : All (λ p. RefersBelow t.supply p.ato_aquisicao_id) t.proprietarios
    pub constituted_by : All (λ o. RefersBelow t.supply o.ato_constituicao_id) t.onus
    pub cancelled_by : All (λ o. RefersBelow t.supply o.ato_cancelamento_id) t.onus
