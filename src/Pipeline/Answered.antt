-- ===== src/Pipeline/Answered.antt =====
-- From the answer of the language model to the answer of the API.
use tax_deeds.Text.Laws.{same_refl}
use tax_deeds.Aggregate.Refines.{view, save_aggregate-put}
use tax_deeds.Extraction.Outcome.{extract_document_aggregates, extract_document_extracted}
use tax_deeds.Extraction.Stored.{extract-IsStored}
use tax_deeds.Aggregate.Sound.{IsSound}
use tax_deeds.Normalize.{normalize}
use tax_deeds.Pipeline.{tables_of, aggregate_reads, aggregate_tables}
use tax_deeds.Aggregate.Stored.{stored, AllDated}
use tax_deeds.Matriculas.{for_status, get_document, by_document}
use tax_deeds.Handlers.{json, get_matricula}
use tax_deeds.Store.{extracting, find, Document}
use tax_deeds.Extraction.Service.{
  extract, results_by_document, page_texts, extract_document, World, Faults,
}
use tax_deeds.Dto.{ExtractedMatricula}
use tax_deeds.Llm.Chain.{Answer}
use tax_deeds.Aggregate.Save.{SaveStep}
use tax_deeds.Text.{Unicode, Text}
use tax_deeds.Aggregate.{Aggregates, IsPostgres, Postgres}
use tax_deeds.Failure.{err, ok, Failure, Result}
use tax_deeds.Base.{ℕ, ◌≡◌, refl, ap, ◌∙◌, Option, none, some}

tables_of-ok :
    {Num : Type 0} (r : Result (ℕ × Aggregates Num)) (t : Aggregates Num)
    → tables_of r ≡ ok t
    → (id : ℕ) × (r ≡ ok (id, t))
tables_of-ok (ok (id, t')) t h = (id, cc h)
tables_of-ok (err e) t h = cc h

module _ {Num : Type 0} (db : Postgres) (pg : IsPostgres db) (uuid : ℕ → Text)
    (fault : SaveStep → Option Failure) (u : Unicode) (decimal : ℕ → Text)
    (extractor : Text → Answer (ExtractedMatricula Num × Text)) (model prompt_version : Text)
    (now : ℕ) (faults : Faults) (doc : Document) (w : World Num (Aggregates Num)) where
  abbrev pub asked : Text
  asked = page_texts decimal (results_by_document doc.id w.ocr_rows)

  abbrev pub after : World Num (Aggregates Num)
  after =
      extract_document (aggregate_tables db fault) u decimal extractor model prompt_version now
        faults doc w

  -- The dates of the answer are normalised, as far as Postgres has them.
  abbrev pub AnswerDated : Type 0
  AnswerDated =
      (m : ExtractedMatricula Num) (raw : Text)
      → (extractor asked).result ≡ ok (m, raw)
      → AllDated (normalize u m)

  -- The endpoint of the matrícula answers with this extraction.
  abbrev pub IsAnswered : ExtractedMatricula Num → Type 0
  IsAnswered m =
      (id : Text) × (get_matricula (aggregate_reads db uuid after.aggregates) none after.documents
          doc.id
        ≡ json 200 (record { id = id; document_id = doc.id; content = stored db (normalize u m) }))

  -- If extract returns no error for a document that is extracting, on sound tables, the dates of the
  -- answer are normalised from the year 1 and the database casts such dates, then the endpoint of the
  -- matrícula answers 200 with the normalised answer of the language model, as it is stored, once
  -- ExtractDocument has run.
  pub extract_document-IsAnswered :
      (d : Document)
      → find doc.id w.documents ≡ some d
      → d.status ≡ extracting
      → IsSound w.aggregates
      → AnswerDated
      → (extract
          (aggregate_tables db fault)
          u
          decimal
          extractor
          model
          prompt_version
          now
          faults
          doc
          w).0
        ≡ none
      → (m : ExtractedMatricula Num) × (raw : Text) × ((extractor asked).result ≡ ok (m, raw))
        × IsAnswered m
  unfolding get_matricula by_document get_document for_status
  extract_document-IsAnswered d there status sound dates h =
      let (_, (m, raw, answered, saved)) =
        extract-IsStored (aggregate_tables db fault) u decimal extractor model prompt_version now
          doc faults w h in
      let (id, written) = tables_of-ok _ _ saved in
      let row =
        extract_document_extracted (aggregate_tables db fault) u decimal extractor model
          prompt_version now doc faults w d there status h in
      let kept =
        extract_document_aggregates (aggregate_tables db fault) u decimal extractor model
          prompt_version now doc faults w in
      let seen =
        save_aggregate-put db uuid pg fault doc.id (normalize u m) _ w.aggregates _ id sound
          (dates m raw answered) written in
      let found_new : view db uuid after.aggregates doc.id
          ≡ some
              (record { id = uuid id; document_id = doc.id; content = stored db (normalize u m) }) =
        ap (λ t. view db uuid t doc.id) kept
        ∙ ap (λ v. v doc.id) seen
        ∙ rw (same_refl doc.id) refl in
      (m, raw, answered, (uuid id, rw (row, found_new) refl))
