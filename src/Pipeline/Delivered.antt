-- ===== src/Pipeline/Delivered.antt =====
-- A turn of the poller in which nothing fails, up to the answer of the API.
use mathlib.Core.Path.{subst}
use tax_deeds.Base.{
  ℕ, ◌≡◌, ◌≢◌, refl, sym, ap, ◌∙◌, Bool, true, false, Option, none, some, List, [], ◌∷◌, All,
}
use tax_deeds.Pipeline.Answered.{extract_document-IsAnswered}
use tax_deeds.Pipeline.{tables_of, aggregate_tables, aggregate_reads}
use tax_deeds.Aggregate.Accepted.{save_aggregate-Fits}
use tax_deeds.Aggregate.Sound.{IsSound}
use tax_deeds.Aggregate.Stored.{AllDated, stored}
use tax_deeds.Aggregate.Save.{SaveStep}
use tax_deeds.Aggregate.{Aggregates, IsPostgres, Postgres}
use tax_deeds.Llm.Vocabulary.{validate_enums-Fits, StatusIsPlain}
use tax_deeds.Llm.Enums.{validate_enums}
use tax_deeds.Llm.Chain.{Answer}
use tax_deeds.Extraction.Poller.{Turn, turn_from, turn_claimed}
use tax_deeds.Extraction.Service.{
  extract_document, World, Faults, AggregateTables, extract, extract_from, loaded, answered, saved,
  finish, results_by_document, page_texts, meta_of,
}
use tax_deeds.Handlers.{get_matricula, json}
use tax_deeds.Store.Claims.{ClaimFits, claim_fits}
use tax_deeds.Store.Find.{IsKeyed}
use tax_deeds.Store.Statements.{claim}
use tax_deeds.Store.{extracting, find, Documents, Document, OcrRow}
use tax_deeds.Normalize.{normalize}
use tax_deeds.Dto.{ExtractedMatricula}
use tax_deeds.Failure.{Failure, ok}
use tax_deeds.Text.{Text, Unicode}

module _ {Num : Type 0} (store : AggregateTables Num) (u : Unicode) (decimal : ℕ → Text)
    (extractor : Text → Answer (ExtractedMatricula Num × Text)) (model prompt_version : Text)
    (now : ℕ) (faults : Faults) (doc : Document) (w : World Num store.Tables) where
  -- extract works where its calls do.
  extract-none :
      (rows : List (OcrRow Num)) (m : ExtractedMatricula Num) (raw : Text) (t : store.Tables)
      → results_by_document doc.id w.ocr_rows ≡ rows
      → rows ≢ []
      → faults.load_fault ≡ none
      → faults.finish_fault ≡ none
      → (extractor (page_texts decimal rows)).result ≡ ok (m, raw)
      → store.save_aggregate doc.id
          (normalize u m)
          (meta_of store u decimal extractor model prompt_version raw
            (extractor (page_texts decimal rows)).usage)
          w.aggregates
        ≡ ok t
      → (extract store u decimal extractor model prompt_version now faults doc w).0 ≡ none
  unfolding extract extract_from loaded answered saved finish
  extract-none [] m raw t e n l f a s = absurd (n refl)
  extract-none (r ∷ rows) m raw t e n l f a s = rw (l, e, a, s, f) refl

module _ {Num : Type 0} (db : Postgres) (pg : IsPostgres db) (uuid : ℕ → Text)
    (fault : SaveStep → Option Failure) (works : (step : SaveStep) → fault step ≡ none)
    (u : Unicode) (decimal : ℕ → Text) (model prompt_version : Text) (max : ℕ) (t : Turn Num)
    (w : World Num (Aggregates Num)) where
  abbrev asked_for : Document → Text
  asked_for c = page_texts decimal (results_by_document c.id w.ocr_rows)

  -- What a turn needs to end with an answer.
  pub record Delivers (c : Document) (m : ExtractedMatricula Num) (raw : Text) : Type 0 where
    pub claims : t.claim_fault ≡ none
    pub loads : t.faults.load_fault ≡ none
    pub finishes : t.faults.finish_fault ≡ none
    pub has_texts : results_by_document c.id w.ocr_rows ≢ []
    pub answers : (t.extractor (asked_for c)).result ≡ ok (m, raw)
    pub is_valid : validate_enums u m ≡ none
    pub plain : All (StatusIsPlain u) m.onus
    pub dates : AllDated (normalize u m)
    pub json : db.is_json raw ≡ true

  abbrev after_claim : Documents → World Num (Aggregates Num)
  after_claim es = record w { documents = es }

  -- The claimed row, as the table has it behind the claim.
  claimed_row :
      (d : Document) (es : Documents)
      → IsKeyed w.documents
      → claim max t.now t.locked w.documents ≡ (some d, es)
      → (find d.id es ≡ some d) × (d.status ≡ extracting)
  claimed_row d es keyed took =
      let fits =
        subst (ClaimFits max t.now t.locked w.documents) took
          (claim_fits max t.now t.locked w.documents keyed) in
      let (c, _, _, _, same_row, found_row, _) = fits in
      (
        ap (λ (x : Document). find x.id es) same_row ∙ found_row,
        ap (λ (x : Document). x.status) same_row,
      )

  -- extract returns no error in such a turn.
  delivered_none :
      (d : Document) (es : Documents) (m : ExtractedMatricula Num) (raw : Text)
      → Delivers d m raw
      → (extract
          (aggregate_tables db fault)
          u
          decimal
          t.extractor
          model
          prompt_version
          t.now
          t.faults
          d
          (after_claim es)).0
        ≡ none
  delivered_none d es m raw h =
      extract-none (aggregate_tables db fault) u decimal t.extractor model prompt_version t.now
        t.faults d (after_claim es) (results_by_document d.id w.ocr_rows) m raw _ refl h.has_texts
        h.loads h.finishes h.answers
        (ap tables_of (
          save_aggregate-Fits db pg fault works d.id (normalize u m) _ w.aggregates
            ((validate_enums-Fits u m h.is_valid).1 h.plain) h.dates h.json))

  same_answer :
      (d : Document) (m n : ExtractedMatricula Num) (raw raw' : Text)
      → (t.extractor (asked_for d)).result ≡ ok (m, raw)
      → (t.extractor (asked_for d)).result ≡ ok (n, raw')
      → m ≡ n
  same_answer d m n raw raw' e f = cc (sym e ∙ f)

  -- The endpoint of the matrícula answers with the normalised answer of the model, as it is stored.
  abbrev pub AnswersWith : World Num (Aggregates Num) → Document → ExtractedMatricula Num → Type 0
  AnswersWith after d m =
      (id : Text) × (get_matricula (aggregate_reads db uuid after.aggregates) none after.documents
          d.id
        ≡ json 200 (record { id = id; document_id = d.id; content = stored db (normalize u m) }))

  abbrev delivered : Document → Documents → World Num (Aggregates Num)
  delivered d es =
      extract_document (aggregate_tables db fault) u decimal t.extractor model prompt_version t.now
        t.faults d (after_claim es)

  document_delivered :
      (d : Document) (es : Documents) (m : ExtractedMatricula Num) (raw : Text)
      → IsKeyed w.documents
      → IsSound w.aggregates
      → claim max t.now t.locked w.documents ≡ (some d, es)
      → Delivers d m raw
      → AnswersWith (delivered d es) d m
  document_delivered d es m raw keyed sound took h =
      let (there, status) = claimed_row d es keyed took in
      let (n, raw', answered_n, (id, e)) =
        extract_document-IsAnswered db pg uuid fault u decimal t.extractor model prompt_version
          t.now t.faults d (after_claim es) d there status sound
          (λ k r a.
            subst (λ (x : ExtractedMatricula Num). AllDated (normalize u x))
              (same_answer d m k raw r h.answers a) h.dates)
          (delivered_none d es m raw h) in
      subst (AnswersWith (delivered d es) d) (sym (same_answer d m n raw raw' h.answers answered_n))
        (id, e)

  turn_from-delivered :
      (d : Document) (es : Documents)
      → t.claim_fault ≡ none
      → claim max t.now t.locked w.documents ≡ (some d, es)
      → turn_from (aggregate_tables db fault) u decimal model prompt_version max t.claim_fault t w
        ≡ (false, delivered d es)
  unfolding turn_from turn_claimed
  turn_from-delivered d es e took =
      ap (λ f. turn_from (aggregate_tables db fault) u decimal model prompt_version max f t w) e
      ∙ ap (λ o. turn_claimed (aggregate_tables db fault) u decimal model prompt_version max t o w)
          took

  -- A turn of the poller in which the database answers and casts ISO dates, on documents without two
  -- of one identifier and sound aggregates: if the claim takes a document that has OCR texts, and the
  -- extractor answers these with an extraction that validateEnums accepts, whose ônus have a plain
  -- status, whose dates are normalised from the year 1 and whose raw output is JSON, then the loop
  -- goes on, and the endpoint of the matrícula answers 200 with exactly this extraction, normalised
  -- and as it is stored.
  pub turn-Delivers :
      (d : Document) (es : Documents) (m : ExtractedMatricula Num) (raw : Text)
      → IsKeyed w.documents
      → IsSound w.aggregates
      → claim max t.now t.locked w.documents ≡ (some d, es)
      → Delivers d m raw
      → let next =
          turn_from
            (aggregate_tables db fault)
            u
            decimal
            model
            prompt_version
            max
            t.claim_fault
            t
            w in
        (next.0 ≡ false) × AnswersWith next.1 d m
  turn-Delivers d es m raw keyed sound took h =
      subst (λ (x : Bool × World Num (Aggregates Num)). (x.0 ≡ false) × AnswersWith x.1 d m)
        (sym (turn_from-delivered d es h.claims took))
        (refl, document_delivered d es m raw keyed sound took h)
