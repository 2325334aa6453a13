-- ===== src/Extraction/Stored.antt =====
-- What is stored when extract succeeds.
use tax_deeds.Normalize.{normalize}
use tax_deeds.Failure.{err, Result, Failure, ok}
use tax_deeds.Store.{OcrRow, Document}
use tax_deeds.Dto.{ExtractedMatricula}
use tax_deeds.Llm.Chain.{Answer}
use tax_deeds.Text.{Text, Unicode}
use tax_deeds.Extraction.Service.{
  page_texts, meta_of, results_by_document, Faults, extract, extract_from, saved, answered, loaded,
  finish, World, AggregateTables,
}
use tax_deeds.Base.{ℕ, ◌≡◌, ◌≢◌, refl, sym, ap, Option, none, some, List, [], ◌∷◌}

module _ {Num : Type 0} (store : AggregateTables Num) (u : Unicode) (decimal : ℕ → Text)
    (extractor : Text → Answer (ExtractedMatricula Num × Text)) (model prompt_version : Text)
    (now : ℕ) (id : Text) where
  -- The normalized answer to this text is what the aggregate tables hold afterwards.
  abbrev pub IsStored : Text → World Num store.Tables → store.Tables → Type 0
  IsStored text w after =
      (m : ExtractedMatricula Num) × (raw : Text) × ((extractor text).result ≡ ok (m, raw))
      × (store.save_aggregate id (normalize u m)
            (meta_of store u decimal extractor model prompt_version raw (extractor text).usage)
            w.aggregates
          ≡ ok after)

  finish_stored :
      (fault : Option Failure) (w : World Num store.Tables)
      → (finish store u decimal extractor model prompt_version now fault id w).1.aggregates
        ≡ w.aggregates
  unfolding finish
  finish_stored none w = refl
  finish_stored (some e) w = refl

  saved_stored :
      (fault : Option Failure) (r : Result store.Tables) (w : World Num store.Tables)
      → (saved store u decimal extractor model prompt_version now fault id r w).0 ≡ none
      → r ≡ ok (saved store u decimal extractor model prompt_version now fault id r w).1.aggregates
  unfolding saved
  saved_stored fault (err e) w h = absurd (cc h)
  saved_stored fault (ok tables) w h =
      ap ok (sym (finish_stored fault (record w { aggregates = tables })))

  answered-IsStored :
      (fault : Option Failure) (text : Text) (r : Result (ExtractedMatricula Num × Text))
      (w : World Num store.Tables)
      → (extractor text).result ≡ r
      → (answered store u decimal extractor model prompt_version now fault id
          (extractor text).usage
          r
          w).0
        ≡ none
      → IsStored text w
          (answered store u decimal extractor model prompt_version now fault id
            (extractor text).usage
            r
            w).1.aggregates
  unfolding answered
  answered-IsStored fault text (err e) w p h = absurd (cc h)
  answered-IsStored fault text (ok (m, raw)) w p h = (m, raw, p, saved_stored fault _ w h)

  loaded-IsStored :
      (fault : Option Failure) (rows : List (OcrRow Num)) (w : World Num store.Tables)
      → (loaded store u decimal extractor model prompt_version now fault id rows w).0 ≡ none
      → (rows ≢ [])
        × IsStored
            (page_texts decimal rows)
            w
            (loaded store u decimal extractor model prompt_version now fault id rows w).1.aggregates
  unfolding loaded
  loaded-IsStored fault [] w h = absurd (cc h)
  loaded-IsStored fault (r ∷ rows) w h = (λ e. cc e, answered-IsStored fault _ _ w refl h)

  pub extract_from-IsStored :
      (load fault : Option Failure) (w : World Num store.Tables)
      → (extract_from store u decimal extractor model prompt_version now load fault id w).0 ≡ none
      → (results_by_document id w.ocr_rows ≢ [])
        × IsStored
            (page_texts decimal (results_by_document id w.ocr_rows))
            w
            (extract_from store u decimal extractor model prompt_version now load fault id
              w).1.aggregates
  unfolding extract_from
  extract_from-IsStored (some e) fault w h = absurd (cc h)
  extract_from-IsStored none fault w h = loaded-IsStored fault _ w h

module _ {Num : Type 0} (store : AggregateTables Num) (u : Unicode) (decimal : ℕ → Text)
    (extractor : Text → Answer (ExtractedMatricula Num × Text)) (model prompt_version : Text)
    (now : ℕ) (doc : Document) where
  -- If extract returns no error, the document has pages of OCR text, the extractor answered their
  -- texts in the order of the pages, and SaveAggregate stored the normalized answer with the raw
  -- output and the tokens of that answer.
  pub extract-IsStored :
      (faults : Faults) (w : World Num store.Tables)
      → (extract store u decimal extractor model prompt_version now faults doc w).0 ≡ none
      → (results_by_document doc.id w.ocr_rows ≢ [])
        × IsStored store u decimal extractor model prompt_version now doc.id
            (page_texts decimal (results_by_document doc.id w.ocr_rows))
            w
            (extract store u decimal extractor model prompt_version now faults doc w).1.aggregates
  unfolding extract
  extract-IsStored faults w h =
      extract_from-IsStored store u decimal extractor model prompt_version now doc.id
        faults.load_fault faults.finish_fault w h
