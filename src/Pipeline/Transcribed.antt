-- ===== src/Pipeline/Transcribed.antt =====
-- From a job of the OCR service to the answer of the endpoint of the texts.
use tax_deeds.Store.Statements.{with_status}
use tax_deeds.Failure.{Failure}
use tax_deeds.Base.{
  ap, some, none, Option, ◌∙◌, All-imp, arith, any, [], ◌∷◌, true, false, refl, ◌≤◌, ◌==◌, ◌&&◌,
  ◌||◌, leb, All, inl, inr, sym, map, Bool-cases, ◌≡◌,
}
use tax_deeds.OcrWorker.Settled.{JobSettled, process_settles_job}
use tax_deeds.OcrWorker.Pool.{pool_result, IsOver, pool_start, Runs, Pool}
use tax_deeds.OcrWorker.Pool.Texts.{AnswersPass, HasText, is_text}
use tax_deeds.OcrWorker.{JobError, process_result, PageIo, Engine}
use tax_deeds.OcrClient.{PageRef}
use tax_deeds.Handlers.Upload.{reply_ocr, get_ocr, OcrPage, OcrResponse, ocr_page, reply_pages}
use tax_deeds.Handlers.{json, Reply}
use tax_deeds.Extraction.Service.{results_by_document, insert_by_page}
use tax_deeds.Store.{processing, ocr_done, find, OcrRow, Documents, Document}
use tax_deeds.Matriculas.{scanned, get_document}
use tax_deeds.Text.{Text, same}
use tax_deeds.Base.{Bool, ℕ, List}

or_assoc_left : (a b c : Bool) → (a || (b || c)) ≡ (b || (a || c))
or_assoc_left true true c = refl
or_assoc_left true false c = refl
or_assoc_left false b c = refl

module _ {Num : Type 0} where
  -- The pages are in the order of their numbers.
  abbrev pub Ascending : List (OcrPage Num) → Type 0
  Ascending [] = Unit
  Ascending (p ∷ ps) = All (λ q. p.page_number ≤ q.page_number) ps × Ascending ps

  any-insert_by_page :
      (t : OcrRow Num → Bool) (r : OcrRow Num) (rows : List (OcrRow Num))
      → any t (insert_by_page r rows) ≡ (t r || any t rows)
  unfolding insert_by_page
  any-insert_by_page t r [] = refl
  any-insert_by_page t r (s ∷ rows) = elim (Bool-cases (leb r.page_number s.page_number)) [
    | inl e ↦ rw e refl
    | inr e ↦ rw (e, any-insert_by_page t r rows) (or_assoc_left (t s) (t r) (any t rows))
  ]

  module _ (engine : Engine) (good : ℕ → Text → Bool) where
    -- A page of the answer shows a text of the engine for the page number that passes the test.
    abbrev pub shows : ℕ → OcrPage Num → Bool
    shows n p = p.page_number == n && (same p.engine engine.name && good n p.text)

    any-results_by_document :
        (decimal : ℕ → Text) (id : Text) (n : ℕ) (rows : List (OcrRow Num))
        → any (is_text decimal engine id good n) rows
          ≡ any (λ r. shows n (ocr_page r)) (results_by_document id rows)
    unfolding results_by_document
    any-results_by_document decimal id n [] = refl
    any-results_by_document decimal id n (r ∷ rows) = elim (Bool-cases (same r.document_id id)) [
      | inl e ↦
          rw (e, any-results_by_document decimal id n rows)
            (sym (any-insert_by_page _ r (results_by_document id rows)))
      | inr e ↦ rw e (any-results_by_document decimal id n rows)
    ]

    any-map :
        (t : OcrPage Num → Bool) (rows : List (OcrRow Num))
        → any t (map ocr_page rows) ≡ any (λ r. t (ocr_page r)) rows
    any-map t [] = refl
    any-map t (r ∷ rows) = rw (any-map t rows) refl

  All-insert_by_page :
      (P : OcrPage Num → Type 0) (r : OcrRow Num) (rows : List (OcrRow Num))
      → P (ocr_page r)
      → All P (map ocr_page rows)
      → All P (map ocr_page (insert_by_page r rows))
  unfolding insert_by_page
  All-insert_by_page P r [] h a = (h, tt)
  All-insert_by_page P r (s ∷ rows) h a = elim (Bool-cases (leb r.page_number s.page_number)) [
    | inl e ↦ rw e (h, a)
    | inr e ↦ rw e (a.0, All-insert_by_page P r rows h a.1)
  ]

  insert_by_page-Ascending :
      (r : OcrRow Num) (rows : List (OcrRow Num))
      → Ascending (map ocr_page rows)
      → Ascending (map ocr_page (insert_by_page r rows))
  unfolding insert_by_page
  insert_by_page-Ascending r [] a = (tt, tt)
  insert_by_page-Ascending r (s ∷ rows) a = elim (Bool-cases (leb r.page_number s.page_number)) [
    | inl e ↦
        let le : r.page_number ≤ s.page_number = ground arith in
        let later =
          All-imp (λ q. s.page_number ≤ q.page_number) (λ q. r.page_number ≤ q.page_number)
            (λ q h. omega arith) (map ocr_page rows) a.0 in
        rw e ((le, later), a)
    | inr e ↦
        let le : s.page_number ≤ r.page_number = ground arith in
        rw e (
          All-insert_by_page (λ q. s.page_number ≤ q.page_number) r rows le a.0,
          insert_by_page-Ascending r rows a.1,
        )
  ]

  results_by_document-Ascending :
      (id : Text) (rows : List (OcrRow Num))
      → Ascending (map ocr_page (results_by_document id rows))
  unfolding results_by_document
  results_by_document-Ascending id [] = tt
  results_by_document-Ascending id (r ∷ rows) = elim (Bool-cases (same r.document_id id)) [
    | inl e ↦ rw e (
        insert_by_page-Ascending r (results_by_document id rows)
          (results_by_document-Ascending id rows))
    | inr e ↦ rw e (results_by_document-Ascending id rows)
  ]

-- The answer with the texts of the rows of a document.
abbrev pub transcript : {Num : Type 0} → Document → List (OcrPage Num) → OcrResponse Num
transcript d shown = record { document_id = d.id; status = ocr_done; pages = shown }

module _ {Num : Type 0} (decimal : ℕ → Text) (engine : Engine) (good : ℕ → Text → Bool)
    (id : Text) where
  -- What the endpoint of the texts answers for a document that was transcribed.
  pub record IsTranscribed (pages : List PageRef) (d : Document) (r : Reply (OcrResponse Num))
      : Type 0 where
    pub shown : List (OcrPage Num)
    pub answer : r ≡ json 200 (transcript d shown)
    pub ordered : Ascending shown
    pub complete : All (λ p. any (shows engine good p.page_number) shown ≡ true) pages

  rows_shown :
      (rows : List (OcrRow Num)) (pages : List PageRef)
      → All (HasText decimal engine id good rows) pages
      → All
          (λ p.
            any (shows engine good p.page_number) (map ocr_page (results_by_document id rows))
            ≡ true)
          pages
  rows_shown rows pages =
      All-imp _ _
        (λ p h.
          any-map engine good (shows engine good p.page_number) (results_by_document id rows)
          ∙ sym (any-results_by_document engine good decimal id p.page_number rows)
          ∙ h)
        pages

  replied_pages :
      (d : Document) (rows : List (OcrRow Num)) (p : PageRef) (ps : List PageRef)
      → All (λ q. any (shows engine good q.page_number) (map ocr_page rows) ≡ true) (p ∷ ps)
      → reply_pages d rows
        ≡ json 200 (record { document_id = d.id; status = d.status; pages = map ocr_page rows })
  replied_pages d [] p ps h = absurd (cc h.0)
  replied_pages d (r ∷ rows) p ps h = refl

  row_IsTranscribed :
      (now : ℕ) (rows : List (OcrRow Num)) (p : PageRef) (ps : List PageRef) (d : Document)
      (o : Option Document)
      → All (HasText decimal engine id good rows) (p ∷ ps)
      → o ≡ some (with_status now ocr_done d)
      → IsTranscribed (p ∷ ps) d (reply_ocr (results_by_document id rows) none (scanned o))
  row_IsTranscribed now rows p ps d o texts there =
      let complete = rows_shown rows (p ∷ ps) texts in
      record {
        shown = map ocr_page (results_by_document id rows);
        answer =
            ap (λ x. reply_ocr (results_by_document id rows) none (scanned x)) there
            ∙ replied_pages (with_status now ocr_done d) (results_by_document id rows) p ps
                complete;
        ordered = results_by_document-Ascending id rows;
        complete = complete;
      }

  settled_none :
      (job_timeout : Text) (fail_fault : Option Failure) (now : ℕ) (pages : List PageRef)
      (rows : List (OcrRow Num)) (d : Document) (outcome : Option JobError) (o : Option Document)
      → outcome ≡ none
      → JobSettled job_timeout none fail_fault now id decimal engine good pages rows d outcome o
      → All (HasText decimal engine id good rows) pages × (o ≡ some (with_status now ocr_done d))
  settled_none job_timeout fail_fault now pages rows d none o e h = h
  settled_none job_timeout fail_fault now pages rows d (some x) o e h = absurd (cc e)

  -- A job with at least one page, on a document in processing, however its pages interleave and
  -- whatever its calls answer: if recognizeAll returns no error and MarkOCRDone works, the endpoint of
  -- the texts then answers 200 with the status ocr_done and pages in the order of their numbers, and
  -- for every page of the job there is one by the engine whose text passes every test that the
  -- answers of the engine for this page number pass, provided that the queries of the endpoint work.
  pub job-IsTranscribed :
      (job_timeout : Text) (fail_fault : Option Failure) (now concurrency : ℕ)
      (calls : PageRef → PageIo Num) (p : PageRef) (ps : List PageRef) (before : List (OcrRow Num))
      (ds : Documents) (d : Document) {s : Pool Num} {n : ℕ}
      → AnswersPass decimal engine id good calls
      → Runs decimal engine id concurrency calls (pool_start (p ∷ ps) before) n s
      → IsOver s
      → pool_result s ≡ none
      → find id ds ≡ some d
      → d.status ≡ processing
      → IsTranscribed (p ∷ ps) d (
          get_ocr none none
            (process_result job_timeout none fail_fault now id (pool_result s) ds)
            s.rows
            id)
  unfolding get_ocr get_document
  job-IsTranscribed job_timeout fail_fault now concurrency calls p ps before ds d {s = s} pass runs
        over fine there status =
      let settled =
        process_settles_job job_timeout none fail_fault now id decimal engine good concurrency calls
          (p ∷ ps) before ds d pass runs over there status in
      let (texts, row) =
        settled_none job_timeout fail_fault now (p ∷ ps) s.rows d (pool_result s) _ fine settled in
      row_IsTranscribed now s.rows p ps d _ texts row
