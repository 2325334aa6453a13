-- ===== src/Store/Statements.antt =====
-- The statements on the table documents: the methods of store.Documents and the two of the OCR
-- worker's pgStore that write documents.
use tax_deeds.Text.{codes, same, Text}
use tax_deeds.Store.{
  later, at_status, processing, find, ocr_done, extracting, count_rows, same_status, failed,
  uploaded, update_rows, Document, Documents, Status, Duration,
}
use tax_deeds.Base.{
  ℕ, ◌+◌, Bool, true, ◌&&◌, ◌||◌, not, Option, none, some, [], ◌∷◌, ◌++◌, ltb, leb, ◌==◌,
  if◌then◌else◌,
}

abbrev pub new_document : ℕ → Text → Text → Text → Text → Document
new_document now id filename bucket object = record {
  id = id;
  filename = filename;
  status = uploaded;
  failed_stage = none;
  error_message = none;
  page_count = none;
  gcs_bucket = bucket;
  gcs_pdf_object = object;
  ocr_dispatched_at = none;
  extraction_attempts = 0;
  next_extraction_at = none;
  created_at = now;
  updated_at = now;
}

-- An INSERT, given the row that has the identifier already: the primary key refuses a second one.
unfoldable pub insert_unless : Option Document → Document → Documents → Option Document × Documents
insert_unless none d ds = (some d, ds ++ d ∷ [])
insert_unless (some other) d ds = (none, ds)

unfoldable pub create : ℕ → Text → Text → Text → Text → Documents → Option Document × Documents
unfolding insert_unless
create now id filename bucket object ds =
    insert_unless (find id ds) (new_document now id filename bucket object) ds

abbrev pub with_status : ℕ → Status → Document → Document
with_status now to d = record d { status = to; updated_at = now }

-- UpdateStatus; the flag says whether the document was in the status `from`.
unfoldable pub update_status : ℕ → Text → Status → Status → Documents → Bool × Documents
update_status now id from to ds = (
  count_rows (at_status id from) ds == 1,
  update_rows (at_status id from) (with_status now to) ds,
)

abbrev pub with_failure : ℕ → Text → Text → Document → Document
with_failure now stage message d = record d {
  status = failed;
  failed_stage = some stage;
  error_message = some message;
  updated_at = now;
}

-- MarkFailed of store.Documents
unfoldable pub mark_failed : ℕ → Text → Status → Text → Text → Documents → Bool × Documents
mark_failed now id from stage message ds = (
  count_rows (at_status id from) ds == 1,
  update_rows (at_status id from) (with_failure now stage message) ds,
)

abbrev pub has_id : Text → Document → Bool
has_id id d = same d.id id

unfoldable pub set_page_count : ℕ → Text → ℕ → Documents → Documents
set_page_count now id n =
    update_rows (has_id id) (λ d. record d { page_count = some n; updated_at = now })

unfoldable pub set_ocr_dispatched : ℕ → Text → Documents → Documents
set_ocr_dispatched now id =
    update_rows (has_id id) (λ d. record d { ocr_dispatched_at = some now; updated_at = now })

-- `next_extraction_at IS NULL OR next_extraction_at <= now()`
abbrev pub is_due : ℕ → Document → Bool
is_due now d = elim d.next_extraction_at [ none ↦ true | some t ↦ leb t now ]

abbrev pub is_claimable : ℕ → ℕ → Document → Bool
is_claimable max now d =
    same_status d.status ocr_done && is_due now d && ltb d.extraction_attempts max

-- `ORDER BY updated_at LIMIT 1`, among the rows that pass a test.
unfoldable pub oldest : (Document → Bool) → Documents → Option Document
oldest test [] = none
oldest test (d ∷ ds) =
    let rest = oldest test ds in
    if test d
    then elim rest [
      | none ↦ some d
      | some e ↦ if leb d.updated_at e.updated_at then some d else some e
    ]
    else rest

abbrev pub claimed : ℕ → Document → Document
claimed now d = record d {
  status = extracting;
  extraction_attempts = d.extraction_attempts + 1;
  updated_at = now;
}

-- The UPDATE of a claim, given the row that the subquery picked.
unfoldable pub claim_picked : ℕ → Option Document → Documents → Option Document × Documents
claim_picked now none ds = (none, ds)
claim_picked now (some d) ds = (some (claimed now d), update_rows (has_id d.id) (claimed now) ds)

-- ClaimForExtraction; a negative limit of attempts does the same as 0. The rows for which `locked`
-- holds are held by other claims and are skipped.
unfoldable pub claim : ℕ → ℕ → (Document → Bool) → Documents → Option Document × Documents
unfolding claim_picked
claim max now locked ds =
    claim_picked now (oldest (λ d. is_claimable max now d && not (locked d)) ds) ds

abbrev pub requeued : ℕ → Duration → Document → Document
requeued now backoff d = record d {
  status = ocr_done;
  next_extraction_at = some (later now backoff);
  updated_at = now;
}

unfoldable pub return_for_retry : ℕ → Text → Duration → Documents → Documents
return_for_retry now id backoff = update_rows (at_status id extracting) (requeued now backoff)

abbrev pub is_exhausted : ℕ → Document → Bool
is_exhausted max d = same_status d.status ocr_done && leb max d.extraction_attempts

-- FailExhausted, with the number of rows.
unfoldable pub fail_exhausted : ℕ → ℕ → Documents → ℕ × Documents
fail_exhausted now max ds = (
  count_rows (is_exhausted max) ds,
  update_rows (is_exhausted max)
      (with_failure now (codes "extraction") (codes "extraction attempts exhausted")) ds,
)

-- MarkOCRDone of pgStore
unfoldable pub mark_ocr_done : ℕ → Text → Documents → Bool × Documents
mark_ocr_done now id ds = (
  count_rows (at_status id processing) ds == 1,
  update_rows (at_status id processing) (with_status now ocr_done) ds,
)

-- MarkFailed of pgStore
unfoldable pub mark_ocr_failed : ℕ → Text → Text → Documents → Documents
mark_ocr_failed now id message =
    update_rows (at_status id processing) (with_failure now (codes "ocr") message)

abbrev pub is_stuck : ℕ → Document → Bool
is_stuck cutoff d =
    (same_status d.status processing || same_status d.status extracting) && ltb d.updated_at cutoff

unfoldable pub insert_by_age : Document → Documents → Documents
insert_by_age d [] = d ∷ []
insert_by_age d (e ∷ ds) =
    let rest = insert_by_age d ds in if leb d.updated_at e.updated_at then d ∷ e ∷ ds else e ∷ rest

-- StuckDocuments, for the rows last written before `cutoff`.
unfoldable pub stuck_documents : ℕ → Documents → Documents
unfolding insert_by_age
stuck_documents cutoff [] = []
stuck_documents cutoff (d ∷ ds) =
    let rest = stuck_documents cutoff ds in if is_stuck cutoff d then insert_by_age d rest else rest
