-- ===== src/Store.antt =====
-- internal/store/documents.go, internal/store/ocr.go and cmd/ocr/store.go: the tables documents,
-- pages and ocr_results, and the SQL statements that the program issues on them.
--
-- A statement is a function on the tables, with the instant `now()` as an argument. Instants and
-- durations are counted in nanoseconds from before any row.
pub mod Statements
pub mod Find
pub mod Machine
pub mod Claims
pub mod Tests
use tax_deeds.Text.{codes, same, Text}
use tax_deeds.Base.{
  ℕ, zero, suc, ◌+◌, ◌-◌, ◌*◌, ◌≤◌, ◌<◌, ◌≡◌, ◌≢◌, refl, sym, ap, ◌∙◌, ◌↔◌, ◌⊎◌, inl, inr, Bool,
  true, false, ◌&&◌, ◌||◌, not, Option, none, some, List, [], ◌∷◌, ◌++◌, map, arith, ltb, leb, ◌==◌,
  if◌then◌else◌, Bool-cases, All, length,
}

-- The values of documents.status.
pub data Status : Type 0 where
  uploaded processing ocr_done extracting extracted failed : Status

abbrev pub same_status : Status → Status → Bool
same_status uploaded uploaded = true
same_status processing processing = true
same_status ocr_done ocr_done = true
same_status extracting extracting = true
same_status extracted extracted = true
same_status failed failed = true
same_status _ _ = false

-- The text that a status is stored and shown as.
abbrev pub status_text : Status → Text
status_text uploaded = codes "uploaded"
status_text processing = codes "processing"
status_text ocr_done = codes "ocr_done"
status_text extracting = codes "extracting"
status_text extracted = codes "extracted"
status_text failed = codes "failed"

pub record Document : Type 0 where
  pub id : Text
  pub filename : Text
  pub status : Status
  pub failed_stage : Option Text
  pub error_message : Option Text
  pub page_count : Option ℕ
  pub gcs_bucket : Text
  pub gcs_pdf_object : Text
  pub ocr_dispatched_at : Option ℕ
  pub extraction_attempts : ℕ
  pub next_extraction_at : Option ℕ
  pub created_at : ℕ
  pub updated_at : ℕ

-- A row of pages, without the identifier that the database generates and nothing reads.
pub record Page : Type 0 where
  pub document_id : Text
  pub page_number : ℕ
  pub gcs_object : Text

-- A row of ocr_results, without the instant of its insertion; `Num` is the type of the confidence.
-- The engine is never NULL, since UpsertPage, the one statement that writes rows, gives it.
pub record OcrRow (Num : Type 0) : Type 0 where
  pub document_id : Text
  pub page_number : ℕ
  pub text : Text
  pub confidence : Option Num
  pub engine : Text

-- A duration of Go, which may be negative: `ahead n` is n nanoseconds, `back n` is -n.
pub data Duration : Type 0 where
  ahead back : ℕ → Duration

abbrev pub later : ℕ → Duration → ℕ
later t (ahead n) = t + n
later t (back n) = t - n

abbrev pub is_positive : Duration → Bool
is_positive (ahead n) = ltb 0 n
is_positive (back n) = false

abbrev pub Documents : Type 0
Documents = List Document

-- `SELECT ... WHERE id = $1`
unfoldable pub find : Text → Documents → Option Document
find id [] = none
find id (d ∷ ds) = if same d.id id then some d else find id ds

-- `UPDATE documents SET ... WHERE ...`
unfoldable pub update_rows : (Document → Bool) → (Document → Document) → Documents → Documents
update_rows test set [] = []
update_rows test set (d ∷ ds) = (if test d then set d else d) ∷ update_rows test set ds

-- `tag.RowsAffected()`
unfoldable pub count_rows : (Document → Bool) → Documents → ℕ
count_rows test [] = 0
count_rows test (d ∷ ds) = (if test d then 1 else 0) + count_rows test ds

-- `WHERE id = $1 AND status = $2`
abbrev pub at_status : Text → Status → Document → Bool
at_status id from d = same d.id id && same_status d.status from
