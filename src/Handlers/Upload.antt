-- ===== src/Handlers/Upload.antt =====
-- internal/handlers/documents.go (Upload) and internal/handlers/ocr.go.
use tax_deeds.Handlers.{json, error, UploadResponse, Reply}
use tax_deeds.Extraction.Service.{results_by_document}
use tax_deeds.Failure.{ok, err, Failure, Result}
use tax_deeds.Store.{Documents, Status, Document, OcrRow}
use tax_deeds.Text.{same, Text, codes}
use tax_deeds.Matriculas.{not_found, found, refused, Read, get_document}
use tax_deeds.Base.{ℕ, zero, suc, Option, none, some, List, [], ◌∷◌, ◌++◌, map, if◌then◌else◌}

-- What r.FormFile("file") gives: the file's name and bytes, or one of the two kinds of error.
pub data FormFile : Type 0 where
  form_file : Text → List ℕ → FormFile
  form_too_large : FormFile  -- http.MaxBytesError
  form_missing : FormFile

abbrev pub pdf_magic : List ℕ
pdf_magic = codes "%PDF-"

-- `io.ReadFull(file, head)` with the rest of the file; none at an early end.
unfoldable pub read_full : ℕ → List ℕ → Option (List ℕ × List ℕ)
read_full zero bytes = some ([], bytes)
read_full (suc n) [] = none
read_full (suc n) (b ∷ bytes) = elim (read_full n bytes) [
  | none ↦ none
  | some p ↦ some (b ∷ p.0, p.1)
]

abbrev pub reply_created : Result Document → Reply UploadResponse
reply_created (err e) = error 500 (codes "internal") (codes "could not store the document")
reply_created (ok doc) = json 202 (record { id = doc.id; status = doc.status })

-- The head is read again before the rest (io.MultiReader).
unfoldable pub upload_head :
    (Text → List ℕ → Result Document) → Text → Option (List ℕ × List ℕ) → Reply UploadResponse
upload_head create_and_process filename none =
    error 415 (codes "not_pdf") (codes "file is not a PDF")
upload_head create_and_process filename (some (head, rest)) =
    if same head pdf_magic
    then reply_created (create_and_process filename (head ++ rest))
    else error 415 (codes "not_pdf") (codes "file is not a PDF")

-- POST /api/v1/documents, given CreateAndProcess.
unfoldable pub upload : (Text → List ℕ → Result Document) → FormFile → Reply UploadResponse
unfolding upload_head read_full
upload create_and_process form_too_large =
    error 413 (codes "too_large") (codes "upload exceeds the size limit")
upload create_and_process form_missing =
    error 400 (codes "bad_request") (codes "multipart field \"file\" is required")
upload create_and_process (form_file filename bytes) =
    upload_head create_and_process filename (read_full 5 bytes)

-- OCRPage and OCRResponse
pub record OcrPage (Num : Type 0) : Type 0 where
  pub page_number : ℕ
  pub text : Text
  pub confidence : Option Num
  pub engine : Text

pub record OcrResponse (Num : Type 0) : Type 0 where
  pub document_id : Text
  pub status : Status
  pub pages : List (OcrPage Num)

module _ {Num : Type 0} where
  abbrev pub ocr_page : OcrRow Num → OcrPage Num
  ocr_page r = record {
    page_number = r.page_number;
    text = r.text;
    confidence = r.confidence;
    engine = r.engine;
  }

  abbrev pub reply_pages : Document → List (OcrRow Num) → Reply (OcrResponse Num)
  reply_pages doc [] =
      error 409 (codes "not_ready") (codes "OCR has not completed for this document")
  reply_pages doc (r ∷ rows) =
      json 200
        (record { document_id = doc.id; status = doc.status; pages = map ocr_page (r ∷ rows) })

  abbrev pub reply_ocr :
      List (OcrRow Num) → Option Failure → Read Document → Reply (OcrResponse Num)
  reply_ocr rows fault (refused not_found) =
      error 404 (codes "not_found") (codes "document not found")
  reply_ocr rows fault (refused _) =
      error 500 (codes "internal") (codes "could not load OCR results")
  reply_ocr rows (some e) (found doc) =
      error 500 (codes "internal") (codes "could not load OCR results")
  reply_ocr rows none (found doc) = reply_pages doc rows

  -- GET /api/v1/documents/{id}/ocr, with OCRResults of the ingest service.
  unfoldable pub get_ocr :
      Option Failure
      → Option Failure
      → Documents
      → List (OcrRow Num)
      → Text
      → Reply (OcrResponse Num)
  unfolding get_document results_by_document
  get_ocr document_fault results_fault ds rows id =
      reply_ocr (results_by_document id rows) results_fault (get_document document_fault id ds)
