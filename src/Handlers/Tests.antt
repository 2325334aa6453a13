-- ===== src/Handlers/Tests.antt =====
-- The theorems on the endpoints at small requests.
use tax_deeds.Handlers.Answers.{upload_lem}
use tax_deeds.Store.Machine.Step.{IsTerminal}
use tax_deeds.Normalize.{normalize}
use tax_deeds.Store.Tests.{second_try}
use tax_deeds.Llm.Chain.{starts_with}
use tax_deeds.Samples.{sitio, ascii, waiting}
use tax_deeds.Store.Find.{IsKeyed}
use tax_deeds.Failure.{Result, ok}
use tax_deeds.Store.Machine.{run}
use tax_deeds.Matriculas.{for_status, get_document, by_document, AggregateReads}
use tax_deeds.Text.{same, codes, Text}
use tax_deeds.Handlers.Polling.{polling_ends, IsNotReady}
use tax_deeds.Dto.{MatriculaResponse}
use tax_deeds.Handlers.{error, get_matricula}
use tax_deeds.Handlers.Upload.{reply_created, pdf_magic, form_file, upload}
use tax_deeds.Store.{extracted, Document, Documents, find}
use tax_deeds.Base.{ℕ, ◌≡◌, refl, ◌↔◌, none, some, List, [], ◌∷◌, if◌then◌else◌}

abbrev stored : MatriculaResponse ℕ
stored = record { id = codes "m"; document_id = codes "a"; content = normalize ascii sitio }

abbrev reads : AggregateReads ℕ
reads = record { get_by_document_id = λ id. ok (some stored); get_by_id = λ id. ok (some stored) }

abbrev accept : Text → List ℕ → Result Document
accept filename bytes = ok waiting

abbrev table : Documents
table = record waiting { status = extracted; extraction_attempts = 1 } ∷ []

table-IsKeyed : IsKeyed table
unfolding find
table-IsKeyed = (refl, tt)

found_extracted :
    find (codes "a") table ≡ some (record waiting { status = extracted; extraction_attempts = 1 })
unfolding find same
found_extracted = refl

answered_ready : IsNotReady (get_matricula reads none table (codes "a")) → ⊥
unfolding get_matricula by_document get_document for_status find same
answered_ready h = cc h

upload_lem_example : upload accept (form_file (codes "a.pdf") (codes "%PDF-1.7")) ≡ (
    if starts_with pdf_magic (codes "%PDF-1.7")
    then reply_created (accept (codes "a.pdf") (codes "%PDF-1.7"))
    else error 415 (codes "not_pdf") (codes "file is not a PDF"))
upload_lem_example = upload_lem accept (codes "a.pdf") (codes "%PDF-1.7")

polling_ends_example :
    (IsNotReady (get_matricula reads none table (codes "a")) ↔ (IsTerminal extracted → ⊥))
    × (IsNotReady (get_matricula reads none (run 3 second_try table) (codes "a"))
        → IsNotReady (get_matricula reads none table (codes "a")))
polling_ends_example =
    polling_ends reads (codes "a") 3 second_try table
      (record waiting { status = extracted; extraction_attempts = 1 }) table-IsKeyed found_extracted
