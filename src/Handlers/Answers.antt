-- ===== src/Handlers/Answers.antt =====
-- What the endpoints answer.
use tax_deeds.Llm.Chain.{starts_with}
use tax_deeds.Store.{Document}
use tax_deeds.Failure.{Result}
use tax_deeds.Text.{codes, same, Text}
use tax_deeds.Handlers.{error}
use tax_deeds.Handlers.Upload.{reply_created, pdf_magic, form_file, read_full, upload_head, upload}
use tax_deeds.Base.{ℕ, ◌≡◌, refl, List, [], ◌∷◌, arith, if◌then◌else◌}

-- An upload answers 202 with what CreateAndProcess made of exactly the uploaded bytes if they start
-- with "%PDF-", 500 if that failed, and 415 without calling it if they do not.
pub upload_lem :
    (create_and_process : Text → List ℕ → Result Document) (filename : Text) (bytes : List ℕ)
    → upload create_and_process (form_file filename bytes) ≡ (
        if starts_with pdf_magic bytes
        then reply_created (create_and_process filename bytes)
        else error 415 (codes "not_pdf") (codes "file is not a PDF"))
unfolding upload upload_head read_full same
upload_lem create name [] = refl
upload_lem create name (a ∷ []) = ground arith
upload_lem create name (a ∷ b ∷ []) = ground arith
upload_lem create name (a ∷ b ∷ c ∷ []) = ground arith
upload_lem create name (a ∷ b ∷ c ∷ d ∷ []) = ground arith
upload_lem create name (a ∷ b ∷ c ∷ d ∷ e ∷ rest) = ground arith
