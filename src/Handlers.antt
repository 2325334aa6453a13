-- ===== src/Handlers.antt =====
-- internal/handlers and pkg/response: the endpoints of the API as functions from the request and the
-- outcome of the service to the answer.
--
-- Parsing of the multipart form and encoding of JSON are the standard library's: a request comes
-- parsed, an answer is the status code with the value that is encoded.
pub mod Upload
pub mod Answers
pub mod Polling
pub mod Tests
use tax_deeds.Failure.{Failure}
use tax_deeds.Dto.{MatriculaResponse, OnusResponse, AtosResponse, ProprietariosResponse}
use tax_deeds.Store.{status_text, Documents, Status, Document}
use tax_deeds.Text.{same, is_empty, codes, Text}
use tax_deeds.Matriculas.{
  not_found, read_atos, read_onus, read_proprietarios, broken, given_up, not_ready, refused, found,
  by_document, ReadError, get_document, AggregateReads, Read,
}
use tax_deeds.Base.{
  ℕ, zero, suc, ◌+◌, ◌-◌, ◌*◌, ◌≤◌, ◌<◌, ◌≡◌, ◌≢◌, refl, sym, ap, ◌∙◌, ◌↔◌, ◌⊎◌, inl, inr, Bool,
  true, false, ◌&&◌, ◌||◌, not, Option, none, some, List, [], ◌∷◌, ◌++◌, map, arith, ltb, leb, ◌==◌,
  if◌then◌else◌, Bool-cases, All, length,
}

-- `response.JSON(w, status, v)` or `response.Error(w, status, code, message)`.
pub data Reply (A : Type 0) : Type 0 where
  json : ℕ → A → Reply A
  error : ℕ → Text → Text → Reply A

-- writeError of handlers.Matriculas
unfoldable pub write_error : {A : Type 0} → Text → ReadError → Reply A
write_error what not_found = error 404 (codes "not_found") (what ++ codes " not found")
write_error what (not_ready status) =
    error 409 (codes "not_ready")
      (codes "matricula not extracted yet (document status: " ++ status_text status ++ codes ")")
write_error what (given_up stage msg) =
    error 409 (codes "failed")
      (codes "document processing failed at " ++ stage ++ codes ": " ++ msg)
write_error what (broken e) = error 500 (codes "internal") (codes "could not load matricula")

abbrev pub reply_read : {A : Type 0} → Text → Read A → Reply A
reply_read what (found a) = json 200 a
reply_read what (refused e) = write_error what e

module _ {Num : Type 0} (reads : AggregateReads Num) where
  -- GET /api/v1/documents/{id}/matricula
  unfoldable pub get_matricula : Option Failure → Documents → Text → Reply (MatriculaResponse Num)
  unfolding by_document write_error
  get_matricula fault ds id = reply_read (codes "document") (by_document reads fault id ds)

  -- GET /api/v1/matriculas/{id}/proprietarios
  unfoldable pub get_proprietarios : Text → Reply (ProprietariosResponse Num)
  unfolding read_proprietarios write_error
  get_proprietarios id = reply_read (codes "matricula") (read_proprietarios reads id)

  -- GET /api/v1/matriculas/{id}/atos
  unfoldable pub get_atos : Text → Text → Reply (AtosResponse Num)
  unfolding read_atos write_error
  get_atos id kind =
      if not (is_empty kind)
        && not (same kind (codes "registro"))
        && not (same kind (codes "averbacao"))
      then error 400 (codes "invalid_kind") (codes "kind must be registro or averbacao")
      else reply_read (codes "matricula") (read_atos reads id kind)

  -- GET /api/v1/matriculas/{id}/onus
  unfoldable pub get_onus : Text → Text → Reply (OnusResponse Num)
  unfolding read_onus write_error
  get_onus id status =
      if not (is_empty status)
        && not (same status (codes "ativo"))
        && not (same status (codes "cancelado"))
      then error 400 (codes "invalid_status") (codes "status must be ativo or cancelado")
      else reply_read (codes "matricula") (read_onus reads id status)

-- UploadResponse
pub record UploadResponse : Type 0 where
  pub id : Text
  pub status : Status

-- DocumentResponse
pub record DocumentResponse : Type 0 where
  pub id : Text
  pub filename : Text
  pub status : Status
  pub page_count : Option ℕ
  pub failed_stage : Option Text
  pub error_message : Option Text
  pub created_at : ℕ
  pub updated_at : ℕ

unfoldable pub document_response : Document → DocumentResponse
document_response d = record {
  id = d.id;
  filename = d.filename;
  status = d.status;
  page_count = d.page_count;
  failed_stage = d.failed_stage;
  error_message = d.error_message;
  created_at = d.created_at;
  updated_at = d.updated_at;
}

abbrev pub reply_document : Read Document → Reply DocumentResponse
reply_document (found d) = json 200 (document_response d)
reply_document (refused not_found) = error 404 (codes "not_found") (codes "document not found")
reply_document (refused _) = error 500 (codes "internal") (codes "could not load the document")

-- GET /api/v1/documents/{id}
unfoldable pub get_status : Option Failure → Documents → Text → Reply DocumentResponse
unfolding get_document document_response
get_status fault ds id = reply_document (get_document fault id ds)

-- GET /healthz
unfoldable pub get_health : Reply (Text × Text)
get_health = json 200 (codes "status", codes "ok")

-- GET /readyz, given the ping of the database.
unfoldable pub get_ready : Option Failure → Reply (Text × Text)
get_ready (some e) = error 503 (codes "db_unavailable") (codes "database is unreachable")
get_ready none = json 200 (codes "status", codes "ready")
