-- ===== src/Matriculas.antt =====
-- internal/services/matriculas/matriculas.go: the read operations over the stored aggregates.
--
-- The queries of store.Matriculas are behind the record AggregateReads.
use tax_deeds.Queries.{select}
use tax_deeds.Text.{is_empty, codes, same, Text}
use tax_deeds.Dto.{ProprietariosResponse, AtosResponse, OnusResponse, Ato, MatriculaResponse}
use tax_deeds.Store.{extracted, failed, find, Documents, Document, Status}
use tax_deeds.Failure.{ok, err, Result, Failure}
use tax_deeds.Base.{any, Bool, ◌&&◌, ◌||◌, Option, none, some, List, [], ◌∷◌}

-- What a read operation returns instead of an answer: store.ErrNotFound, NotReadyError, FailedError,
-- or an error of the database.
pub data ReadError : Type 0 where
  not_found : ReadError
  not_ready : Status → ReadError
  given_up : Text → Text → ReadError
  broken : Failure → ReadError

pub data Read {ℓ} (A : Type ℓ) : Type ℓ where
  found : A → Read A
  refused : ReadError → Read A

abbrev pub answer_with {ℓ κ} : {A : Type ℓ} {B : Type κ} → (A → B) → Read A → Read B
answer_with f (found a) = found (f a)
answer_with f (refused e) = refused e

-- GetByDocumentID and GetByID of store.Matriculas: `ok none` is ErrNotFound.
pub record AggregateReads (Num : Type 0) : Type 0 where
  pub get_by_document_id : Text → Result (Option (MatriculaResponse Num))
  pub get_by_id : Text → Result (Option (MatriculaResponse Num))

abbrev pub as_read {ℓ} : {A : Type ℓ} → Result (Option A) → Read A
as_read (err e) = refused (broken e)
as_read (ok none) = refused not_found
as_read (ok (some a)) = found a

abbrev pub scanned : Option Document → Read Document
scanned none = refused not_found
scanned (some d) = found d

-- GetByID of store.Documents, whose query may fail.
unfoldable pub get_document : Option Failure → Text → Documents → Read Document
get_document (some e) id ds = refused (broken e)
get_document none id ds = scanned (find id ds)

abbrev pub text_or_empty : Option Text → Text
text_or_empty none = []
text_or_empty (some s) = s

abbrev pub transfer_tipos : List Text
transfer_tipos =
    codes "compra_venda"
    ∷ codes "doacao"
    ∷ codes "partilha"
    ∷ codes "permuta"
    ∷ codes "adjudicacao"
    ∷ codes "arrematacao"
    ∷ codes "dacao_em_pagamento"
    ∷ codes "heranca"
    ∷ codes "usucapiao"
    ∷ []

module _ {Num : Type 0} where
  unfoldable pub for_status :
      AggregateReads Num → Text → Document → Status → Read (MatriculaResponse Num)
  for_status reads id d extracted = as_read (reads.get_by_document_id id)
  for_status reads id d failed =
      refused (given_up (text_or_empty d.failed_stage) (text_or_empty d.error_message))
  for_status reads id d s = refused (not_ready s)

  abbrev pub for_document : AggregateReads Num → Text → Read Document → Read (MatriculaResponse Num)
  for_document reads id (refused e) = refused e
  for_document reads id (found d) = for_status reads id d d.status

  unfoldable pub by_document :
      AggregateReads Num → Option Failure → Text → Documents → Read (MatriculaResponse Num)
  unfolding get_document for_status
  by_document reads fault id ds = for_document reads id (get_document fault id ds)

  abbrev pub is_transfer : Ato Num → Bool
  is_transfer a = same a.kind (codes "registro") && any (λ t. same a.tipo t) transfer_tipos

  unfoldable pub ownership_chain : List (Ato Num) → List (Ato Num)
  unfolding select
  ownership_chain = select is_transfer

  unfoldable pub owners_view : MatriculaResponse Num → ProprietariosResponse Num
  unfolding ownership_chain
  owners_view m = record {
    matricula_id = m.id;
    numero = m.content.numero;
    proprietarios = m.content.proprietarios;
    cadeia_dominial = ownership_chain m.content.atos;
  }

  unfoldable pub atos_view : Text → MatriculaResponse Num → AtosResponse Num
  unfolding select
  atos_view kind m = record {
    matricula_id = m.id;
    numero = m.content.numero;
    kind = kind;
    atos = select (λ a. is_empty kind || same a.kind kind) m.content.atos;
  }

  unfoldable pub onus_view : Text → MatriculaResponse Num → OnusResponse Num
  unfolding select
  onus_view status m = record {
    matricula_id = m.id;
    numero = m.content.numero;
    status = status;
    onus = select (λ o. is_empty status || same o.status status) m.content.onus;
  }

  -- Proprietarios
  unfoldable pub read_proprietarios : AggregateReads Num → Text → Read (ProprietariosResponse Num)
  unfolding owners_view
  read_proprietarios reads id = answer_with owners_view (as_read (reads.get_by_id id))

  -- Atos
  unfoldable pub read_atos : AggregateReads Num → Text → Text → Read (AtosResponse Num)
  unfolding atos_view
  read_atos reads id kind = answer_with (atos_view kind) (as_read (reads.get_by_id id))

  -- Onus
  unfoldable pub read_onus : AggregateReads Num → Text → Text → Read (OnusResponse Num)
  unfolding onus_view
  read_onus reads id status = answer_with (onus_view status) (as_read (reads.get_by_id id))
