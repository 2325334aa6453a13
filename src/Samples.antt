-- ===== src/Samples.antt =====
-- Test data that the tests of several parts share.
use tax_deeds.Text.Laws.{IsUnicode}
use tax_deeds.Failure.{plain, err, ok, Result}
use tax_deeds.Llm.Chain.{Usage}
use tax_deeds.Text.{is_space, same, rune_lower, codes, rune_upper, Text, Unicode}
use tax_deeds.Store.{ocr_done, extracting, Document}
use tax_deeds.Dto.{Onus, ExtractedMatricula, Parte, Ato}
use tax_deeds.Base.{ℕ, false, none, some, [], ◌∷◌, ◌++◌, arith, if◌then◌else◌}

-- The tables of package `unicode` of an alphabet without letters and blanks beyond ASCII.
abbrev pub ascii : Unicode
ascii = record { upper = λ c. c; lower = λ c. c; space = λ c. false }

pub ascii-IsUnicode : IsUnicode ascii
unfolding rune_upper rune_lower is_space
ascii-IsUnicode = record {
  upper_upper = λ c h. ground arith;
  lower_lower = λ c h. ground arith;
  space_upper = λ c h. ground arith;
  space_lower = λ c h. ground arith;
}

abbrev pub comprador : Parte
comprador = record {
  papel = codes " Adquirente";
  nome = codes "Ana";
  cpf_cnpj = codes "529.982.247-25";
  cpf_cnpj_valido = none;
  tipo_pessoa = codes "fisica";
}

abbrev pub venda : Ato ℕ
venda = record {
  numero = codes "R-1";
  kind = codes "registro";
  tipo = codes "compra_venda";
  date = codes "03/02/1999";
  valor = some 1000;
  moeda = [];
  descricao = [];
  partes = comprador ∷ [];
}

abbrev pub obra : Ato ℕ
obra = record {
  numero = codes "AV-2";
  kind = codes "averbacao";
  tipo = codes "construcao";
  date = [];
  valor = none;
  moeda = [];
  descricao = [];
  partes = [];
}

abbrev pub hipoteca : Onus ℕ
hipoteca = record {
  tipo = codes "Hipoteca";
  status = [];
  ato_constituicao = codes "R-3";
  ato_cancelamento = [];
  credor = [];
  valor = none;
  moeda = [];
  descricao = [];
}

-- The content of a matrícula with two atos and a lien.
abbrev pub sitio : ExtractedMatricula ℕ
sitio = record {
  numero = codes "1234";
  cartorio = record { nome = []; comarca = []; uf = codes "sp" };
  data_abertura = codes "1.2.1980";
  imovel = record { descricao = []; endereco = []; area_m2 = some 300; tipo = [] };
  atos = venda ∷ obra ∷ [];
  proprietarios = [];
  onus = hipoteca ∷ [];
}

abbrev pub tokens : Usage
tokens = record { input_tokens = 7; output_tokens = 3 }

abbrev pub quoted : Text → Text
quoted s = b'"' ∷ s ++ b'"' ∷ []

-- A decoder that knows one object.
abbrev pub decode_sitio : Text → Result (ExtractedMatricula ℕ)
decode_sitio s = if same s (codes "{x}") then ok sitio else err (plain (codes "unexpected token"))

-- A table with one document that waits for an extraction.
abbrev pub waiting : Document
waiting = record {
  id = codes "a";
  filename = codes "a.pdf";
  status = ocr_done;
  failed_stage = none;
  error_message = none;
  page_count = some 1;
  gcs_bucket = codes "b";
  gcs_pdf_object = codes "o";
  ocr_dispatched_at = some 4;
  extraction_attempts = 0;
  next_extraction_at = none;
  created_at = 1;
  updated_at = 5;
}

abbrev pub started : Document
started = record waiting { status = extracting; extraction_attempts = 1 }
