-- ===== src/Dto.antt =====
-- internal/dto/matricula.go, internal/dto/documents.go and internal/dto/ocr.go: the structured
-- content of a matrícula and the answers of the API.
--
-- A pointer is an `Option`. `Num` is the type of the float64 fields, of which the program only
-- tests whether they are there, stores and returns them.
use tax_deeds.Base.{Bool, Option, List, [], ◌∷◌}
use tax_deeds.Text.{codes, Text}

pub record Cartorio : Type 0 where
  pub nome : Text
  pub comarca : Text
  pub uf : Text

-- AtoCompraVenda to AtoOutro; other values may come too.
abbrev pub ato_tipos : List Text
ato_tipos =
    codes "compra_venda"
    ∷ codes "doacao"
    ∷ codes "partilha"
    ∷ codes "hipoteca"
    ∷ codes "penhora"
    ∷ codes "alienacao_fiduciaria"
    ∷ codes "cancelamento"
    ∷ codes "construcao"
    ∷ codes "outro"
    ∷ []

pub record Parte : Type 0 where
  pub papel : Text
  pub nome : Text
  pub cpf_cnpj : Text
  pub cpf_cnpj_valido : Option Bool
  pub tipo_pessoa : Text

module _ (Num : Type 0) where
  pub record Imovel : Type 0 where
    pub descricao : Text
    pub endereco : Text
    pub area_m2 : Option Num
    pub tipo : Text

  pub record Ato : Type 0 where
    pub numero : Text
    pub kind : Text
    pub tipo : Text
    pub date : Text  -- `Data`
    pub valor : Option Num
    pub moeda : Text
    pub descricao : Text
    pub partes : List Parte

  pub record Proprietario : Type 0 where
    pub nome : Text
    pub cpf_cnpj : Text
    pub cpf_cnpj_valido : Option Bool
    pub tipo_pessoa : Text
    pub fracao : Option Num
    pub ato_aquisicao : Text

  pub record Onus : Type 0 where
    pub tipo : Text
    pub status : Text
    pub ato_constituicao : Text
    pub ato_cancelamento : Text
    pub credor : Text
    pub valor : Option Num
    pub moeda : Text
    pub descricao : Text

  pub record ExtractedMatricula : Type 0 where
    pub numero : Text
    pub cartorio : Cartorio
    pub data_abertura : Text
    pub imovel : Imovel
    pub atos : List Ato
    pub proprietarios : List Proprietario
    pub onus : List Onus

  pub record MatriculaResponse : Type 0 where
    pub id : Text
    pub document_id : Text
    pub content : ExtractedMatricula  -- the embedded struct

  pub record ProprietariosResponse : Type 0 where
    pub matricula_id : Text
    pub numero : Text
    pub proprietarios : List Proprietario
    pub cadeia_dominial : List Ato

  pub record AtosResponse : Type 0 where
    pub matricula_id : Text
    pub numero : Text
    pub kind : Text
    pub atos : List Ato

  pub record OnusResponse : Type 0 where
    pub matricula_id : Text
    pub numero : Text
    pub status : Text
    pub onus : List Onus
