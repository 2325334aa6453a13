-- ===== src/Llm/Prompt.antt =====
-- internal/clients/llm/prompt.go and internal/clients/llm/stub.go: the system prompt, and the strategy
-- that answers without a model.
use tax_deeds.Text.{codes, Text}
use tax_deeds.Base.{ℕ, ◌≡◌, refl, true, List, [], ◌∷◌, ◌++◌, All}
use tax_deeds.Llm.Chain.{Answer, no_usage, contains}
use tax_deeds.Llm.Enums.{allowed_kinds, allowed_papeis, allowed_tipos}
use tax_deeds.Dto.{ExtractedMatricula, ato_tipos}
use tax_deeds.Failure.{Result, ok, err}

-- PromptVersion
abbrev pub prompt_version : Text
prompt_version = codes "v1"

abbrev pub joined_by : ℕ → List Text → Text
joined_by separator [] = []
joined_by separator (s ∷ []) = s
joined_by separator (s ∷ t ∷ rest) = s ++ separator ∷ joined_by separator (t ∷ rest)

abbrev prompt_lines : List Text
prompt_lines =
    codes
      "Você é um analista de registros imobiliários brasileiros. Sua tarefa é ler o texto OCR de uma matrícula de imóvel e extrair seus dados em JSON."
    ∷ []
    ∷ codes
        "Responda APENAS com um objeto JSON válido, sem texto adicional, sem markdown, sem cercas de código. O objeto deve ter exatamente esta estrutura:"
    ∷ []
    ∷ codes "{"
    ∷ codes "  \"numero\": \"número da matrícula como impresso, ex: 45.678\","
    ∷ codes "  \"cartorio\": {\"nome\": \"...\", \"comarca\": \"...\", \"uf\": \"SP\"},"
    ∷ codes "  \"data_abertura\": \"data ISO YYYY-MM-DD, ou omita se ausente\","
    ∷ codes "  \"imovel\": {"
    ∷ codes "    \"descricao\": \"descrição completa do imóvel\","
    ∷ codes "    \"endereco\": \"endereço, se identificável\","
    ∷ codes "    \"area_m2\": 127.42,"
    ∷ codes "    \"tipo\": \"apartamento|casa|lote|terreno|rural|urbano|outro\""
    ∷ codes "  },"
    ∷ codes "  \"atos\": ["
    ∷ codes "    {"
    ∷ codes "      \"numero\": \"como impresso: R-1, AV-3, R-4...\","
    ∷ codes "      \"kind\": \"registro|averbacao\","
    ∷ codes
        "      \"tipo\": \"compra_venda|doacao|partilha|hipoteca|penhora|alienacao_fiduciaria|cancelamento|construcao|outro\","
    ∷ codes "      \"data\": \"YYYY-MM-DD\","
    ∷ codes "      \"valor\": 180000.00,"
    ∷ codes "      \"moeda\": \"BRL (ou Cr$, CZ$, NCz$ em matrículas antigas)\","
    ∷ codes "      \"descricao\": \"resumo fiel do ato\","
    ∷ codes "      \"partes\": ["
    ∷ codes
        "        {\"papel\": \"transmitente|adquirente|credor|devedor|interessado\", \"nome\": \"...\", \"cpf_cnpj\": \"somente como impresso\", \"tipo_pessoa\": \"fisica|juridica\"}"
    ∷ codes "      ]"
    ∷ codes "    }"
    ∷ codes "  ],"
    ∷ codes "  \"proprietarios\": ["
    ∷ codes
        "    {\"nome\": \"...\", \"cpf_cnpj\": \"...\", \"tipo_pessoa\": \"fisica|juridica\", \"fracao\": 1.0, \"ato_aquisicao\": \"numero do ato que adquiriu, ex: R-4\"}"
    ∷ codes "  ],"
    ∷ codes "  \"onus\": ["
    ∷ codes
        "    {\"tipo\": \"hipoteca|penhora|alienacao_fiduciaria|usufruto|servidao|indisponibilidade|outro\", \"ato_constituicao\": \"ex: R-2\", \"ato_cancelamento\": \"ex: AV-3, apenas se cancelado\", \"credor\": \"...\", \"valor\": 120000.00, \"moeda\": \"BRL\", \"descricao\": \"...\"}"
    ∷ codes "  ]"
    ∷ codes "}"
    ∷ []
    ∷ codes "Regras:"
    ∷ codes
        "- \"atos\" deve conter TODOS os registros (R-n) e averbações (Av-n/AV-n) na ordem em que aparecem no documento."
    ∷ codes
        "- \"proprietarios\" é o retrato ATUAL: quem detém a propriedade após o último ato, com a fração de cada um."
    ∷ codes
        "- \"onus\" lista todo gravame constituído no documento; inclua os cancelados apontando \"ato_cancelamento\"."
    ∷ codes "- Omita campos que não constam no documento; nunca invente valores."
    ∷ codes
        "- Datas sempre em YYYY-MM-DD. Valores numéricos sem separador de milhar, ponto como decimal."
    ∷ []

-- systemPrompt
unfoldable pub system_prompt : Text
system_prompt = joined_by 10 prompt_lines

-- A vocabulary as the prompt spells it, in quotes and with bars between its words.
abbrev spelled : List Text → Text
spelled words = b'"' ∷ joined_by b'|' words ++ b'"' ∷ []

-- The model is asked for exactly the words that validateEnums accepts, and for the tipos of the atos
-- that internal/dto names.
prompt_vocabularies :
    All
      (λ words. contains (spelled words) system_prompt ≡ true)
      (allowed_kinds ∷ allowed_papeis ∷ allowed_tipos ∷ ato_tipos ∷ [])
unfolding system_prompt contains
prompt_vocabularies = (refl, (refl, (refl, (refl, tt))))

module _ {Num : Type 0} where
  abbrev pub canned :
      Text → Result (ExtractedMatricula Num) → Result (ExtractedMatricula Num × Text)
  canned fixture (ok m) = ok (m, fixture)
  canned fixture (err e) = err e

  -- ExtractMatricula of stub; `decode` is json.Unmarshal, `fixture` the embedded file.
  unfoldable pub stub_extract :
      (Text → Result (ExtractedMatricula Num))
      → Text
      → Text
      → Answer (ExtractedMatricula Num × Text)
  stub_extract decode fixture ocr_text = record {
    result = canned fixture (decode fixture);
    usage = no_usage;
  }
