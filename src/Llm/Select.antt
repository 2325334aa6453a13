-- ===== src/Llm/Select.antt =====
-- New of internal/clients/llm/extractor.go; whether the libraries build their clients is an input.
use tax_deeds.Failure.{plain, wrapped, err, ok, Result, Failure}
use tax_deeds.Text.{codes, same, Text}
use tax_deeds.Base.{Option, none, some, ◌++◌, if◌then◌else◌}

pub data ExtractorKind : Type 0 where
  anthropic_extractor : Text → ExtractorKind  -- model
  ollama_extractor : Text → Text → ExtractorKind  -- model and server URL
  stub_extractor : ExtractorKind

abbrev pub built_as : Option Failure → Text → ExtractorKind → Result ExtractorKind
built_as none what kind = ok kind
built_as (some e) what kind = err (wrapped what e)

-- `fault` is the error of the library's New for a provider.
unfoldable pub new_extractor :
    (Text → Text) → (ExtractorKind → Option Failure) → Text → Text → Text → Result ExtractorKind
new_extractor quote fault provider model base_url =
    if same provider (codes "anthropic")
    then built_as (fault (anthropic_extractor model)) (codes "langchain anthropic")
        (anthropic_extractor model)
    else if same provider (codes "ollama")
    then built_as (fault (ollama_extractor model base_url)) (codes "langchain ollama")
        (ollama_extractor model base_url)
    else if same provider (codes "stub")
    then ok stub_extractor
    else err (
        plain (
          codes "unknown LLM provider "
          ++ quote provider
          ++ codes " (want anthropic, ollama or stub)"))
