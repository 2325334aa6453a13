-- ===== src/Llm.antt =====
-- internal/clients/llm: the strategy that asks a language model for the content of a matrícula.
pub mod Select
pub mod Enums
pub mod Vocabulary
pub mod Parse
pub mod Chain
pub mod Prompt
pub mod Tests
