-- ===== src/Extraction.antt =====
-- internal/services/extraction: the service that takes one claimed document through the language
-- model, and the poller.
pub mod Backoff
pub mod Tests
pub mod Service
pub mod Outcome
pub mod Stored
pub mod Poller
