-- ===== src/Ingestion.antt =====
-- internal/ingestion: the two producers of events.
pub mod News
pub mod Filings
mod Tests
