-- ===== src/Alerter.antt =====
-- internal/alerter/service.go
pub mod Match
pub mod Qdrant
pub mod Searcher
pub mod Service
mod Tests
