-- ===== src/Rag.antt =====
-- services/rag-documents/backend/app: the document service.
pub mod Values
pub mod Entities
pub mod Storage
pub mod Data
pub mod Ports
pub mod Ingestion
pub mod Search
pub mod UseCases
pub mod Requests
pub mod Samples
mod Tests
