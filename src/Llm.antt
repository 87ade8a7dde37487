-- ===== src/Llm.antt =====
-- services/llm-client/backend/app: the service that generates answers through a paid provider.
pub mod Values
pub mod Entities
pub mod Idempotency
pub mod Estimates
pub mod Config
pub mod Registry
pub mod Generate
pub mod Dialects
pub mod Providers
