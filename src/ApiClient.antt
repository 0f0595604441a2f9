-- ===== src/ApiClient.antt =====
-- The API client, packages/api-client/src.
pub mod Negotiation
mod Tests
