-- ===== src/Repository.antt =====
-- The journeys on the server, of apps/web/src/adapters/http-journey-repository.ts.
pub mod Errors
pub mod Rows
pub mod Requests
pub mod Plan
pub mod Replay
pub mod Reordering
pub mod Actions
pub mod Saving
mod Tests
