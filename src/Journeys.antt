-- ===== src/Journeys.antt =====
-- The journey feature of the web application, apps/web/src/features/journeys.
pub mod Domain
pub mod Service
pub mod Positions
pub mod Format
pub mod Invariant
pub mod Order
pub mod Validation
pub mod Packing
pub mod Cascade
pub mod Returning
pub mod Stored
pub mod Tests
