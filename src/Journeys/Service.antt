-- ===== src/Journeys/Service.antt =====
-- The operations of apps/web/src/features/journeys/journey-service.ts.
mod Base
mod JourneyOps
mod SegmentOps
mod PackingOps
unfoldable pub use Base.*
unfoldable pub use JourneyOps.*
unfoldable pub use SegmentOps.*
unfoldable pub use PackingOps.*
