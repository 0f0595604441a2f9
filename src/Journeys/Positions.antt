-- ===== src/Journeys/Positions.antt =====
-- What `deleteSegment` and `moveSegment` do when they number the segments of a journey anew.
mod Lookup
pub mod Renumber
