-- ===== src/Repository/Replay.antt =====
-- What the calls of save in http-journey-repository.ts ask the server for: for every id, whether
-- the server has a row with it, under which journey, and with which of the fields that are sent.
-- A journey that is deleted takes its segments and items with it.
pub mod Runs
mod Deletable
mod Unrelated
pub mod JourneyRows
pub mod Journeys
mod Kind
mod Deletions
mod Owned
pub mod Segments
pub mod PackingRows
pub mod Packing
