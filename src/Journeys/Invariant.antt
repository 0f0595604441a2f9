-- ===== src/Journeys/Invariant.antt =====
-- When the data of the journey feature is well formed, and that every operation keeps it so.
mod Change
pub mod JourneyOps
pub mod Deletion
pub mod SegmentNew
pub mod SegmentSave
mod SegmentRenumber
pub mod SegmentDelete
mod SegmentMove
mod PackingSave
mod PackingChange
pub mod Steps
use trax_os.Common.{ℕ, String, Bool, true, false, List, ◌≡◌, ◌≢◌, ◌==◌, any, All, DistinctBy}
use trax_os.Common.Int.{pos, ◌≤ℤ◌}
use trax_os.Common.Sort.{sort, IsNumberedFrom}
use trax_os.Common.Text.{is_blank}
use trax_os.Journeys.Domain.{
  Journey, JourneySegment, PackingItem, JourneyData, SegmentDetails, stay, move,
}
use trax_os.Journeys.Service.{Runtime}
use trax_os.Journeys.Positions.Renumber.{of_journey}
use trax_os.Journeys.Format.{IsDate, out_of_order, is_timestamp}
use trax_os.Common.Number.{IsBetween}

abbrev pub IsNamed : SegmentDetails → Type 0
IsNamed (stay place) = is_blank place ≡ false
IsNamed (move origin destination mode) = (is_blank origin ≡ false) × (is_blank destination ≡ false)

-- In order of position, the segments of every journey are numbered 0, 1, 2, ….
abbrev pub AreNumbered : List JourneySegment → Type 0
AreNumbered ss =
    (j : String) → IsNumberedFrom (λ s. s.position) 0 (sort (λ s. s.position) (of_journey j ss))

module _ (date_parses : String → Bool) where
  pub record IsJourney (j : Journey) : Type 0 where
    pub id : is_blank j.id ≡ false
    pub name : is_blank j.name ≡ false
    pub start_date : IsDate j.start_date
    pub end_date : IsDate j.end_date
    pub order : out_of_order j.start_date j.end_date ≡ false
    pub version : pos 1 ≤ℤ j.record_version
    pub created_at : is_timestamp date_parses j.created_at ≡ true
    pub updated_at : is_timestamp date_parses j.updated_at ≡ true

  pub record IsSegment (s : JourneySegment) : Type 0 where
    pub id : is_blank s.id ≡ false
    pub journey_id : is_blank s.journey_id ≡ false
    pub position : pos 0 ≤ℤ s.position
    pub start_date : IsDate s.start_date
    pub end_date : IsDate s.end_date
    pub order : out_of_order s.start_date s.end_date ≡ false
    pub version : pos 1 ≤ℤ s.record_version
    pub created_at : is_timestamp date_parses s.created_at ≡ true
    pub updated_at : is_timestamp date_parses s.updated_at ≡ true
    pub names : IsNamed s.details

  pub record IsItem (i : PackingItem) : Type 0 where
    pub id : is_blank i.id ≡ false
    pub journey_id : is_blank i.journey_id ≡ false
    pub label : is_blank i.label ≡ false
    pub quantity_min : pos 1 ≤ℤ i.quantity
    pub quantity_max : i.quantity ≤ℤ pos 99
    pub packed : IsBetween (pos 0) i.quantity i.packed_quantity
    pub version : pos 1 ≤ℤ i.record_version
    pub created_at : is_timestamp date_parses i.created_at ≡ true
    pub updated_at : is_timestamp date_parses i.updated_at ≡ true

  -- The journeys, with no id twice.
  pub record AreJourneys (js : List Journey) : Type 0 where
    pub distinct : DistinctBy (λ j. j.id) js
    pub each : All IsJourney js

  -- The segments, each of a listed journey.
  pub record AreSegments (js : List Journey) (ss : List JourneySegment) : Type 0 where
    pub distinct : DistinctBy (λ s. s.id) ss
    pub each : All IsSegment ss
    pub owned : All (λ s. any (λ j. j.id == s.journey_id) js ≡ true) ss

  pub record AreItems (js : List Journey) (items : List PackingItem) : Type 0 where
    pub distinct : DistinctBy (λ i. i.id) items
    pub each : All IsItem items
    pub owned : All (λ i. any (λ j. j.id == i.journey_id) js ≡ true) items

  pub record IsWellFormed (d : JourneyData) : Type 0 where
    pub journeys : AreJourneys d.journeys
    pub segments : AreSegments d.journeys d.segments
    pub numbered : AreNumbered d.segments
    pub items : AreItems d.journeys d.packing_items

  -- The id is not blank and not in use, and the clock shows timestamps.
  pub record IsFresh (d : JourneyData) (r : Runtime) : Type 0 where
    pub id : is_blank r.id ≡ false
    pub journeys : All (λ j. j.id ≢ r.id) d.journeys
    pub segments : All (λ s. s.id ≢ r.id) d.segments
    pub items : All (λ i. i.id ≢ r.id) d.packing_items
    pub now : (n : ℕ) → is_timestamp date_parses (r.now n) ≡ true
