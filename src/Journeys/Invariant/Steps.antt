-- ===== src/Journeys/Invariant/Steps.antt =====
-- The life of the data of one workspace: the operations of journey-service.ts that succeed, one
-- after the other, from the empty data.
use trax_os.Common.{true, String, Bool, Option, ◌≡◌, ok, WhenOk-eq-ok}
use trax_os.Common.Sort.{sort}
use trax_os.Journeys.Domain.{
  Journey, JourneyData, empty_journey_data, JourneyInput, JourneyStatus, SegmentInput, PackingInput,
}
use trax_os.Journeys.Service.{
  Runtime, create_journey, update_journey, set_journey_status, delete_journey, save_segment,
  delete_segment, Direction, move_segment, save_packing_item, set_packed_quantity,
  delete_packing_item,
}
use trax_os.Journeys.Invariant.{IsWellFormed, IsFresh}
use trax_os.Journeys.Invariant.JourneyOps.{
  AreDates, create_journey-IsWellFormed, update_journey-IsWellFormed,
  set_journey_status-IsWellFormed,
}
use trax_os.Journeys.Invariant.Deletion.{delete_journey-IsWellFormed}
use trax_os.Journeys.Invariant.SegmentSave.{save_segment-IsWellFormed}
use trax_os.Journeys.Invariant.SegmentDelete.{delete_segment-IsWellFormed}
use trax_os.Journeys.Invariant.SegmentMove.{move_segment-IsWellFormed}
use trax_os.Journeys.Invariant.PackingSave.{save_packing_item-IsWellFormed}
use trax_os.Journeys.Invariant.PackingChange.{
  set_packed_quantity-IsWellFormed, delete_packing_item-IsWellFormed,
}
use trax_os.Common.Number.{Number, is_integer}

module _ (date_parses : String → Bool) where
  -- One operation that returns. The date fields of its form hold dates or nothing; the runtime
  -- gives an id that is not in use, and timestamps.
  pub data Step (d d' : JourneyData) : Type 0 where
    create :
        (input : JourneyInput) (r : Runtime) (j : Journey)
        → IsFresh date_parses d r
        → AreDates input.start_date input.end_date
        → create_journey d input r ≡ ok (d', j)
        → Step d d'
    update :
        (journey_id : String) (input : JourneyInput) (r : Runtime)
        → IsFresh date_parses d r
        → AreDates input.start_date input.end_date
        → update_journey d journey_id input r ≡ ok d'
        → Step d d'
    set_status :
        (journey_id : String) (status : JourneyStatus) (r : Runtime)
        → IsFresh date_parses d r
        → set_journey_status d journey_id status r ≡ ok d'
        → Step d d'
    delete : (journey_id : String) → delete_journey d journey_id ≡ ok d' → Step d d'
    save_part :
        (journey_id : String) (input : SegmentInput) (r : Runtime) (segment_id : Option String)
        → IsFresh date_parses d r
        → AreDates input.start_date input.end_date
        → save_segment d journey_id input r segment_id ≡ ok d'
        → Step d d'
    delete_part :
        (journey_id segment_id : String) (r : Runtime)
        → IsFresh date_parses d r
        → delete_segment d journey_id segment_id r ≡ ok d'
        → Step d d'
    move_part :
        (journey_id segment_id : String) (direction : Direction) (r : Runtime)
        → IsFresh date_parses d r
        → move_segment d journey_id segment_id direction r ≡ ok d'
        → Step d d'
    save_item :
        (journey_id : String) (input : PackingInput) (r : Runtime) (item_id : Option String)
        → IsFresh date_parses d r
        → save_packing_item d journey_id input r item_id ≡ ok d'
        → Step d d'
    pack_item :
        (journey_id item_id : String) (packed : Number) (r : Runtime)
        → is_integer packed ≡ true
        → IsFresh date_parses d r
        → set_packed_quantity d journey_id item_id packed r ≡ ok d'
        → Step d d'
    delete_item :
        (journey_id item_id : String) (r : Runtime)
        → IsFresh date_parses d r
        → delete_packing_item d journey_id item_id r ≡ ok d'
        → Step d d'

  pub data Reach (d : JourneyData) : JourneyData → Type 0 where
    here : Reach d d
    next : {d' d'' : JourneyData} → Reach d d' → Step d' d'' → Reach d d''

  -- Every operation that returns keeps the data well formed: ids are distinct, every segment and
  -- every item belongs to a journey, every field has its form, and the segments of each journey
  -- are numbered 0, 1, 2, … without a gap.
  pub Step-IsWellFormed :
      (d d' : JourneyData) → Step d d' → IsWellFormed date_parses d → IsWellFormed date_parses d'
  Step-IsWellFormed d d' (create input r j fresh dates e) h =
      WhenOk-eq-ok (λ c. IsWellFormed date_parses c.0) _
        (create_journey-IsWellFormed date_parses d input r h fresh dates) e
  Step-IsWellFormed d d' (update journey_id input r fresh dates e) h =
      WhenOk-eq-ok (IsWellFormed date_parses) _
        (update_journey-IsWellFormed date_parses d journey_id input r h fresh dates) e
  Step-IsWellFormed d d' (set_status journey_id status r fresh e) h =
      WhenOk-eq-ok (IsWellFormed date_parses) _
        (set_journey_status-IsWellFormed date_parses d journey_id status r h fresh) e
  Step-IsWellFormed d d' (delete journey_id e) h =
      WhenOk-eq-ok (IsWellFormed date_parses) _
        (delete_journey-IsWellFormed date_parses d journey_id h) e
  Step-IsWellFormed d d' (save_part journey_id input r segment_id fresh dates e) h =
      WhenOk-eq-ok (IsWellFormed date_parses) _
        (save_segment-IsWellFormed date_parses d journey_id input r segment_id h fresh dates) e
  Step-IsWellFormed d d' (delete_part journey_id segment_id r fresh e) h =
      WhenOk-eq-ok (IsWellFormed date_parses) _
        (delete_segment-IsWellFormed date_parses d journey_id segment_id r h fresh) e
  Step-IsWellFormed d d' (move_part journey_id segment_id direction r fresh e) h =
      WhenOk-eq-ok (IsWellFormed date_parses) _
        (move_segment-IsWellFormed date_parses d journey_id segment_id direction r h fresh) e
  Step-IsWellFormed d d' (save_item journey_id input r item_id fresh e) h =
      WhenOk-eq-ok (IsWellFormed date_parses) _
        (save_packing_item-IsWellFormed date_parses d journey_id input r item_id h fresh) e
  Step-IsWellFormed d d' (pack_item journey_id item_id packed r whole fresh e) h =
      WhenOk-eq-ok (IsWellFormed date_parses) _
        (set_packed_quantity-IsWellFormed date_parses d journey_id item_id packed r whole h fresh) e
  Step-IsWellFormed d d' (delete_item journey_id item_id r fresh e) h =
      WhenOk-eq-ok (IsWellFormed date_parses) _
        (delete_packing_item-IsWellFormed date_parses d journey_id item_id r h fresh) e

  pub empty-IsWellFormed : IsWellFormed date_parses empty_journey_data
  unfolding sort
  empty-IsWellFormed = record {
    journeys = record { distinct = tt; each = tt };
    segments = record { distinct = tt; each = tt; owned = tt };
    numbered = λ j. tt;
    items = record { distinct = tt; each = tt; owned = tt };
  }

  -- Whatever operations return on well-formed data, in whatever order, each as a `Step` says (date
  -- fields that hold dates or nothing, an unused id, a clock that shows timestamps), the data stays
  -- well formed.
  pub Reach-IsWellFormed :
      (d d' : JourneyData) → Reach d d' → IsWellFormed date_parses d → IsWellFormed date_parses d'
  Reach-IsWellFormed d d' here h = h
  Reach-IsWellFormed d d'' (next {d'} steps step) h =
      Step-IsWellFormed d' d'' step (Reach-IsWellFormed d d' steps h)
