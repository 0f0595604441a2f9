-- ===== src/Journeys/Service/SegmentOps.antt =====
-- `saveSegment`, `deleteSegment` and `moveSegment`.
use trax_os.Common.{
  ℕ, zero, suc, String, not, ◌&&◌, Option, none, some, List, [], ◌∷◌, ◌++◌, ◌==◌, map, any, filter,
  find?, find_index, get_elem?, set, length, leb, or_else, field_or, is_some, Result, ok, err,
  guard, ◌>>=◌, ◌>>◌, if◌then◌else◌,
}
use trax_os.Common.Int.{ℤ, pos}
use trax_os.Common.JsMap
use trax_os.Common.Sort.{sort}
use trax_os.Common.Text.{trim, or_null}
use trax_os.Journeys.Domain.{
  JourneySegment, JourneyData, SegmentDetails, stay, move, SegmentInput, validate_segment,
  segments_for_journey,
}
use trax_os.Journeys.Service.Base.{
  Runtime, ServiceError, operation, item_not_found, assert_valid, assert_journey_exists,
  assert_owned_item, is_given, touch_journey,
}

unfoldable pub find_segment : JourneyData → String → Option String → Option JourneySegment
find_segment d journey_id none = none
find_segment d journey_id (some segment_id) =
    if segment_id == ""
    then none
    else find? (λ s. s.id == segment_id && s.journey_id == journey_id) d.segments

unfoldable pub trim_details : SegmentDetails → SegmentDetails
trim_details (stay place) = stay (trim place)
trim_details (move origin destination mode) = move (trim origin) (trim destination) (trim mode)

-- `count` is the number of segments that the journey has.
unfoldable pub saved_segment :
    Option JourneySegment → String → ℕ → SegmentInput → Runtime → JourneySegment
saved_segment existing journey_id count input runtime = record {
  id = field_or existing (λ s. s.id) runtime.id;
  journey_id = journey_id;
  position = field_or existing (λ s. s.position) (pos count);
  start_date = or_null input.start_date;
  end_date = or_null input.end_date;
  notes = trim input.notes;
  record_version = field_or existing (λ s. s.record_version) (pos 1);
  created_at = field_or existing (λ s. s.created_at) (runtime.now 0);
  updated_at = runtime.now 0;
  details = trim_details input.details;
}

-- `existing ? segments.map(...) : [...segments, segment]`
unfoldable pub store_segment :
    Option JourneySegment → JourneySegment → List JourneySegment → List JourneySegment
store_segment none segment segments = segments ++ segment ∷ []
store_segment (some e) segment segments = map (λ s. if s.id == e.id then segment else s) segments

unfoldable pub save_segment :
    JourneyData → String → SegmentInput → Runtime → Option String → Result ServiceError JourneyData
save_segment d journey_id input runtime segment_id = do
  assert_journey_exists d journey_id
  assert_valid (validate_segment input)
  let existing = find_segment d journey_id segment_id
  guard (not (is_given segment_id && not (is_some existing))) (operation item_not_found)
  let segment =
      saved_segment existing journey_id (length (segments_for_journey d journey_id)) input runtime
  ok (
      touch_journey (record d { segments = store_segment existing segment d.segments }) journey_id
        runtime 1)

-- `ordered.map((segment, index) => [segment.id, index])`, from index n
unfoldable pub index_entries : ℕ → List JourneySegment → List (String × ℤ)
index_entries n [] = []
index_entries n (s ∷ ss) = (s.id, pos n) ∷ index_entries (suc n) ss

abbrev pub reposition : List (String × ℤ) → JourneySegment → JourneySegment
reposition positions s = record s { position = or_else (JsMap.get positions s.id) s.position }

-- Every segment in `ordered` gets its index there for its position.
abbrev pub renumber : List JourneySegment → List JourneySegment → List JourneySegment
renumber ordered segments = map (reposition (index_entries 0 ordered)) segments

unfoldable pub delete_segment :
    JourneyData → String → String → Runtime → Result ServiceError JourneyData
delete_segment d journey_id segment_id runtime = do
  assert_journey_exists d journey_id
  assert_owned_item (any (λ s. s.id == segment_id && s.journey_id == journey_id) d.segments)
  let remaining = filter (λ s. not (s.id == segment_id)) d.segments
  let ordered = sort (λ s. s.position) (filter (λ s. s.journey_id == journey_id) remaining)
  ok (touch_journey (record d { segments = renumber ordered remaining }) journey_id runtime 0)

-- The source's -1 and 1.
pub data Direction : Type 0 where
  earlier later : Direction

-- `index + direction`; `none` is -1.
abbrev pub target_of : Direction → ℕ → Option ℕ
target_of earlier zero = none
target_of earlier (suc i) = some i
target_of later i = some (suc i)

unfoldable pub found_index : Option ℕ → Result ServiceError ℕ
found_index none = err (operation item_not_found)
found_index (some i) = ok i

-- `current` and `destination` are the elements of `ordered` at the two indices.
unfoldable pub swap_segments :
    JourneyData
    → String
    → Runtime
    → List JourneySegment
    → (index target : ℕ) → (current destination : Option JourneySegment) → JourneyData
swap_segments d journey_id runtime ordered index target (some current) (some destination) =
    touch_journey
      (record d {
        segments = renumber (set (set ordered index destination) target current) d.segments;
      })
      journey_id runtime 0
swap_segments d journey_id runtime ordered index target _ _ = d

unfoldable pub move_to :
    JourneyData → String → Runtime → List JourneySegment → ℕ → Option ℕ → JourneyData
move_to d journey_id runtime ordered index none = d
move_to d journey_id runtime ordered index (some target) =
    if leb (length ordered) target
    then d
    else swap_segments d journey_id runtime ordered index target (get_elem? ordered index)
        (get_elem? ordered target)

unfoldable pub move_segment :
    JourneyData → String → String → Direction → Runtime → Result ServiceError JourneyData
move_segment d journey_id segment_id direction runtime = do
  assert_journey_exists d journey_id
  let ordered = segments_for_journey d journey_id
  index ← found_index (find_index (λ s. s.id == segment_id) ordered)
  ok (move_to d journey_id runtime ordered index (target_of direction index))
