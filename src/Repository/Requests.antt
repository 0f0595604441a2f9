-- ===== src/Repository/Requests.antt =====
-- The requests that http-journey-repository.ts makes, the bodies that they carry, and the tests of
-- what has changed. `json` is `JSON.stringify`.
use trax_os.Common.{String, Bool, true, false, not, ◌||◌, Option, none, some, ◌==◌}
use trax_os.Common.Int.{ℤ}
use trax_os.Common.Json.{Value, Fields, null, boolean, text, object, no_fields, entry}
use trax_os.Journeys.Domain.{
  Journey, JourneySegment, PackingItem, SegmentDetails, stay, move, JourneyStatus,
}
use trax_os.Journeys.Stored.Encoding.{encode_date, encode_int, encode_category}

pub data Request : Type 0 where
  list_journeys : Request
  list_segments list_packing : (journey_id : String) → Request
  delete_journey : (journey_id : String) → Request
  create_journey update_journey : (body : Value) → Request
  delete_segment : (journey_id segment_id : String) → Request
  create_segment : (journey_id : String) (body : Value) → Request
  update_segment reorder_segment : (journey_id segment_id : String) (body : Value) → Request
  delete_packing : (journey_id item_id : String) → Request
  create_packing : (journey_id : String) (body : Value) → Request
  update_packing update_packing_progress : (journey_id item_id : String) (body : Value) → Request

-- `...(includeId ? { id } : {})` before other fields
abbrev pub with_id : Bool → String → Fields → Fields
with_id true id rest = entry "id" (text id) rest
with_id false id rest = rest

-- `{ ...a, ...b }` of records without a common field
abbrev pub append_fields : Fields → Fields → Fields
append_fields no_fields b = b
append_fields (entry k v a) b = entry k v (append_fields a b)

unfoldable pub journey_body : Journey → Bool → Fields
journey_body j include_id = with_id include_id j.id (
    entry "name" (text j.name) (
      entry "start_date" (encode_date j.start_date)
        (entry "end_date" (encode_date j.end_date) no_fields)))

abbrev pub kind_text : SegmentDetails → String
kind_text (stay place) = "stay"
kind_text (move origin destination mode) = "move"

abbrev pub detail_fields : SegmentDetails → Fields
detail_fields (stay place) = entry "place_name" (text place) (
    entry "origin_name" null
      (entry "destination_name" null (entry "transport_mode" (text "") no_fields)))
detail_fields (move origin destination mode) = entry "place_name" null (
    entry "origin_name" (text origin)
      (entry "destination_name" (text destination) (entry "transport_mode" (text mode) no_fields)))

unfoldable pub segment_body : JourneySegment → Bool → Fields
segment_body s include_id = with_id include_id s.id (
    entry "kind" (text (kind_text s.details)) (
      entry "start_date" (encode_date s.start_date) (
        entry "end_date" (encode_date s.end_date)
          (entry "notes" (text s.notes) (detail_fields s.details)))))

unfoldable pub packing_body : PackingItem → Bool → Fields
packing_body item include_id = with_id include_id item.id (
    entry "label" (text item.label) (
      entry "category" (encode_category item.category) (
        entry "quantity" (encode_int item.quantity)
          (entry "essential" (boolean item.essential) no_fields))))

-- `{ ...body, expected_record_version: version }`
abbrev pub with_version : Fields → ℤ → Value
with_version body version =
    object (append_fields body (entry "expected_record_version" (encode_int version) no_fields))

abbrev pub same_date : Option String → Option String → Bool
same_date none none = true
same_date (some a) (some b) = a == b
same_date _ _ = false

abbrev pub status_text : JourneyStatus → String
status_text JourneyStatus.planning = "planning"
status_text JourneyStatus.active = "active"
status_text JourneyStatus.completed = "completed"
status_text JourneyStatus.archived = "archived"

-- the payload of the command that updates a journey
abbrev pub update_payload : (old new : Journey) → Value
update_payload old new = object (
    entry "journey_id" (text new.id) (
      append_fields (journey_body new false) (
        entry "status" (text (status_text new.status))
          (entry "expected_record_version" (encode_int old.record_version) no_fields))))

unfoldable pub journey_changed : Journey → Journey → Bool
journey_changed a b =
    not (a.name == b.name)
    || not (same_date a.start_date b.start_date)
    || not (same_date a.end_date b.end_date)
    || not (status_text a.status == status_text b.status)

module _ (json : Value → String) where
  unfoldable pub segment_changed : JourneySegment → JourneySegment → Bool
  segment_changed a b =
      not (json (object (segment_body a false)) == json (object (segment_body b false)))

  unfoldable pub packing_definition_changed : PackingItem → PackingItem → Bool
  packing_definition_changed a b =
      not (json (object (packing_body a false)) == json (object (packing_body b false)))
