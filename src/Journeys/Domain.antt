-- ===== src/Journeys/Domain.antt =====
-- The data model, the validators and the queries of apps/web/src/features/journeys/domain.ts.
-- A stored number is an integer, save the packed quantity of an item, which is any number. The literal field `schemaVersion: 1` holds no information.
use trax_os.Common.{
  String, Bool, false, not, ◌&&◌, ◌||◌, Option, List, [], ◌∷◌, ◌++◌, ◌==◌, filter, if◌then◌else◌,
}
use trax_os.Common.Int.{ℤ, pos, ◌+ℤ◌}
use trax_os.Common.Number.{integer, add_number, Number, is_integer, lt_int, gt_int}
use trax_os.Common.Text.{is_blank, text_lt}
use trax_os.Common.Sort.{sort}

pub data JourneyStatus : Type 0 where
  planning active completed archived : JourneyStatus

pub data PackingCategory : Type 0 where
  documents clothing toiletries electronics other : PackingCategory

pub record Journey : Type 0 where
  pub id : String
  pub name : String
  pub start_date : Option String
  pub end_date : Option String
  pub status : JourneyStatus
  pub record_version : ℤ
  pub created_at : String
  pub updated_at : String

-- The fields that a stay and a move do not share; the constructor is the `kind`.
pub data SegmentDetails : Type 0 where
  stay : (place_name : String) → SegmentDetails
  move : (origin_name destination_name transport_mode : String) → SegmentDetails

pub record JourneySegment : Type 0 where
  pub id : String
  pub journey_id : String
  pub position : ℤ
  pub start_date : Option String
  pub end_date : Option String
  pub notes : String
  pub record_version : ℤ
  pub created_at : String
  pub updated_at : String
  pub details : SegmentDetails

pub record PackingItem : Type 0 where
  pub id : String
  pub journey_id : String
  pub label : String
  pub category : PackingCategory
  pub quantity : ℤ
  pub packed_quantity : Number
  pub essential : Bool
  pub record_version : ℤ
  pub created_at : String
  pub updated_at : String

pub record JourneyData : Type 0 where
  pub journeys : List Journey
  pub segments : List JourneySegment
  pub packing_items : List PackingItem

abbrev pub empty_journey_data : JourneyData
empty_journey_data = record { journeys = []; segments = []; packing_items = [] }

pub record JourneyInput : Type 0 where
  pub name : String
  pub start_date : String
  pub end_date : String

pub record SegmentInput : Type 0 where
  pub details : SegmentDetails
  pub start_date : String
  pub end_date : String
  pub notes : String

pub record PackingInput : Type 0 where
  pub label : String
  pub category : PackingCategory
  pub quantity : Number
  pub essential : Bool

pub data ValidationErrorCode : Type 0 where
  name_required date_order place_required route_required : ValidationErrorCode
  packing_label_required quantity_invalid : ValidationErrorCode

-- `if (test) errors.push(code)`
abbrev pub push_if :
    Bool → ValidationErrorCode → List ValidationErrorCode → List ValidationErrorCode
push_if test code errors = if test then errors ++ code ∷ [] else errors

-- `startDate && endDate && endDate < startDate`
abbrev pub dates_reversed : String → String → Bool
dates_reversed start end = not (start == "") && not (end == "") && text_lt end start

unfoldable pub validate_journey : JourneyInput → List ValidationErrorCode
validate_journey input =
    push_if (dates_reversed input.start_date input.end_date) date_order
      (push_if (is_blank input.name) name_required [])

abbrev pub place_missing : SegmentDetails → Bool
place_missing (stay place) = is_blank place
place_missing (move origin destination mode) = false

abbrev pub route_missing : SegmentDetails → Bool
route_missing (stay place) = false
route_missing (move origin destination mode) = is_blank origin || is_blank destination

unfoldable pub validate_segment : SegmentInput → List ValidationErrorCode
validate_segment input = push_if (route_missing input.details) route_required (
    push_if (place_missing input.details) place_required
      (push_if (dates_reversed input.start_date input.end_date) date_order []))

unfoldable pub validate_packing : PackingInput → List ValidationErrorCode
validate_packing input =
    push_if
      (not (is_integer input.quantity)
        || lt_int input.quantity (pos 1)
        || gt_int input.quantity (pos 99))
      quantity_invalid (push_if (is_blank input.label) packing_label_required [])

unfoldable pub segments_for_journey : JourneyData → String → List JourneySegment
segments_for_journey d journey_id =
    sort (λ s. s.position) (filter (λ s. s.journey_id == journey_id) d.segments)

unfoldable pub packing_for_journey : JourneyData → String → List PackingItem
packing_for_journey d journey_id = filter (λ item. item.journey_id == journey_id) d.packing_items

pub record Progress : Type 0 where
  pub packed : Number
  pub total : ℤ

-- `floating` adds numbers of which one is no integer.
abbrev pub add_item : (floating : Number → Number → Number) → Progress → PackingItem → Progress
add_item floating progress item = record {
  packed = add_number floating progress.packed item.packed_quantity;
  total = progress.total +ℤ item.quantity;
}

-- the `reduce` of `packingProgress`
unfoldable pub progress_from :
    (floating : Number → Number → Number) → Progress → List PackingItem → Progress
progress_from floating progress [] = progress
progress_from floating progress (item ∷ items) =
    progress_from floating (add_item floating progress item) items

unfoldable pub packing_progress :
    (floating : Number → Number → Number) → List PackingItem → Progress
unfolding progress_from
packing_progress floating items =
    progress_from floating (record { packed = integer (pos 0); total = pos 0 }) items
