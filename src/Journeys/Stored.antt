-- ===== src/Journeys/Stored.antt =====
-- `parseJourneyData` of domain.ts, which checks a value of unknown shape that was stored earlier.
-- `date_parses s` is `!Number.isNaN(Date.parse(s))`. The copy that it returns is the value itself.
pub mod Encoding
mod Places
mod Parts
pub mod Loading
pub mod Accepted
use trax_os.Common.{
  String, Bool, true, false, not, ◌&&◌, ◌||◌, Option, none, some, List, [], ◌∷◌, ◌==◌, any, Result,
  ok, guard, ◌>>◌, if◌then◌else◌,
}
use trax_os.Common.Int.{ℤ, pos, leb_ℤ, eqb_ℤ}
use trax_os.Common.Number.{Number, integer}
use trax_os.Common.Text.{is_blank}
use trax_os.Journeys.Format.{is_local_date, out_of_order, is_timestamp}
use trax_os.Common.Json.{
  Value, Values, Fields, undefined, null, boolean, number, text, array, object, no_values, item,
  no_fields, entry, lookup, field, is_record, is_text, is_boolean, is_array, elements, text_of,
  int_of, is_int, date_of,
}

pub data StoredError : Type 0 where
  invalid_local_data : StoredError

abbrev pub non_empty_string : Value → Bool
non_empty_string (text s) = not (is_blank s)
non_empty_string _ = false

abbrev pub nullable_date : Value → Bool
nullable_date null = true
nullable_date (text s) = is_local_date s
nullable_date _ = false

abbrev pub positive_version : Value → Bool
positive_version v = is_int v && leb_ℤ (pos 1) (int_of v)

abbrev pub has : List String → Value → Bool
has set v = any (λ s. s == text_of v) set

abbrev pub journey_statuses : List String
journey_statuses = "planning" ∷ "active" ∷ "completed" ∷ "archived" ∷ []

abbrev pub packing_categories : List String
packing_categories = "documents" ∷ "clothing" ∷ "toiletries" ∷ "electronics" ∷ "other" ∷ []

-- Every test of a list of tests holds. A test is pure, so one that is not reached changes nothing.
abbrev pub passes : List Bool → Bool
passes [] = true
passes (test ∷ tests) = test && passes tests

module _ (date_parses : String → Bool) where
  abbrev pub iso_timestamp : Value → Bool
  iso_timestamp (text s) = is_timestamp date_parses s
  iso_timestamp _ = false

  -- the tests of the first loop, of a journey after those with the ids `seen`
  abbrev pub journey_tests : List String → Value → List Bool
  journey_tests seen j =
      is_record j
      ∷ non_empty_string (field j "id")
      ∷ not (has seen (field j "id"))
      ∷ non_empty_string (field j "name")
      ∷ (is_text (field j "status") && has journey_statuses (field j "status"))
      ∷ nullable_date (field j "startDate")
      ∷ nullable_date (field j "endDate")
      ∷ not (out_of_order (date_of (field j "startDate")) (date_of (field j "endDate")))
      ∷ positive_version (field j "recordVersion")
      ∷ iso_timestamp (field j "createdAt")
      ∷ iso_timestamp (field j "updatedAt")
      ∷ []

  unfoldable pub journey_ok : List String → Value → Bool
  journey_ok seen j = passes (journey_tests seen j)

  unfoldable pub details_ok : Value → Bool
  details_ok s =
      let other =
        text_of (field s "kind") == "move"
        && non_empty_string (field s "originName")
        && non_empty_string (field s "destinationName")
        && is_text (field s "transportMode") in
      if text_of (field s "kind") == "stay" then non_empty_string (field s "placeName") else other

  -- `positionsByJourney`, as the pairs of a journey and a position in it
  abbrev pub has_position : List (String × ℤ) → Value → Bool
  has_position taken s =
      any (λ p. p.0 == text_of (field s "journeyId") && eqb_ℤ p.1 (int_of (field s "position")))
        taken

  abbrev pub segment_tests : List String → List String → List (String × ℤ) → Value → List Bool
  segment_tests journey_ids seen taken s =
      is_record s
      ∷ non_empty_string (field s "id")
      ∷ not (has seen (field s "id"))
      ∷ non_empty_string (field s "journeyId")
      ∷ has journey_ids (field s "journeyId")
      ∷ (is_int (field s "position") && leb_ℤ (pos 0) (int_of (field s "position")))
      ∷ nullable_date (field s "startDate")
      ∷ nullable_date (field s "endDate")
      ∷ not (out_of_order (date_of (field s "startDate")) (date_of (field s "endDate")))
      ∷ is_text (field s "notes")
      ∷ positive_version (field s "recordVersion")
      ∷ iso_timestamp (field s "createdAt")
      ∷ iso_timestamp (field s "updatedAt")
      ∷ details_ok s
      ∷ not (has_position taken s)
      ∷ []

  unfoldable pub segment_ok : List String → List String → List (String × ℤ) → Value → Bool
  segment_ok journey_ids seen taken s = passes (segment_tests journey_ids seen taken s)

  abbrev pub item_tests : List String → List String → Value → List Bool
  item_tests journey_ids seen i =
      is_record i
      ∷ non_empty_string (field i "id")
      ∷ not (has seen (field i "id"))
      ∷ non_empty_string (field i "journeyId")
      ∷ has journey_ids (field i "journeyId")
      ∷ non_empty_string (field i "label")
      ∷ (is_text (field i "category") && has packing_categories (field i "category"))
      ∷ is_int (field i "quantity")
      ∷ is_int (field i "packedQuantity")
      ∷ leb_ℤ (pos 1) (int_of (field i "quantity"))
      ∷ leb_ℤ (int_of (field i "quantity")) (pos 99)
      ∷ leb_ℤ (pos 0) (int_of (field i "packedQuantity"))
      ∷ leb_ℤ (int_of (field i "packedQuantity")) (int_of (field i "quantity"))
      ∷ is_boolean (field i "essential")
      ∷ positive_version (field i "recordVersion")
      ∷ iso_timestamp (field i "createdAt")
      ∷ iso_timestamp (field i "updatedAt")
      ∷ []

  unfoldable pub item_ok : List String → List String → Value → Bool
  item_ok journey_ids seen i = passes (item_tests journey_ids seen i)

  -- the ids of the values, those that come last first, in front of `seen`
  abbrev pub ids_after : List String → Values → List String
  ids_after seen no_values = seen
  ids_after seen (item v vs) = ids_after (text_of (field v "id") ∷ seen) vs

  unfoldable pub journeys_ok : List String → Values → Bool
  journeys_ok seen no_values = true
  journeys_ok seen (item j js) = journey_ok seen j && journeys_ok (text_of (field j "id") ∷ seen) js

  abbrev pub position_entry : Value → String × ℤ
  position_entry s = (text_of (field s "journeyId"), int_of (field s "position"))

  unfoldable pub segments_ok : List String → List String → List (String × ℤ) → Values → Bool
  segments_ok journey_ids seen taken no_values = true
  segments_ok journey_ids seen taken (item s ss) =
      segment_ok journey_ids seen taken s
      && segments_ok journey_ids (text_of (field s "id") ∷ seen) (position_entry s ∷ taken) ss

  unfoldable pub items_ok : List String → List String → Values → Bool
  items_ok journey_ids seen no_values = true
  items_ok journey_ids seen (item i is) =
      item_ok journey_ids seen i && items_ok journey_ids (text_of (field i "id") ∷ seen) is

  abbrev pub is_one : Value → Bool
  is_one v = is_int v && eqb_ℤ (int_of v) (pos 1)

  abbrev pub data_tests : Value → List Bool
  data_tests v =
      is_record v
      ∷ is_one (field v "schemaVersion")
      ∷ is_array (field v "journeys")
      ∷ is_array (field v "segments")
      ∷ is_array (field v "packingItems")
      ∷ journeys_ok [] (elements (field v "journeys"))
      ∷ segments_ok (ids_after [] (elements (field v "journeys"))) [] []
          (elements (field v "segments"))
      ∷ items_ok (ids_after [] (elements (field v "journeys"))) []
          (elements (field v "packingItems"))
      ∷ []

  abbrev pub data_ok : Value → Bool
  data_ok v = passes (data_tests v)

  unfoldable pub parse_journey_data : Value → Result StoredError Value
  parse_journey_data v = guard (data_ok v) invalid_local_data >> ok v
