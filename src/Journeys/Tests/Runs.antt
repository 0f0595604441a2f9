-- ===== src/Journeys/Tests/Runs.antt =====
-- What the operations return on the sample, refusals included.
use trax_os.Common.{some, [], ◌∷◌, ◌≡◌, refl, ok, err}
use trax_os.Common.Int.{negsuc}
use trax_os.Common.Sort.{sort}
use trax_os.Common.Text.{trim, text_lt}
use trax_os.Journeys.Domain.{
  segments_for_journey, place_required, date_order, name_required, validate_journey,
  validate_segment, stay,
}
use trax_os.Journeys.Service.{
  validation, operation, journey_not_found, item_not_found, create_journey, save_segment,
  move_segment, delete_segment, set_packed_quantity, later, assert_journey_exists,
  assert_owned_item, assert_valid, owns_item, move_to, found_index,
}
use trax_os.Common.Json.{null}
use trax_os.Journeys.Stored.{
  parse_journey_data, journeys_ok, segments_ok, segment_ok, items_ok, invalid_local_data,
}
use trax_os.Journeys.Stored.Encoding.{encode}
use trax_os.Journeys.Tests.{any_date, sample, browser, walk}
use trax_os.Common.Number.{integer}

unknown_journey : move_segment sample "j2" "s1" later browser ≡ err (operation journey_not_found)
unfolding move_segment assert_journey_exists
unknown_journey = refl

unknown_segment : delete_segment sample "j1" "s9" browser ≡ err (operation item_not_found)
unfolding delete_segment assert_journey_exists assert_owned_item
unknown_segment = refl

last_stays : move_segment sample "j1" "s2" later browser ≡ ok sample
unfolding move_segment assert_journey_exists found_index segments_for_journey sort move_to
last_stays = refl

-- The form is looked at before the id of the segment.
blank_place :
    save_segment sample "j1" (record walk { details = stay "  " }) browser (some "s9")
    ≡ err (validation (place_required ∷ []))
unfolding save_segment assert_journey_exists assert_valid validate_segment trim
blank_place = refl

both_errors :
    create_journey sample
      (record { name = " "; start_date = "2026-06-02"; end_date = "2026-06-01" })
      browser
    ≡ err (validation (name_required ∷ date_order ∷ []))
unfolding create_journey assert_valid validate_journey trim text_lt
both_errors = refl

unknown_item :
    set_packed_quantity sample "j1" "s1" (integer (negsuc 0)) browser
    ≡ err (operation item_not_found)
unfolding set_packed_quantity assert_journey_exists assert_owned_item owns_item
unknown_item = refl

-- A segment whose journey is not listed, and a value that is no record.
orphan :
    parse_journey_data any_date (encode (record sample { journeys = [] })) ≡ err invalid_local_data
unfolding parse_journey_data journeys_ok segments_ok segment_ok items_ok trim
orphan = refl

no_record : parse_journey_data any_date null ≡ err invalid_local_data
unfolding parse_journey_data
no_record = refl
