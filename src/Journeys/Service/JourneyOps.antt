-- ===== src/Journeys/Service/JourneyOps.antt =====
-- `createJourney`, `updateJourney`, `setJourneyStatus` and `deleteJourney`.
use trax_os.Common.{String, not, [], ◌∷◌, ◌++◌, ◌==◌, filter, Result, ok, ◌>>◌}
use trax_os.Common.Int.{pos}
use trax_os.Common.Text.{trim, or_null}
use trax_os.Journeys.Domain.{
  Journey, JourneyData, JourneyInput, JourneyStatus, planning, validate_journey,
}
use trax_os.Journeys.Service.Base.{
  Runtime, ServiceError, assert_valid, assert_journey_exists, change_journey,
}

unfoldable pub new_journey : JourneyInput → Runtime → Journey
new_journey input runtime = record {
  id = runtime.id;
  name = trim input.name;
  start_date = or_null input.start_date;
  end_date = or_null input.end_date;
  status = planning;
  record_version = pos 1;
  created_at = runtime.now 0;
  updated_at = runtime.now 0;
}

unfoldable pub create_journey :
    JourneyData → JourneyInput → Runtime → Result ServiceError (JourneyData × Journey)
create_journey d input runtime = do
  assert_valid (validate_journey input)
  let journey = new_journey input runtime
  ok (record d { journeys = d.journeys ++ journey ∷ [] }, journey)

unfoldable pub edited : JourneyInput → String → Journey → Journey
edited input timestamp j = record j {
  name = trim input.name;
  start_date = or_null input.start_date;
  end_date = or_null input.end_date;
  updated_at = timestamp;
}

unfoldable pub update_journey :
    JourneyData → String → JourneyInput → Runtime → Result ServiceError JourneyData
update_journey d journey_id input runtime = do
  assert_journey_exists d journey_id
  assert_valid (validate_journey input)
  ok (record d { journeys = change_journey (edited input) runtime journey_id 0 d.journeys })

unfoldable pub with_status : JourneyStatus → String → Journey → Journey
with_status status timestamp j = record j { status = status; updated_at = timestamp }

unfoldable pub set_journey_status :
    JourneyData → String → JourneyStatus → Runtime → Result ServiceError JourneyData
set_journey_status d journey_id status runtime = do
  assert_journey_exists d journey_id
  ok (record d { journeys = change_journey (with_status status) runtime journey_id 0 d.journeys })

unfoldable pub delete_journey : JourneyData → String → Result ServiceError JourneyData
delete_journey d journey_id = do
  assert_journey_exists d journey_id
  ok (record {
    journeys = filter (λ j. not (j.id == journey_id)) d.journeys;
    segments = filter (λ s. not (s.journey_id == journey_id)) d.segments;
    packing_items = filter (λ item. not (item.journey_id == journey_id)) d.packing_items;
  })
