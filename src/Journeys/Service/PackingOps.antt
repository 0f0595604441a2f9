-- ===== src/Journeys/Service/PackingOps.antt =====
-- `savePackingItem`, `setPackedQuantity` and `deletePackingItem`.
use trax_os.Common.{
  ℕ, suc, String, Bool, not, ◌&&◌, Option, none, some, List, [], ◌∷◌, ◌++◌, ◌==◌, map, any, filter,
  find?, field_or, is_some, Result, ok, guard, ◌>>◌, if◌then◌else◌,
}
use trax_os.Common.Int.{pos}
use trax_os.Common.Number.{min_int, max_int, integral, Number, integer}
use trax_os.Common.Text.{trim}
use trax_os.Journeys.Domain.{PackingItem, JourneyData, PackingInput, validate_packing}
use trax_os.Journeys.Service.Base.{
  Runtime, ServiceError, operation, item_not_found, assert_valid, assert_journey_exists,
  assert_owned_item, is_given, touch_journey,
}

unfoldable pub find_item : JourneyData → String → Option String → Option PackingItem
find_item d journey_id none = none
find_item d journey_id (some item_id) =
    if item_id == ""
    then none
    else find? (λ i. i.id == item_id && i.journey_id == journey_id) d.packing_items

-- A new item reads the clock for `createdAt` first.
abbrev pub calls_before : Option PackingItem → ℕ
calls_before none = 1
calls_before (some e) = 0

-- `validatePacking` has turned away every quantity that is no integer.
unfoldable pub saved_item : Option PackingItem → String → PackingInput → Runtime → PackingItem
saved_item existing journey_id input runtime = record {
  id = field_or existing (λ i. i.id) runtime.id;
  journey_id = journey_id;
  label = trim input.label;
  category = input.category;
  quantity = integral input.quantity;
  packed_quantity =
      min_int (integral input.quantity)
        (field_or existing (λ i. i.packed_quantity) (integer (pos 0)));
  essential = input.essential;
  record_version = field_or existing (λ i. i.record_version) (pos 1);
  created_at = field_or existing (λ i. i.created_at) (runtime.now 0);
  updated_at = runtime.now (calls_before existing);
}

unfoldable pub store_item : Option PackingItem → PackingItem → List PackingItem → List PackingItem
store_item none item items = items ++ item ∷ []
store_item (some e) item items = map (λ i. if i.id == e.id then item else i) items

unfoldable pub save_packing_item :
    JourneyData → String → PackingInput → Runtime → Option String → Result ServiceError JourneyData
save_packing_item d journey_id input runtime item_id = do
  assert_journey_exists d journey_id
  assert_valid (validate_packing input)
  let existing = find_item d journey_id item_id
  guard (not (is_given item_id && not (is_some existing))) (operation item_not_found)
  let item = saved_item existing journey_id input runtime
  ok (
      touch_journey (record d { packing_items = store_item existing item d.packing_items })
        journey_id runtime (suc (calls_before existing)))

-- `Math.max(0, Math.min(item.quantity, packedQuantity))`
unfoldable pub repacked : Number → PackingItem → PackingItem
repacked packed i = record i { packed_quantity = max_int (pos 0) (min_int i.quantity packed) }

unfoldable pub owns_item : JourneyData → String → String → Bool
owns_item d journey_id item_id =
    any (λ i. i.id == item_id && i.journey_id == journey_id) d.packing_items

unfoldable pub set_packed_quantity :
    JourneyData → String → String → Number → Runtime → Result ServiceError JourneyData
set_packed_quantity d journey_id item_id packed runtime = do
  assert_journey_exists d journey_id
  assert_owned_item (owns_item d journey_id item_id)
  ok (
      touch_journey
        (record d {
          packing_items =
              map (λ i. if i.id == item_id then repacked packed i else i) d.packing_items;
        })
        journey_id runtime 0)

unfoldable pub delete_packing_item :
    JourneyData → String → String → Runtime → Result ServiceError JourneyData
delete_packing_item d journey_id item_id runtime = do
  assert_journey_exists d journey_id
  assert_owned_item (owns_item d journey_id item_id)
  ok (
      touch_journey
        (record d { packing_items = filter (λ i. not (i.id == item_id)) d.packing_items })
        journey_id runtime 0)
