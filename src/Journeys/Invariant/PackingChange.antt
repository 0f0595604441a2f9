-- ===== src/Journeys/Invariant/PackingChange.antt =====
-- `setPackedQuantity` and `deletePackingItem` keep the data well formed.
use trax_os.Common.{
  String, Bool, ◌≡◌, ap, ◌∙◌, ◌==◌, any, All-filter, DistinctBy-filter, DistinctBy-map, arith, map,
  Bool-cases, inl, inr, if◌then◌else◌, WhenOk, true,
}
use trax_os.Common.Finding.{All-map}
use trax_os.Common.Int.{pos}
use trax_os.Journeys.Domain.{PackingItem, JourneyData}
use trax_os.Journeys.Service.{
  Runtime, WhenOk-assert_journey_exists, WhenOk-assert_owned_item, repacked, set_packed_quantity,
  delete_packing_item,
}
use trax_os.Journeys.Invariant.{IsItem, AreItems, IsWellFormed, IsFresh}
use trax_os.Journeys.Invariant.SegmentNew.{touch_journey-IsWellFormed}
use trax_os.Journeys.Invariant.PackingSave.{with_items}
use trax_os.Common.Number.{Number, is_integer, max_int-IsBetween}

module _ (date_parses : String → Bool) where
  repacked-IsItem :
      (packed : Number) (i : PackingItem)
      → is_integer packed ≡ true
      → IsItem date_parses i
      → IsItem date_parses (repacked packed i)
  unfolding repacked
  repacked-IsItem packed i whole k = record {
    id = k.id;
    journey_id = k.journey_id;
    label = k.label;
    quantity_min = k.quantity_min;
    quantity_max = k.quantity_max;
    packed =
        max_int-IsBetween (pos 0) i.quantity packed (let least = k.quantity_min in omega arith)
          whole;
    version = k.version;
    created_at = k.created_at;
    updated_at = k.updated_at;
  }

  module _ (d : JourneyData) (item_id : String) (packed : Number) (whole : is_integer packed ≡ true)
      (h : IsWellFormed date_parses d) where
    abbrev adjusted : PackingItem → PackingItem
    adjusted i = if i.id == item_id then repacked packed i else i

    adjusted-IsItem : (i : PackingItem) → IsItem date_parses i → IsItem date_parses (adjusted i)
    adjusted-IsItem i k = elim (Bool-cases (i.id == item_id)) [
      | inl p ↦ rw p (repacked-IsItem packed i whole k)
      | inr p ↦ rw p k
    ]

    id-adjusted : (i : PackingItem) → (adjusted i).id ≡ i.id
    unfolding repacked
    id-adjusted i = ground arith

    journey_id-adjusted : (i : PackingItem) → (adjusted i).journey_id ≡ i.journey_id
    unfolding repacked
    journey_id-adjusted i = ground arith

    adjusted-AreItems : AreItems date_parses d.journeys (map adjusted d.packing_items)
    adjusted-AreItems = record {
      distinct = DistinctBy-map (λ i. i.id) adjusted id-adjusted d.packing_items h.items.distinct;
      each = All-map _ _ adjusted adjusted-IsItem d.packing_items h.items.each;
      owned =
          All-map _ _ adjusted
            (λ i k. ap (λ o. any (λ j. j.id == o) d.journeys) (journey_id-adjusted i) ∙ k)
            d.packing_items h.items.owned;
    }

  pub set_packed_quantity-IsWellFormed :
      (d : JourneyData) (journey_id item_id : String) (packed : Number) (r : Runtime)
      → is_integer packed ≡ true
      → IsWellFormed date_parses d
      → IsFresh date_parses d r
      → WhenOk (IsWellFormed date_parses) (set_packed_quantity d journey_id item_id packed r)
  unfolding set_packed_quantity
  set_packed_quantity-IsWellFormed d journey_id item_id packed r whole h fresh =
      WhenOk-assert_journey_exists (IsWellFormed date_parses) d journey_id _ λ _.
        WhenOk-assert_owned_item (IsWellFormed date_parses) _ _ λ _.
          touch_journey-IsWellFormed date_parses _ journey_id r 0 fresh.now
            (with_items date_parses d _ h (adjusted-AreItems d item_id packed whole h))

  pub delete_packing_item-IsWellFormed :
      (d : JourneyData) (journey_id item_id : String) (r : Runtime)
      → IsWellFormed date_parses d
      → IsFresh date_parses d r
      → WhenOk (IsWellFormed date_parses) (delete_packing_item d journey_id item_id r)
  unfolding delete_packing_item
  delete_packing_item-IsWellFormed d journey_id item_id r h fresh =
      WhenOk-assert_journey_exists (IsWellFormed date_parses) d journey_id _ λ _.
        WhenOk-assert_owned_item (IsWellFormed date_parses) _ _ λ _.
          touch_journey-IsWellFormed date_parses _ journey_id r 0 fresh.now (
            with_items date_parses d _ h (record {
              distinct = DistinctBy-filter (λ i. i.id) _ d.packing_items h.items.distinct;
              each = All-filter _ _ d.packing_items h.items.each;
              owned = All-filter _ _ d.packing_items h.items.owned;
            }))
