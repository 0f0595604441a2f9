-- ===== src/Journeys/Invariant/PackingSave.antt =====
-- `savePackingItem` keeps the data well formed.
use trax_os.Common.{
  String, Bool, true, false, not, ◌≡◌, ◌≢◌, refl, List, [], ◌==◌, ◌&&◌, Option, none, some, any,
  All, All-append, DistinctBy-append, DistinctBy-map, arith, eq_iff, Bool-cases, inl, inr,
  if◌then◌else◌, WhenOk, WhenOk-guard, ok, is_some,
}
use trax_os.Common.Finding.{All-find?, All-map}
use trax_os.Common.Int.{pos, ◌≤ℤ◌}
use trax_os.Common.Number.{min_int-IsBetween, Number, integer, fraction, infinite, nan, integral}
use trax_os.Common.Text.{is_blank}
use trax_os.Journeys.Domain.{PackingItem, JourneyData, PackingInput, validate_packing}
use trax_os.Journeys.Service.{
  Runtime, operation, item_not_found, journey_exists, is_given, WhenOk-assert_valid,
  WhenOk-assert_journey_exists, find_item, saved_item, store_item, save_packing_item,
}
use trax_os.Journeys.Format.{is_blank-trim}
use trax_os.Journeys.Invariant.{IsItem, AreItems, IsWellFormed, IsFresh}
use trax_os.Journeys.Invariant.SegmentNew.{touch_journey-IsWellFormed, named_of_exists}

-- A quantity that passes validation is an integer from 1 to 99.
integral_bounds :
    (input : PackingInput)
    → validate_packing input ≡ []
    → (pos 1 ≤ℤ integral input.quantity) × (integral input.quantity ≤ℤ pos 99)
unfolding validate_packing
integral_bounds input valid = go input.quantity valid
  where
    go :
        (q : Number)
        → validate_packing (record input { quantity = q }) ≡ []
        → (pos 1 ≤ℤ integral q) × (integral q ≤ℤ pos 99)
    go (integer n) e = ground arith
    go (fraction n k) e = ground arith
    go (infinite b) e = ground arith
    go nan e = ground arith

module _ (date_parses : String → Bool) where
  -- The data with other items.
  pub with_items :
      (d : JourneyData) (items : List PackingItem)
      → IsWellFormed date_parses d
      → AreItems date_parses d.journeys items
      → IsWellFormed date_parses (record d { packing_items = items })
  with_items d items h k = record {
    journeys = h.journeys;
    segments = h.segments;
    numbered = h.numbered;
    items = k;
  }

  module _ (d : JourneyData) (journey_id : String) (input : PackingInput) (r : Runtime)
      (h : IsWellFormed date_parses d) (fresh : IsFresh date_parses d r)
      (valid : validate_packing input ≡ []) (here : journey_exists d journey_id ≡ true) where
    named : is_blank journey_id ≡ false
    named = named_of_exists date_parses journey_id d.journeys h.journeys.each here

    IsItem-new : IsItem date_parses (saved_item none journey_id input r)
    unfolding saved_item validate_packing
    IsItem-new =
        let (least, most) = integral_bounds input valid in
        record {
          id = fresh.id;
          journey_id = named;
          label = is_blank-trim input.label (ground arith);
          quantity_min = least;
          quantity_max = most;
          packed =
              min_int-IsBetween (pos 0) (pos 0) (integral input.quantity) (integer (pos 0))
                (omega arith) (pos 0, refl, omega arith, omega arith);
          version = omega arith;
          created_at = fresh.now 0;
          updated_at = fresh.now 1;
        }

    saved_item-IsItem :
        (e : PackingItem)
        → IsItem date_parses e
        → IsItem date_parses (saved_item (some e) journey_id input r)
    unfolding saved_item validate_packing
    saved_item-IsItem e k =
        let (least, most) = integral_bounds input valid in
        record {
          id = k.id;
          journey_id = named;
          label = is_blank-trim input.label (ground arith);
          quantity_min = least;
          quantity_max = most;
          packed =
              min_int-IsBetween (pos 0) e.quantity (integral input.quantity) e.packed_quantity
                (omega arith) k.packed;
          version = k.version;
          created_at = k.created_at;
          updated_at = fresh.now 0;
        }

    module _ (e : PackingItem) (k : IsItem date_parses e) where
      abbrev replaced : PackingItem → PackingItem
      replaced i = if i.id == e.id then saved_item (some e) journey_id input r else i

      id-replaced : (i : PackingItem) → (replaced i).id ≡ i.id
      unfolding saved_item
      id-replaced i = ground (arith, eq_iff i.id e.id)

      replaced-IsItem : (i : PackingItem) → IsItem date_parses i → IsItem date_parses (replaced i)
      replaced-IsItem i l = elim (Bool-cases (i.id == e.id)) [
        | inl p ↦ rw p (saved_item-IsItem e k)
        | inr p ↦ rw p l
      ]

      replaced-owned :
          (i : PackingItem)
          → any (λ j. j.id == i.journey_id) d.journeys ≡ true
          → any (λ j. j.id == (replaced i).journey_id) d.journeys ≡ true
      unfolding saved_item
      replaced-owned i l = elim (Bool-cases (i.id == e.id)) [ inl p ↦ rw p here | inr p ↦ rw p l ]

    stored_item-AreItems :
        (existing : Option PackingItem)
        → ((e : PackingItem) → existing ≡ some e → IsItem date_parses e)
        → AreItems date_parses d.journeys
            (store_item existing (saved_item existing journey_id input r) d.packing_items)
    unfolding store_item
    stored_item-AreItems none k = record {
      distinct =
          DistinctBy-append (λ i. i.id) d.packing_items _ (new_id fresh.items) h.items.distinct;
      each = All-append (IsItem date_parses) d.packing_items _ h.items.each (IsItem-new, tt);
      owned = All-append _ d.packing_items _ h.items.owned (unfold saved_item in (here, tt));
    }
      where
        new_id :
            All (λ i. i.id ≢ r.id) d.packing_items
            → All (λ i. i.id ≢ (saved_item none journey_id input r).id) d.packing_items
        new_id a = unfold saved_item in a
    stored_item-AreItems (some e) k =
        let valid_item = k e refl in
        record {
          distinct =
              DistinctBy-map (λ i. i.id) _ (id-replaced e valid_item) d.packing_items
                h.items.distinct;
          each = All-map _ _ _ (replaced-IsItem e valid_item) d.packing_items h.items.each;
          owned = All-map _ _ _ (replaced-owned e valid_item) d.packing_items h.items.owned;
        }

  find_item-IsItem :
      (d : JourneyData) (journey_id : String) (item_id : Option String)
      → All (IsItem date_parses) d.packing_items
      → (e : PackingItem) → find_item d journey_id item_id ≡ some e
      → IsItem date_parses e
  unfolding find_item
  find_item-IsItem d journey_id none h e p = cc
  find_item-IsItem d journey_id (some item_id) h e p =
      All-find? (IsItem date_parses) (λ i. i.id == item_id && i.journey_id == journey_id)
        d.packing_items (ground arith) h

  pub save_packing_item-IsWellFormed :
      (d : JourneyData) (journey_id : String) (input : PackingInput) (r : Runtime)
      (item_id : Option String)
      → IsWellFormed date_parses d
      → IsFresh date_parses d r
      → WhenOk (IsWellFormed date_parses) (save_packing_item d journey_id input r item_id)
  unfolding save_packing_item
  save_packing_item-IsWellFormed d journey_id input r item_id h fresh =
      WhenOk-assert_journey_exists (IsWellFormed date_parses) d journey_id _ λ here.
        WhenOk-assert_valid (IsWellFormed date_parses) (validate_packing input) _ λ valid.
          WhenOk-guard (IsWellFormed date_parses)
            (not (is_given item_id && not (is_some (find_item d journey_id item_id))))
            (operation item_not_found) (ok _)
            λ _. touch_journey-IsWellFormed date_parses _ journey_id r _ fresh.now (
              with_items d _ h (
                stored_item-AreItems d journey_id input r h fresh valid here
                  (find_item d journey_id item_id)
                  (find_item-IsItem d journey_id item_id h.items.each)))
