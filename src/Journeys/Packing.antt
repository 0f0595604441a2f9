-- ===== src/Journeys/Packing.antt =====
-- Packing progress, and what `setPackedQuantity` changes.
use trax_os.Common.{
  String, Bool, true, ◌≡◌, ◌≢◌, refl, ◌∙◌, List, [], ◌∷◌, ◌==◌, ◌&&◌, Option, none, some, All,
  All-filter, arith, eq_iff, map, find?, filter, any, if◌then◌else◌, ok, WhenOk, WhenOk-eq-ok,
  false,
}
use mathlib.Core.Option
use trax_os.Common.Finding.{find?-holds, All-find?, find?-of_any}
use trax_os.Common.Int.{◌+ℤ◌, ℤ, pos, ◌≤ℤ◌, int_laws}
use trax_os.Journeys.Domain.{
  PackingItem, JourneyData, Progress, add_item, progress_from, packing_progress,
  packing_for_journey,
}
use trax_os.Journeys.Service.{
  Runtime, repacked, owns_item, set_packed_quantity, touch_journey, WhenOk-assert_journey_exists,
  WhenOk-assert_owned_item,
}
use trax_os.Journeys.Invariant.{IsItem, IsWellFormed}
use trax_os.Common.Number.{
  Number, integer, fraction, infinite, nan, lt_int, gt_int, max_int, min_int, IsBetween,
}

-- What is packed is an integer between nothing and all.
abbrev pub IsWithin : Progress → Type 0
IsWithin p = IsBetween (pos 0) p.total p.packed

add_item-IsWithin :
    (floating : Number → Number → Number) (p : Progress) (i : PackingItem)
    → IsWithin p
    → IsBetween (pos 0) i.quantity i.packed_quantity
    → IsWithin (add_item floating p i)
add_item-IsWithin floating p i (n, e, low, high) (m, f, low', high') =
    (n +ℤ m, rw (e, f) refl, omega int_laws, omega int_laws)

module _ (date_parses : String → Bool) (floating : Number → Number → Number) where
  progress_from-IsWithin :
      (p : Progress) (items : List PackingItem)
      → IsWithin p
      → All (IsItem date_parses) items
      → IsWithin (progress_from floating p items)
  unfolding packing_progress
  progress_from-IsWithin p [] h k = h
  progress_from-IsWithin p (i ∷ items) h (k, l) =
      progress_from-IsWithin (add_item floating p i) items
        (add_item-IsWithin floating p i h k.packed) l

  -- On well-formed data, what a journey has packed is an integer, at least nothing and at most its
  -- total.
  pub packing_progress-IsWithin :
      (d : JourneyData) (journey_id : String)
      → IsWellFormed date_parses d
      → IsWithin (packing_progress floating (packing_for_journey d journey_id))
  unfolding packing_progress packing_for_journey
  packing_progress-IsWithin d journey_id h =
      progress_from-IsWithin _ (filter (λ i. i.journey_id == journey_id) d.packing_items)
        (pos 0, refl, omega arith, omega arith)
        (All-filter (IsItem date_parses) (λ i. i.journey_id == journey_id) d.packing_items
          h.items.each)

-- `y` is `low` for an `x` below it, `high` for one above it, and else `x`, which may be a fraction
-- or `NaN`. It is neither below `low` nor above `high`.
pub record IsClamp (low high : ℤ) (x y : Number) : Type 0 where
  pub least : lt_int y low ≡ false
  pub most : gt_int y high ≡ false
  pub inside : lt_int x low ≡ false → gt_int x high ≡ false → y ≡ x
  pub below : lt_int x low ≡ true → y ≡ integer low
  pub above : gt_int x high ≡ true → y ≡ integer high

max_int-IsClamp :
    (low high : ℤ) (x : Number) → low ≤ℤ high → IsClamp low high x (max_int low (min_int high x))
max_int-IsClamp low high (integer n) h = record {
  least = ground arith;
  most = ground arith;
  inside = λ p q. ground arith;
  below = λ p. ground arith;
  above = λ p. ground arith;
}
max_int-IsClamp low high (fraction n i) h = record {
  least = ground arith;
  most = ground arith;
  inside = λ p q. ground arith;
  below = λ p. ground arith;
  above = λ p. ground arith;
}
max_int-IsClamp low high (infinite true) h = record {
  least = ground arith;
  most = ground arith;
  inside = λ p q. ground arith;
  below = λ p. ground arith;
  above = λ p. ground arith;
}
max_int-IsClamp low high (infinite false) h = record {
  least = ground arith;
  most = ground arith;
  inside = λ p q. ground arith;
  below = λ p. ground arith;
  above = λ p. ground arith;
}
max_int-IsClamp low high nan h = record {
  least = refl;
  most = refl;
  inside = λ p q. refl;
  below = λ p. ground arith;
  above = λ p. ground arith;
}

-- What becomes of an item: a clamped packed quantity, and nothing else.
pub record IsRepacked (packed : Number) (i i' : PackingItem) : Type 0 where
  pub clamped : IsClamp (pos 0) i.quantity packed i'.packed_quantity
  pub rest : i' ≡ record i { packed_quantity = i'.packed_quantity }

repacked-IsRepacked :
    (packed : Number) (i : PackingItem)
    → pos 1 ≤ℤ i.quantity
    → IsRepacked packed i (repacked packed i)
unfolding repacked
repacked-IsRepacked packed i h = record {
  clamped = max_int-IsClamp (pos 0) i.quantity packed (omega arith);
  rest = refl;
}

find?-map :
    (f : PackingItem → PackingItem) (k : String)
    → ((i : PackingItem) → (f i).id ≡ i.id)
    → (items : List PackingItem)
    → find? (λ i. i.id == k) (map f items) ≡ Option.map f (find? (λ i. i.id == k) items)
find?-map f k same [] = refl
find?-map f k same (i ∷ items) = ground (arith, same i, find?-map f k same items)

module _ (date_parses : String → Bool) (d : JourneyData) (journey_id item_id : String)
    (packed : Number) (r : Runtime) (h : IsWellFormed date_parses d) where
  -- The lookups after the change, of the item and of every other.
  abbrev Repacked : JourneyData → Type 0
  Repacked d' =
      ((i : PackingItem) × (i' : PackingItem) × (find? (λ x. x.id == item_id) d.packing_items
          ≡ some i)
        × (find? (λ x. x.id == item_id) d'.packing_items ≡ some i')
        × IsRepacked packed i i')
      × ((k : String)
          → item_id ≢ k
          → find? (λ x. x.id == k) d'.packing_items ≡ find? (λ x. x.id == k) d.packing_items)
      × (d'.segments ≡ d.segments)

  abbrev adjusted : PackingItem → PackingItem
  adjusted i = if i.id == item_id then repacked packed i else i

  id-adjusted : (i : PackingItem) → (adjusted i).id ≡ i.id
  unfolding repacked
  id-adjusted i = ground arith

  any_id :
      (items : List PackingItem)
      → any (λ i. i.id == item_id && i.journey_id == journey_id) items ≡ true
      → any (λ i. i.id == item_id) items ≡ true
  any_id [] e = e
  any_id (i ∷ items) e = ground (arith, any_id items)

  untouched :
      (k : String)
      → item_id ≢ k
      → (o : Option PackingItem) → find? (λ x. x.id == k) d.packing_items ≡ o
      → Option.map adjusted o ≡ o
  untouched k other none e = refl
  untouched k other (some i) e =
      let this = find?-holds (λ x. x.id == k) d.packing_items e in
      ground (arith, eq_iff i.id k, eq_iff i.id item_id)

  set_packed_quantity-Repacked : WhenOk Repacked (set_packed_quantity d journey_id item_id packed r)
  unfolding set_packed_quantity touch_journey owns_item
  set_packed_quantity-Repacked = WhenOk-assert_journey_exists Repacked d journey_id _ λ _.
      WhenOk-assert_owned_item Repacked (owns_item d journey_id item_id) _ λ owned.
        let (i, found) =
          find?-of_any (λ x. x.id == item_id) d.packing_items (any_id d.packing_items owned) in
        let valid =
          All-find? (IsItem date_parses) (λ x. x.id == item_id) d.packing_items found
            h.items.each in
        let this : (i.id == item_id) ≡ true =
          find?-holds (λ x. x.id == item_id) d.packing_items found in
        (
          (
            i,
            repacked packed i,
            found,
            find?-map adjusted item_id id-adjusted d.packing_items ∙ (rw found (rw this refl)),
            repacked-IsRepacked packed i valid.quantity_min,
          ),
          λ k other. find?-map adjusted k id-adjusted d.packing_items ∙ untouched k other _ refl,
          refl,
        )

-- On well-formed data, a change of a packed quantity that returns stores 0 for a number below 0, the
-- item's quantity for a number above it, and any other number as it is, also a fraction or `NaN`; it changes nothing else in the item, no
-- other item and no segment.
pub set_packed_quantity-clamps :
    (date_parses : String → Bool) (d d' : JourneyData) (journey_id item_id : String)
    (packed : Number) (r : Runtime)
    → IsWellFormed date_parses d
    → set_packed_quantity d journey_id item_id packed r ≡ ok d'
    → ((i : PackingItem) × (i' : PackingItem) × (find? (λ x. x.id == item_id) d.packing_items
          ≡ some i)
        × (find? (λ x. x.id == item_id) d'.packing_items ≡ some i')
        × IsRepacked packed i i')
      × ((k : String)
          → item_id ≢ k
          → find? (λ x. x.id == k) d'.packing_items ≡ find? (λ x. x.id == k) d.packing_items)
      × (d'.segments ≡ d.segments)
set_packed_quantity-clamps date_parses d d' journey_id item_id packed r h e =
    WhenOk-eq-ok (Repacked date_parses d journey_id item_id packed r h) _
      (set_packed_quantity-Repacked date_parses d journey_id item_id packed r h) e
