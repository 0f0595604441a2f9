-- ===== src/Journeys/Cascade.antt =====
-- `deleteJourney` removes a journey with its segments and items, and nothing of another journey.
use trax_os.Common.{
  String, false, not, ◌≡◌, ◌≢◌, refl, ap, List, [], ◌∷◌, ◌==◌, any, arith, eq_iff, filter, ok,
  WhenOk, WhenOk-eq-ok,
}
use trax_os.Common.Sort.{sort}
use trax_os.Journeys.Domain.{
  Journey, PackingItem, JourneyData, segments_for_journey, packing_for_journey,
}
use trax_os.Journeys.Service.{journey_exists, delete_journey, WhenOk-assert_journey_exists}
use trax_os.Journeys.Invariant.Deletion.{of_journey-deleted, of_journey-kept, any-filter_ne}

exists-deleted :
    (journey_id : String) (js : List Journey)
    → any (λ j. j.id == journey_id) (filter (λ j. not (j.id == journey_id)) js) ≡ false
exists-deleted journey_id [] = refl
exists-deleted journey_id (j ∷ js) = ground (arith, exists-deleted journey_id js)

items-deleted :
    (journey_id : String) (items : List PackingItem)
    → filter
        (λ i. i.journey_id == journey_id)
        (filter (λ i. not (i.journey_id == journey_id)) items)
      ≡ []
items-deleted journey_id [] = refl
items-deleted journey_id (i ∷ items) = ground (arith, items-deleted journey_id items)

items-kept :
    (k journey_id : String) (items : List PackingItem)
    → (k == journey_id) ≡ false
    → filter (λ i. i.journey_id == k) (filter (λ i. not (i.journey_id == journey_id)) items)
      ≡ filter (λ i. i.journey_id == k) items
items-kept k journey_id [] h = refl
items-kept k journey_id (i ∷ items) h = ground (
  arith,
  items-kept k journey_id items h,
  eq_iff i.journey_id k,
  eq_iff i.journey_id journey_id,
  eq_iff k journey_id,
)

-- What is left of the data, seen from the deleted journey and from another.
pub record IsDeleted (d d' : JourneyData) (journey_id : String) : Type 0 where
  pub gone : journey_exists d' journey_id ≡ false
  pub no_segments : segments_for_journey d' journey_id ≡ []
  pub no_items : packing_for_journey d' journey_id ≡ []
  pub others : (k : String) → k ≢ journey_id → journey_exists d' k ≡ journey_exists d k
  pub segments :
      (k : String) → k ≢ journey_id → segments_for_journey d' k ≡ segments_for_journey d k
  pub items : (k : String) → k ≢ journey_id → packing_for_journey d' k ≡ packing_for_journey d k

delete_journey-WhenOk :
    (d : JourneyData) (journey_id : String)
    → WhenOk (λ d'. IsDeleted d d' journey_id) (delete_journey d journey_id)
unfolding delete_journey segments_for_journey packing_for_journey sort
delete_journey-WhenOk d journey_id =
    let apart = λ (k : String) (other : k ≢ journey_id).
      let e : (k == journey_id) ≡ false = ground (arith, eq_iff k journey_id) in e in
    WhenOk-assert_journey_exists (λ d'. IsDeleted d d' journey_id) d journey_id _
      λ _. record {
        gone = exists-deleted journey_id d.journeys;
        no_segments = ap (sort (λ s. s.position)) (of_journey-deleted journey_id d.segments);
        no_items = items-deleted journey_id d.packing_items;
        others = λ k other. any-filter_ne k journey_id d.journeys (apart k other);
        segments = λ k other.
            ap (sort (λ s. s.position)) (of_journey-kept k journey_id d.segments (apart k other));
        items = λ k other. items-kept k journey_id d.packing_items (apart k other);
      }

-- After a deletion that returns, the journey does not exist and has no segments and no items;
-- of every other journey, its existence, its segments and its items are as before.
pub delete_journey-IsDeleted :
    (d d' : JourneyData) (journey_id : String)
    → delete_journey d journey_id ≡ ok d'
    → IsDeleted d d' journey_id
delete_journey-IsDeleted d d' journey_id e =
    WhenOk-eq-ok (λ x. IsDeleted d x journey_id) _ (delete_journey-WhenOk d journey_id) e
