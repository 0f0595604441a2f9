-- ===== src/Journeys/Invariant/Deletion.antt =====
-- `deleteJourney` takes the segments and the items of the journey away with it, and nothing else.
use trax_os.Common.{
  String, Bool, true, false, not, ◌≡◌, refl, ◌∙◌, List, [], ◌∷◌, ◌==◌, any, All, All-filter,
  DistinctBy-filter, arith, eq_iff, filter, Bool-cases, inl, inr, WhenOk,
}
use trax_os.Common.Sort.{sort}
use trax_os.Journeys.Domain.{Journey, JourneySegment, JourneyData}
use trax_os.Journeys.Service.{delete_journey, WhenOk-assert_journey_exists}
use trax_os.Journeys.Positions.Renumber.{of_journey}
use trax_os.Journeys.Invariant.{AreNumbered, IsWellFormed}

-- A journey id other than the deleted one stays in use.
pub any-filter_ne :
    (k journey_id : String) (js : List Journey)
    → (k == journey_id) ≡ false
    → any (λ j. j.id == k) (filter (λ j. not (j.id == journey_id)) js) ≡ any (λ j. j.id == k) js
any-filter_ne k journey_id [] h = refl
any-filter_ne k journey_id (j ∷ js) h = ground (
  arith,
  any-filter_ne k journey_id js h,
  eq_iff j.id k,
  eq_iff j.id journey_id,
  eq_iff k journey_id,
)

module _ {A : Type 0} (owner : A → String) (journey_id : String) (js : List Journey) where
  owned-filter :
      (xs : List A)
      → All (λ x. any (λ j. j.id == owner x) js ≡ true) xs
      → All
          (λ x. any (λ j. j.id == owner x) (filter (λ j. not (j.id == journey_id)) js) ≡ true)
          (filter (λ x. not (owner x == journey_id)) xs)
  owned-filter [] h = tt
  owned-filter (x ∷ xs) (e, h) = elim (Bool-cases (owner x == journey_id)) [
    | inl gone ↦ rw gone (owned-filter xs h)
    | inr kept ↦ rw kept (any-filter_ne (owner x) journey_id js kept ∙ e, owned-filter xs h)
  ]

pub of_journey-deleted :
    (journey_id : String) (ss : List JourneySegment)
    → of_journey journey_id (filter (λ s. not (s.journey_id == journey_id)) ss) ≡ []
of_journey-deleted journey_id [] = refl
of_journey-deleted journey_id (s ∷ ss) = ground (arith, of_journey-deleted journey_id ss)

pub of_journey-kept :
    (j journey_id : String) (ss : List JourneySegment)
    → (j == journey_id) ≡ false
    → of_journey j (filter (λ s. not (s.journey_id == journey_id)) ss) ≡ of_journey j ss
of_journey-kept j journey_id [] h = refl
of_journey-kept j journey_id (s ∷ ss) h = ground (
  arith,
  of_journey-kept j journey_id ss h,
  eq_iff s.journey_id j,
  eq_iff s.journey_id journey_id,
  eq_iff j journey_id,
)

AreNumbered-deleted :
    (journey_id : String) (ss : List JourneySegment)
    → AreNumbered ss
    → AreNumbered (filter (λ s. not (s.journey_id == journey_id)) ss)
AreNumbered-deleted journey_id ss h j = elim (Bool-cases (j == journey_id)) [
  | inl e ↦ rw ((eq_iff j journey_id).0 e, of_journey-deleted journey_id ss) (unfold sort in tt)
  | inr e ↦ rw (of_journey-kept j journey_id ss e) (h j)
]

pub delete_journey-IsWellFormed :
    (date_parses : String → Bool) (d : JourneyData) (journey_id : String)
    → IsWellFormed date_parses d
    → WhenOk (IsWellFormed date_parses) (delete_journey d journey_id)
unfolding delete_journey
delete_journey-IsWellFormed date_parses d journey_id h =
    WhenOk-assert_journey_exists (IsWellFormed date_parses) d journey_id _ λ _. record {
      journeys = record {
        distinct = DistinctBy-filter (λ j. j.id) _ d.journeys h.journeys.distinct;
        each = All-filter _ _ d.journeys h.journeys.each;
      };
      segments = record {
        distinct = DistinctBy-filter (λ s. s.id) _ d.segments h.segments.distinct;
        each = All-filter _ _ d.segments h.segments.each;
        owned = owned-filter (λ s. s.journey_id) journey_id d.journeys d.segments h.segments.owned;
      };
      numbered = AreNumbered-deleted journey_id d.segments h.numbered;
      items = record {
        distinct = DistinctBy-filter (λ i. i.id) _ d.packing_items h.items.distinct;
        each = All-filter _ _ d.packing_items h.items.each;
        owned =
            owned-filter (λ i. i.journey_id) journey_id d.journeys d.packing_items h.items.owned;
      };
    }
