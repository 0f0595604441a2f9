-- ===== src/Journeys/Stored/Accepted.antt =====
-- What `parseJourneyData` has established of a value that it returns.
use trax_os.Common.{
  String, Bool, true, false, not, ◌&&◌, ◌||◌, ◌==◌, List, [], ◌∷◌, ◌≡◌, ◌≢◌, any, All, DistinctBy,
  arith, ok, eq_iff, bind-eq-ok, guard, All-mono,
}
use trax_os.Common.Int.{ℤ}
use trax_os.Common.Json.{Value, Values, no_values, item, field, elements, text_of, int_of}
use trax_os.Journeys.Stored.{
  passes, has_position, position_entry, ids_after, journey_tests, journey_ok, journeys_ok,
  segment_tests, segment_ok, segments_ok, item_tests, item_ok, items_ok, data_tests, data_ok,
  parse_journey_data, invalid_local_data,
}

-- The elements of the array in a field.
abbrev list_of : Values → List Value
list_of no_values = []
list_of (item v vs) = v ∷ list_of vs

abbrev pub all_of : Value → String → List Value
all_of v k = list_of (elements (field v k))

abbrev pub id_of : Value → String
id_of v = text_of (field v "id")

abbrev pub owner_of : Value → String
owner_of v = text_of (field v "journeyId")

-- No two values of one journey have one position.
abbrev pub ArePlaced : List Value → Type 0
ArePlaced [] = Unit
ArePlaced (s ∷ ss) =
    All (λ t. owner_of t ≡ owner_of s → int_of (field t "position") ≢ int_of (field s "position"))
      ss
    × ArePlaced ss

abbrev IsNew : List String → Value → Type 0
IsNew seen v = any (λ s. s == id_of v) seen ≡ false

passed : (tests : List Bool) → passes tests ≡ true → All (λ b. b ≡ true) tests
passed [] h = tt
passed (b ∷ tests) h = (ground arith, passed tests (ground arith))

fresh : {b : Bool} → not b ≡ true → b ≡ false
fresh e = ground arith

left_of : (a b : Bool) → (a && b) ≡ true → a ≡ true
left_of a b h = ground arith

right_of : (a b : Bool) → (a && b) ≡ true → b ≡ true
right_of a b h = ground arith

apart-of_IsNew :
    (seen : List String) (k : String) (vs : List Value)
    → All (IsNew (k ∷ seen)) vs
    → All (λ v. id_of v ≢ k) vs × All (IsNew seen) vs
apart-of_IsNew seen k [] h = (tt, tt)
apart-of_IsNew seen k (v ∷ vs) (e, h) =
    let (apart, new) = apart-of_IsNew seen k vs h in
    (((λ p. ground (arith, eq_iff k (id_of v))), apart), (ground arith, new))

module _ (date_parses : String → Bool) where
  journeys_ok-distinct :
      (seen : List String) (vs : Values)
      → journeys_ok date_parses seen vs ≡ true
      → All (IsNew seen) (list_of vs) × DistinctBy id_of (list_of vs)
  unfolding journeys_ok journey_ok
  journeys_ok-distinct seen no_values h = (tt, tt)
  journeys_ok-distinct seen (item j js) h =
      let tests = passed (journey_tests date_parses seen j) (
        left_of (passes (journey_tests date_parses seen j))
          (journeys_ok date_parses (id_of j ∷ seen) js) h) in
      let (new, distinct) =
        journeys_ok-distinct (id_of j ∷ seen) js
          (right_of _ (journeys_ok date_parses (id_of j ∷ seen) js) h) in
      let (apart, unseen) = apart-of_IsNew seen (id_of j) (list_of js) new in
      ((fresh tests.1.1.0, unseen), (apart, distinct))

  -- The place of the value is none of those.
  abbrev IsFree : List (String × ℤ) → Value → Type 0
  IsFree taken v = has_position date_parses taken v ≡ false

  apart-of_IsFree :
      (s : Value) (taken : List (String × ℤ)) (vs : List Value)
      → All (IsFree (position_entry date_parses s ∷ taken)) vs
      → All
          (λ t. owner_of t ≡ owner_of s → int_of (field t "position") ≢ int_of (field s "position"))
          vs
        × All (IsFree taken) vs
  apart-of_IsFree s taken [] h = (tt, tt)
  apart-of_IsFree s taken (t ∷ vs) (e, h) =
      let (apart, free) = apart-of_IsFree s taken vs h in
      (((λ p q. ground (arith, eq_iff (owner_of s) (owner_of t))), apart), (ground arith, free))

  segments_ok-placed :
      (js seen : List String) (taken : List (String × ℤ)) (vs : Values)
      → segments_ok date_parses js seen taken vs ≡ true
      → (All (IsNew seen) (list_of vs) × DistinctBy id_of (list_of vs))
        × (All (IsFree taken) (list_of vs) × ArePlaced (list_of vs))
        × All (λ s. any (λ k. k == owner_of s) js ≡ true) (list_of vs)
  unfolding segments_ok segment_ok
  segments_ok-placed js seen taken no_values h = ((tt, tt), (tt, tt), tt)
  segments_ok-placed js seen taken (item s ss) h =
      let later =
        segments_ok date_parses js (id_of s ∷ seen) (position_entry date_parses s ∷ taken) ss in
      let tests =
        passed (segment_tests date_parses js seen taken s)
          (left_of (passes (segment_tests date_parses js seen taken s)) later h) in
      let ((new, distinct), (free, placed), owned) =
        segments_ok-placed js (id_of s ∷ seen) (position_entry date_parses s ∷ taken) ss
          (right_of (passes (segment_tests date_parses js seen taken s)) later h) in
      let (apart, unseen) = apart-of_IsNew seen (id_of s) (list_of ss) new in
      let (places, untaken) = apart-of_IsFree s taken (list_of ss) free in
      (
        ((fresh tests.1.1.0, unseen), (apart, distinct)),
        ((fresh tests.1.1.1.1.1.1.1.1.1.1.1.1.1.1.0, untaken), (places, placed)),
        (tests.1.1.1.1.0, owned),
      )

  items_ok-distinct :
      (js seen : List String) (vs : Values)
      → items_ok date_parses js seen vs ≡ true
      → (All (IsNew seen) (list_of vs) × DistinctBy id_of (list_of vs))
        × All (λ i. any (λ k. k == owner_of i) js ≡ true) (list_of vs)
  unfolding items_ok item_ok
  items_ok-distinct js seen no_values h = ((tt, tt), tt)
  items_ok-distinct js seen (item i is) h =
      let tests = passed (item_tests date_parses js seen i) (
        left_of (passes (item_tests date_parses js seen i))
          (items_ok date_parses js (id_of i ∷ seen) is) h) in
      let ((new, distinct), owned) = items_ok-distinct js (id_of i ∷ seen) is (
        right_of (passes (item_tests date_parses js seen i))
          (items_ok date_parses js (id_of i ∷ seen) is) h) in
      let (apart, unseen) = apart-of_IsNew seen (id_of i) (list_of is) new in
      (((fresh tests.1.1.0, unseen), (apart, distinct)), (tests.1.1.1.1.0, owned))

  any-ids_after :
      (k : String) (seen : List String) (vs : Values)
      → any (λ s. s == k) (ids_after date_parses seen vs) ≡ true
      → (any (λ j. id_of j == k) (list_of vs) || any (λ s. s == k) seen) ≡ true
  any-ids_after k seen no_values h = h
  any-ids_after k seen (item v vs) h = ground (arith, any-ids_after k (id_of v ∷ seen) vs h)

  listed :
      (k : String) (vs : Values)
      → any (λ s. s == k) (ids_after date_parses [] vs) ≡ true
      → any (λ j. id_of j == k) (list_of vs) ≡ true
  listed k vs h = ground (arith, any-ids_after k [] vs h)

  -- No id is listed twice, every segment and item belongs to a listed journey, and no two segments
  -- of a journey have one position.
  pub record IsConsistent (v : Value) : Type 0 where
    pub journeys : DistinctBy id_of (all_of v "journeys")
    pub segments : DistinctBy id_of (all_of v "segments")
    pub items : DistinctBy id_of (all_of v "packingItems")
    pub placed : ArePlaced (all_of v "segments")
    pub owned_segments :
        All
          (λ s. any (λ j. id_of j == owner_of s) (all_of v "journeys") ≡ true)
          (all_of v "segments")
    pub owned_items :
        All
          (λ i. any (λ j. id_of j == owner_of i) (all_of v "journeys") ≡ true)
          (all_of v "packingItems")

  -- What `parseJourneyData` returns is the value that it was given, and that value is consistent.
  pub parse_journey_data-IsConsistent :
      (v w : Value) → parse_journey_data date_parses v ≡ ok w → (w ≡ v) × IsConsistent v
  unfolding parse_journey_data
  parse_journey_data-IsConsistent v w e =
      let (_, accepted, same) = bind-eq-ok (guard (data_ok date_parses v) invalid_local_data) _ e in
      let tests = passed (data_tests date_parses v) (ground arith) in
      let js = elements (field v "journeys") in
      let ss =
        segments_ok-placed (ids_after date_parses [] js) [] [] (elements (field v "segments"))
          tests.1.1.1.1.1.1.0 in
      let is =
        items_ok-distinct (ids_after date_parses [] js) [] (elements (field v "packingItems"))
          tests.1.1.1.1.1.1.1.0 in
      (
        ground arith,
        record {
          journeys = (journeys_ok-distinct [] js tests.1.1.1.1.1.0).1;
          segments = ss.0.1;
          items = is.0.1;
          placed = ss.1.1;
          owned_segments =
              All-mono _ _ (λ s o. listed (owner_of s) js o) (all_of v "segments") ss.2;
          owned_items =
              All-mono _ _ (λ i o. listed (owner_of i) js o) (all_of v "packingItems") is.1;
        },
      )
