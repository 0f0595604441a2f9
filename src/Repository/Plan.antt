-- ===== src/Repository/Plan.antt =====
-- The calls that `save` of http-journey-repository.ts makes, in order. They follow from the data
-- that was loaded and the data to save; the answers do not change them, save that an error ends them.
use trax_os.Common.{
  String, Bool, true, false, not, ◌&&◌, Option, none, some, List, [], ◌∷◌, ◌++◌, ◌==◌, any, filter,
  find?, find_index, if◌then◌else◌,
}
use trax_os.Common.Int.{ℤ, pos, negsuc}
use trax_os.Common.Sort.{sort}
use trax_os.Common.Json.{Value, object, no_fields, entry, number}
use trax_os.Journeys.Domain.{Journey, JourneySegment, PackingItem, JourneyData}
use trax_os.Journeys.Stored.Encoding.{encode_int}
use trax_os.Repository.Requests.{
  Request, journey_body, segment_body, packing_body, with_version, journey_changed, segment_changed,
  packing_definition_changed,
}
use trax_os.Common.Number.{same_number}

-- The update of a journey is a command, whose body is made when its turn comes.
pub data Call : Type 0 where
  request : Request → Call
  journey_update : (old new : Journey) → Call

abbrev pub has_journey : List Journey → String → Bool
has_journey js k = any (λ j. j.id == k) js

abbrev pub has_segment : List JourneySegment → String → Bool
has_segment ss k = any (λ s. s.id == k) ss

abbrev pub has_item : List PackingItem → String → Bool
has_item items k = any (λ i. i.id == k) items

-- one call for every element that a loop selects
abbrev pub each_of {ℓ} : {A : Type ℓ} → (A → Bool) → (A → Request) → List A → List Call
each_of test call [] = []
each_of test call (x ∷ xs) =
    let rest = each_of test call xs in if test x then request (call x) ∷ rest else rest

abbrev pub concat_map {ℓ} : {A : Type ℓ} → (A → List Call) → List A → List Call
concat_map f [] = []
concat_map f (x ∷ xs) = f x ++ concat_map f xs

unfoldable pub journey_deletions : JourneyData → JourneyData → List Call
journey_deletions previous next =
    each_of (λ j. not (has_journey next.journeys j.id)) (λ j. Request.delete_journey j.id)
      previous.journeys

unfoldable pub journey_calls : Option Journey → Journey → List Call
journey_calls none j = request (Request.create_journey (object (journey_body j true))) ∷ []
journey_calls (some old) j = if journey_changed old j then journey_update old j ∷ [] else []

abbrev pub journey_changes : JourneyData → JourneyData → List Call
journey_changes previous next =
    concat_map (λ j. journey_calls (find? (λ o. o.id == j.id) previous.journeys) j) next.journeys

abbrev pub is_living : JourneyData → String → Bool
is_living next journey_id = has_journey next.journeys journey_id

unfoldable pub segment_deletions : JourneyData → JourneyData → List Call
segment_deletions previous next =
    each_of (λ s. is_living next s.journey_id && not (has_segment next.segments s.id))
      (λ s. Request.delete_segment s.journey_id s.id) previous.segments

abbrev pub sorted_of : String → List JourneySegment → List JourneySegment
sorted_of j ss = sort (λ s. s.position) (filter (λ s. s.journey_id == j) ss)

-- `before[index]?.id === id`
abbrev pub starts_with : List JourneySegment → String → Bool
starts_with [] k = false
starts_with (s ∷ ss) k = s.id == k

abbrev pub rest_of : List JourneySegment → List JourneySegment
rest_of [] = []
rest_of (s ∷ ss) = ss

-- the first segment of `after` that stood elsewhere before
unfoldable pub moved_segment :
    List JourneySegment → (before after : List JourneySegment) → Option JourneySegment
moved_segment known before [] = none
moved_segment known before (s ∷ after) =
    let later = moved_segment known (rest_of before) after in
    if not (starts_with before s.id) && has_segment known s.id then some s else later

-- `findIndex`, with -1 where there is none
abbrev pub position_in : String → List JourneySegment → ℤ
position_in k ss = elim (find_index (λ s. s.id == k) ss) [ none ↦ negsuc 0 | some i ↦ pos i ]

-- `old` is there where a moved segment was found.
unfoldable pub reorder_calls :
    JourneyData → (journey_id : String) → List JourneySegment → Option JourneySegment → List Call
reorder_calls previous journey_id after none = []
reorder_calls previous journey_id after (some s) =
    elim (find? (λ o. o.id == s.id) previous.segments) [
      | none ↦ []
      | some old ↦
          request (
            Request.reorder_segment journey_id s.id (
              object (
                entry "expected_record_version" (encode_int old.record_version)
                  (entry "new_position" (encode_int (position_in s.id after)) no_fields))))
          ∷ []
    ]

unfoldable pub reorderings : JourneyData → JourneyData → Journey → List Call
reorderings previous next j =
    let after = sorted_of j.id next.segments in
    reorder_calls previous j.id after
      (moved_segment previous.segments (sorted_of j.id previous.segments) after)

abbrev pub all_reorderings : JourneyData → JourneyData → List Call
all_reorderings previous next = concat_map (reorderings previous next) next.journeys

unfoldable pub packing_deletions : JourneyData → JourneyData → List Call
packing_deletions previous next =
    each_of (λ i. is_living next i.journey_id && not (has_item next.packing_items i.id))
      (λ i. Request.delete_packing i.journey_id i.id) previous.packing_items

module _ (json : Value → String) where
  unfoldable pub segment_calls : Option JourneySegment → JourneySegment → List Call
  segment_calls none s =
      request (Request.create_segment s.journey_id (object (segment_body s true))) ∷ []
  segment_calls (some old) s =
      if segment_changed json old s
      then request (
          Request.update_segment s.journey_id s.id
            (with_version (segment_body s false) old.record_version))
        ∷ []
      else []

  unfoldable pub packing_calls : Option PackingItem → PackingItem → List Call
  packing_calls none item =
      request (Request.create_packing item.journey_id (object (packing_body item true))) ∷ []
  packing_calls (some old) item =
      if packing_definition_changed json old item
      then request (
          Request.update_packing item.journey_id item.id
            (with_version (packing_body item false) old.record_version))
        ∷ []
      else if not (same_number old.packed_quantity item.packed_quantity)
      then request (
          Request.update_packing_progress item.journey_id item.id (
            object (
              entry "expected_record_version" (encode_int old.record_version)
                (entry "packed_quantity" (number item.packed_quantity) no_fields))))
        ∷ []
      else []

  abbrev pub segment_changes : JourneyData → JourneyData → List Call
  segment_changes previous next =
      concat_map (λ s. segment_calls (find? (λ o. o.id == s.id) previous.segments) s) next.segments

  abbrev pub packing_changes : JourneyData → JourneyData → List Call
  packing_changes previous next =
      concat_map (λ i. packing_calls (find? (λ o. o.id == i.id) previous.packing_items) i)
        next.packing_items

  unfoldable pub save_calls : JourneyData → JourneyData → List Call
  save_calls previous next =
      journey_deletions previous next
      ++ (journey_changes previous next
          ++ (segment_deletions previous next
              ++ (segment_changes previous next
                  ++ (all_reorderings previous next
                      ++ (packing_deletions previous next ++ packing_changes previous next)))))
