-- ===== src/Journeys/Invariant/SegmentDelete.antt =====
-- `deleteSegment` keeps the data well formed.
use mathlib.Core.List.Permᴰ as Perms
use trax_os.Common.{
  String, Bool, true, false, not, ◌≡◌, refl, List, [], ◌∷◌, ◌==◌, ◌&&◌, any, All, All-mono,
  All-filter, DistinctBy-filter, arith, eq_iff, filter, WhenOk,
}
use trax_os.Common.Finding.{find?-holds, find?-of_any, find?-unique}
use trax_os.Common.Sort.{sort, sort-perm}
use trax_os.Journeys.Domain.{JourneySegment, JourneyData}
use trax_os.Journeys.Service.{
  Runtime, WhenOk-assert_journey_exists, WhenOk-assert_owned_item, renumber, delete_segment,
}
use trax_os.Journeys.Positions.Renumber.{of_journey}
use trax_os.Journeys.Invariant.{AreSegments, IsWellFormed, IsFresh}
use trax_os.Journeys.Invariant.SegmentNew.{touch_journey-IsWellFormed}
use trax_os.Journeys.Invariant.SegmentRenumber.{renumber-AreSegments, renumber-AreNumbered}

module _ (date_parses : String → Bool) where
  module _ (d : JourneyData) (journey_id segment_id : String) (h : IsWellFormed date_parses d)
      (owned : any (λ s. s.id == segment_id && s.journey_id == journey_id) d.segments ≡ true) where
    abbrev pub remaining : List JourneySegment
    remaining = filter (λ s. not (s.id == segment_id)) d.segments

    -- The deleted segment is of this journey.
    pub elsewhere :
        (k : String)
        → (journey_id == k) ≡ false
        → All (λ s. s.journey_id ≡ k → (s.id == segment_id) ≡ false) d.segments
    elsewhere k other =
        let (e, found) = find?-of_any _ d.segments owned in
        let holds = find?-holds _ d.segments found in
        All-mono (λ s. s.id ≡ e.id → s ≡ e) _
          (λ s only there. ground (
            arith,
            only,
            eq_iff s.id segment_id,
            eq_iff e.id segment_id,
            eq_iff e.journey_id journey_id,
            eq_iff journey_id k,
          ))
          d.segments (find?-unique (λ s. s.id) _ d.segments h.segments.distinct found)

    pub of_journey-remaining :
        (k : String) (ss : List JourneySegment)
        → All (λ s. s.journey_id ≡ k → (s.id == segment_id) ≡ false) ss
        → of_journey k (filter (λ s. not (s.id == segment_id)) ss) ≡ of_journey k ss
    of_journey-remaining k [] a = refl
    of_journey-remaining k (s ∷ ss) (e, a) =
        ground (arith, of_journey-remaining k ss a, e, eq_iff s.journey_id k)

    pub remaining-AreSegments : AreSegments date_parses d.journeys remaining
    remaining-AreSegments = record {
      distinct = DistinctBy-filter (λ s. s.id) _ d.segments h.segments.distinct;
      each = All-filter _ _ d.segments h.segments.each;
      owned = All-filter _ _ d.segments h.segments.owned;
    }

    remaining-IsWellFormed : IsWellFormed date_parses (record d {
      segments = renumber (sort (λ s. s.position) (of_journey journey_id remaining)) remaining;
    })
    remaining-IsWellFormed = record {
      journeys = h.journeys;
      segments = renumber-AreSegments date_parses d.journeys _ remaining remaining-AreSegments;
      numbered =
          renumber-AreNumbered journey_id _ remaining remaining-AreSegments.distinct
            (Perms.symm (sort-perm (λ s. s.position) (of_journey journey_id remaining)))
            (λ k other. rw (of_journey-remaining k d.segments (elsewhere k other)) (h.numbered k));
      items = h.items;
    }

  pub delete_segment-IsWellFormed :
      (d : JourneyData) (journey_id segment_id : String) (r : Runtime)
      → IsWellFormed date_parses d
      → IsFresh date_parses d r
      → WhenOk (IsWellFormed date_parses) (delete_segment d journey_id segment_id r)
  unfolding delete_segment
  delete_segment-IsWellFormed d journey_id segment_id r h fresh =
      WhenOk-assert_journey_exists (IsWellFormed date_parses) d journey_id _ λ _.
        WhenOk-assert_owned_item (IsWellFormed date_parses) _ _ λ owned.
          touch_journey-IsWellFormed date_parses _ journey_id r 0 fresh.now
            (remaining-IsWellFormed d journey_id segment_id h owned)
