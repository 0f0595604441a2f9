-- ===== src/Journeys/Invariant/SegmentMove.antt =====
-- `moveSegment` keeps the data well formed.
use mathlib.Core.List.Permᴰ as Perms
use trax_os.Common.{
  ℕ, String, Bool, ◌≡◌, refl, ◌==◌, Option, none, some, find_index, Bool-cases, inl, inr, WhenOk,
  WhenOk-bind, ok, Permᴰ, length, leb, get_elem?,
}
use trax_os.Common.Sort.{sort-perm}
use trax_os.Journeys.Domain.{JourneySegment, JourneyData, segments_for_journey}
use trax_os.Journeys.Service.{
  Runtime, WhenOk-assert_journey_exists, Direction, target_of, found_index, swap_segments, move_to,
  move_segment,
}
use trax_os.Journeys.Positions.Renumber.{move_perm, of_journey}
use trax_os.Journeys.Invariant.{IsWellFormed, IsFresh}
use trax_os.Journeys.Invariant.SegmentNew.{touch_journey-IsWellFormed}
use trax_os.Journeys.Invariant.SegmentRenumber.{renumber-AreSegments, renumber-AreNumbered}

module _ (date_parses : String → Bool) where
  module _ (d : JourneyData) (journey_id : String) (r : Runtime) (h : IsWellFormed date_parses d)
      (fresh : IsFresh date_parses d r) where
    swap_segments-IsWellFormed :
        (direction : Direction) (i t : ℕ) (a b : Option JourneySegment)
        → target_of direction i ≡ some t
        → get_elem? (segments_for_journey d journey_id) i ≡ a
        → get_elem? (segments_for_journey d journey_id) t ≡ b
        → IsWellFormed date_parses
            (swap_segments d journey_id r (segments_for_journey d journey_id) i t a b)
    unfolding swap_segments segments_for_journey
    swap_segments-IsWellFormed direction i t (some a) (some b) e f g =
        touch_journey-IsWellFormed date_parses _ journey_id r 0 fresh.now (record {
          journeys = h.journeys;
          segments = renumber-AreSegments date_parses d.journeys _ d.segments h.segments;
          numbered =
              renumber-AreNumbered journey_id _ d.segments h.segments.distinct
                (Permᴰ.trans
                  (Perms.symm (sort-perm (λ s. s.position) (of_journey journey_id d.segments)))
                  (move_perm direction _ i t e f g))
                (λ k _. h.numbered k);
          items = h.items;
        })
    swap_segments-IsWellFormed direction i t (some a) none e f g = h
    swap_segments-IsWellFormed direction i t none b e f g = h

    move_to-IsWellFormed :
        (direction : Direction) (i : ℕ) (o : Option ℕ)
        → target_of direction i ≡ o
        → IsWellFormed date_parses (move_to d journey_id r (segments_for_journey d journey_id) i o)
    unfolding move_to
    move_to-IsWellFormed direction i none e = h
    move_to-IsWellFormed direction i (some t) e =
        elim (Bool-cases (leb (length (segments_for_journey d journey_id)) t)) [
          | inl past ↦ rw past h
          | inr within ↦ rw within (swap_segments-IsWellFormed direction i t _ _ e refl refl)
        ]

  pub move_segment-IsWellFormed :
      (d : JourneyData) (journey_id segment_id : String) (direction : Direction) (r : Runtime)
      → IsWellFormed date_parses d
      → IsFresh date_parses d r
      → WhenOk (IsWellFormed date_parses) (move_segment d journey_id segment_id direction r)
  unfolding move_segment
  move_segment-IsWellFormed d journey_id segment_id direction r h fresh =
      WhenOk-assert_journey_exists (IsWellFormed date_parses) d journey_id _ λ _.
        WhenOk-bind (IsWellFormed date_parses)
          (found_index (find_index (λ s. s.id == segment_id) (segments_for_journey d journey_id)))
          (λ i.
            ok (
              move_to d journey_id r (segments_for_journey d journey_id) i (target_of direction i)))
          λ i _. move_to-IsWellFormed d journey_id r h fresh direction i _ refl
