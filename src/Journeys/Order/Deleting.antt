-- ===== src/Journeys/Order/Deleting.antt =====
-- `deleteSegment` takes one id out of the order of its journey.
use mathlib.Core.List.Permᴰ as Perms
use trax_os.Common.{
  String, Bool, not, ◌≡◌, ◌≢◌, refl, ap, ◌∙◌, List, [], ◌∷◌, ◌==◌, arith, eq_iff, filter, ok, Permᴰ,
  WhenOk, WhenOk-eq-ok,
}
use trax_os.Common.Sort.{sort, sort-perm}
use trax_os.Common.Sort.Ascending.{IsNumberedFrom-IsAscending, sort-filter}
use trax_os.Journeys.Domain.{JourneySegment, JourneyData, segments_for_journey}
use trax_os.Journeys.Service.{
  Runtime, touch_journey, delete_segment, index_entries, WhenOk-assert_journey_exists,
  WhenOk-assert_owned_item,
}
use trax_os.Journeys.Positions.Renumber.{of_journey, sort-renumber, of_journey-renumber_ne}
use trax_os.Journeys.Invariant.{IsWellFormed}
use trax_os.Journeys.Invariant.SegmentDelete.{
  elsewhere, of_journey-remaining, remaining-AreSegments,
}
use trax_os.Journeys.Order.{ids, order}
use trax_os.Journeys.Order.Moving.{ids-map-reposition}

filter_comm :
    (p q : JourneySegment → Bool) (ss : List JourneySegment)
    → filter p (filter q ss) ≡ filter q (filter p ss)
filter_comm p q [] = refl
filter_comm p q (s ∷ ss) = ground (arith, filter_comm p q ss)

ids-filter :
    (k : String) (ss : List JourneySegment)
    → ids (filter (λ s. not (s.id == k)) ss) ≡ filter (λ i. not (i == k)) (ids ss)
ids-filter k [] = refl
ids-filter k (s ∷ ss) = ground (arith, ids-filter k ss)

module _ (date_parses : String → Bool) (d : JourneyData) (journey_id segment_id : String)
    (r : Runtime) (h : IsWellFormed date_parses d) where
  abbrev Deleted : JourneyData → Type 0
  Deleted d' =
      (order d' journey_id ≡ filter (λ i. not (i == segment_id)) (order d journey_id))
      × ((k : String) → journey_id ≢ k → segments_for_journey d' k ≡ segments_for_journey d k)

  -- What is left of the journey, in order, is its order without the segment.
  order_left :
      ids (
        sort
          (λ s. s.position)
          (of_journey journey_id (filter (λ s. not (s.id == segment_id)) d.segments)))
      ≡ filter (λ i. not (i == segment_id)) (order d journey_id)
  unfolding segments_for_journey
  order_left =
      ap (λ ss. ids (sort (λ s. s.position) ss))
        (filter_comm (λ s. s.journey_id == journey_id) (λ s. not (s.id == segment_id)) d.segments)
      ∙ ap ids (
          sort-filter (λ s. s.position) (λ s. not (s.id == segment_id))
            (of_journey journey_id d.segments)
            (IsNumberedFrom-IsAscending (λ s. s.position) 0 _ (h.numbered journey_id)))
      ∙ ids-filter segment_id (sort (λ s. s.position) (of_journey journey_id d.segments))

  delete_segment-Deleted : WhenOk Deleted (delete_segment d journey_id segment_id r)
  unfolding delete_segment touch_journey segments_for_journey
  delete_segment-Deleted = WhenOk-assert_journey_exists Deleted d journey_id _ λ _.
      WhenOk-assert_owned_item Deleted _ _ λ owned.
        let left : List JourneySegment = filter (λ s. not (s.id == segment_id)) d.segments in
        let ordered = sort (λ s. s.position) (of_journey journey_id left) in
        let distinct =
          (remaining-AreSegments date_parses d journey_id segment_id h owned).distinct in
        let reorder : Permᴰ (of_journey journey_id left) ordered =
          Perms.symm (sort-perm (λ s. s.position) (of_journey journey_id left)) in
        (
          ap ids (sort-renumber journey_id ordered left distinct reorder)
              ∙ ids-map-reposition (index_entries 0 ordered) ordered
              ∙ order_left,
          λ k other. ap (sort (λ s. s.position)) (
              of_journey-renumber_ne journey_id ordered left distinct reorder k other
              ∙ of_journey-remaining date_parses d journey_id segment_id h owned k d.segments (
                  elsewhere date_parses d journey_id segment_id h owned k
                    (ground (arith, eq_iff journey_id k)))),
        )

-- On well-formed data, a deletion that returns takes the id out of the order of its journey, and
-- every other journey keeps its segments as they are.
pub delete_segment-order :
    (date_parses : String → Bool) (d d' : JourneyData) (journey_id segment_id : String)
    (r : Runtime)
    → IsWellFormed date_parses d
    → delete_segment d journey_id segment_id r ≡ ok d'
    → (order d' journey_id ≡ filter (λ i. not (i == segment_id)) (order d journey_id))
      × ((k : String) → journey_id ≢ k → segments_for_journey d' k ≡ segments_for_journey d k)
delete_segment-order date_parses d d' journey_id segment_id r h e =
    WhenOk-eq-ok (Deleted date_parses d journey_id segment_id r h) _
      (delete_segment-Deleted date_parses d journey_id segment_id r h) e
