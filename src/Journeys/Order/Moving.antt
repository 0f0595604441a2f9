-- ===== src/Journeys/Order/Moving.antt =====
-- `moveSegment` shifts one id in the order of its journey.
use mathlib.Core.List.Permᴰ as Perms
use trax_os.Common.{
  ◌<◌, ℕ, zero, suc, String, true, false, ◌≡◌, ◌≢◌, refl, sym, ap, ◌∙◌, List, [], ◌∷◌, ◌==◌, Option,
  none, some, DistinctBy, DistinctBy-perm, DistinctBy-filter, arith, map, find_index, get_elem?,
  set, length, leb, Bool-cases, inl, inr, ok, Permᴰ, WhenOk, WhenOk-bind, WhenOk-eq-ok,
}
use trax_os.Common.Finding.{next_index-eq-some}
use trax_os.Common.Int.{ℤ}
use trax_os.Common.Sort.{sort, sort-perm}
use trax_os.Journeys.Domain.{JourneySegment, JourneyData, segments_for_journey}
use trax_os.Journeys.Service.{
  Runtime, Direction, earlier, later, target_of, found_index, touch_journey, swap_segments, move_to,
  move_segment, WhenOk-assert_journey_exists, reposition, index_entries,
}
use trax_os.Journeys.Positions.Renumber.{
  move_perm, of_journey, sort-renumber, of_journey-renumber_ne,
}
use trax_os.Journeys.Order.{ids, order, shift}
use trax_os.Journeys.Order.Shifting.{shift_last, shift_later, shift_first, shift_earlier}

-- A new position changes no id.
pub ids-map-reposition :
    (m : List (String × ℤ)) (ss : List JourneySegment) → ids (map (reposition m) ss) ≡ ids ss
ids-map-reposition m [] = refl
ids-map-reposition m (s ∷ ss) = ap (◌∷◌ s.id) (ids-map-reposition m ss)

found_index-eq-ok : (o : Option ℕ) {i : ℕ} → found_index o ≡ ok i → o ≡ some i
unfolding found_index
found_index-eq-ok none e = cc
found_index-eq-ok (some i) e = ground arith

module _ (d : JourneyData) (journey_id segment_id : String) (r : Runtime)
    (distinct : DistinctBy (λ s. s.id) d.segments) where
  -- What a move does to the order of its journey and to every other journey.
  abbrev Moved : Direction → JourneyData → Type 0
  Moved direction d' =
      (order d' journey_id ≡ shift direction segment_id (order d journey_id))
      × ((k : String) → journey_id ≢ k → segments_for_journey d' k ≡ segments_for_journey d k)

  ordered_distinct : DistinctBy (λ s. s.id) (segments_for_journey d journey_id)
  unfolding segments_for_journey
  ordered_distinct =
      DistinctBy-perm (λ s. s.id)
        (Perms.symm (sort-perm (λ s. s.position) (of_journey journey_id d.segments)))
        (DistinctBy-filter (λ s. s.id) (λ s. s.journey_id == journey_id) d.segments distinct)

  unmoved :
      (direction : Direction)
      → shift direction segment_id (order d journey_id) ≡ order d journey_id
      → Moved direction d
  unmoved direction e = (sym e, λ k _. refl)

  swapped :
      (direction : Direction) (i t : ℕ) {a b : JourneySegment}
      → target_of direction i ≡ some t
      → get_elem? (segments_for_journey d journey_id) i ≡ some a
      → get_elem? (segments_for_journey d journey_id) t ≡ some b
      → ids (set (set (segments_for_journey d journey_id) i b) t a)
        ≡ shift direction segment_id (order d journey_id)
      → Moved direction
          (swap_segments d journey_id r (segments_for_journey d journey_id) i t (some a) (some b))
  unfolding swap_segments segments_for_journey touch_journey
  swapped direction i t {a} {b} e f g spec =
      let reordered = set (set (segments_for_journey d journey_id) i b) t a in
      let reorder : Permᴰ (of_journey journey_id d.segments) reordered =
        Permᴰ.trans (Perms.symm (sort-perm (λ s. s.position) (of_journey journey_id d.segments)))
          (move_perm direction _ i t e f g) in
      (
        ap ids (sort-renumber journey_id reordered d.segments distinct reorder)
            ∙ ids-map-reposition (index_entries 0 reordered) reordered
            ∙ spec,
        λ k other.
            ap (sort (λ s. s.position))
              (of_journey-renumber_ne journey_id reordered d.segments distinct reorder k other),
      )

  shift_of_target :
      (direction : Direction) (ss : List JourneySegment) (i t : ℕ) {a b : JourneySegment}
      → find_index (λ s. s.id == segment_id) ss ≡ some i
      → target_of direction i ≡ some t
      → get_elem? ss i ≡ some a
      → get_elem? ss t ≡ some b
      → ids (set (set ss i b) t a) ≡ shift direction segment_id (ids ss)
  shift_of_target earlier ss zero t e f g h = cc
  shift_of_target earlier ss (suc i) t {a} {b} e f g h =
      let same : i ≡ t = ground arith in
      rw (← same) (shift_earlier segment_id ss i e g (rw (← same) at h))
  shift_of_target later ss i t {a} {b} e f g h =
      let same : suc i ≡ t = ground arith in
      rw (← same) (shift_later segment_id ss i e g (rw (← same) at h))

  -- The lookups of `reordered[index]` and `reordered[target]` are in range.
  get_elem?_found :
      (ss : List JourneySegment) (i : ℕ)
      → leb (length ss) i ≡ false
      → (a : JourneySegment) × (get_elem? ss i ≡ some a)
  get_elem?_found [] i h = absurd (ground arith)
  get_elem?_found (s ∷ ss) zero h = (s, refl)
  get_elem?_found (s ∷ ss) (suc i) h = get_elem?_found ss i (ground arith)

  find_index_found :
      (ss : List JourneySegment) (i : ℕ)
      → find_index (λ s. s.id == segment_id) ss ≡ some i
      → (a : JourneySegment) × (get_elem? ss i ≡ some a)
  find_index_found [] i e = cc
  find_index_found (s ∷ ss) i e = elim (Bool-cases (s.id == segment_id)) [
    | inl this ↦ let first : i ≡ 0 = ground arith in (s, rw first)
    | inr other ↦
        let (j, found, next) = next_index-eq-some _ (rw other at e) in
        let (a, at) = find_index_found ss j found in (a, rw next at)
  ]

  find_index-lt :
      (ss : List JourneySegment) (i : ℕ)
      → find_index (λ s. s.id == segment_id) ss ≡ some i
      → i < length ss
  find_index-lt [] i e = cc
  find_index-lt (s ∷ ss) i e = elim (Bool-cases (s.id == segment_id)) [
    | inl this ↦ let first : i ≡ 0 = ground arith in omega arith
    | inr other ↦
        let (j, found, next) = next_index-eq-some _ (rw other at e) in
        omega (arith, find_index-lt ss j found)
  ]

  past_end :
      (direction : Direction) (i t : ℕ)
      → find_index (λ s. s.id == segment_id) (segments_for_journey d journey_id) ≡ some i
      → target_of direction i ≡ some t
      → leb (length (segments_for_journey d journey_id)) t ≡ true
      → Moved direction d
  past_end earlier zero t found e past = cc
  past_end earlier (suc i) t found e past =
      let same : i ≡ t = ground arith in
      let within = find_index-lt _ (suc i) found in absurd (ground arith)
  past_end later i t found e past =
      let same : suc i ≡ t = ground arith in
      unmoved later (shift_last segment_id _ i found (rw (← same) at past))

  move_to-Moved :
      (direction : Direction) (i : ℕ)
      → find_index (λ s. s.id == segment_id) (segments_for_journey d journey_id) ≡ some i
      → (o : Option ℕ) → target_of direction i ≡ o
      → Moved direction (move_to d journey_id r (segments_for_journey d journey_id) i o)
  unfolding move_to
  move_to-Moved earlier zero found none e =
      unmoved earlier
        (shift_first segment_id (segments_for_journey d journey_id) ordered_distinct found)
  move_to-Moved earlier (suc i) found none e = cc
  move_to-Moved later i found none e = cc
  move_to-Moved direction i found (some t) e =
      elim (Bool-cases (leb (length (segments_for_journey d journey_id)) t)) [
        | inl past ↦ rw past (past_end direction i t found e past)
        | inr within ↦
            let (a, at_index) = find_index_found (segments_for_journey d journey_id) i found in
            let (b, at_target) = get_elem?_found (segments_for_journey d journey_id) t within in
            rw (within, at_index, at_target)
              (swapped direction i t e at_index at_target (
                shift_of_target direction (segments_for_journey d journey_id) i t found e at_index
                  at_target))
      ]

  move_segment-Moved :
      (direction : Direction)
      → WhenOk (Moved direction) (move_segment d journey_id segment_id direction r)
  unfolding move_segment
  move_segment-Moved direction = WhenOk-assert_journey_exists (Moved direction) d journey_id _ λ _.
      WhenOk-bind (Moved direction)
        (found_index (find_index (λ s. s.id == segment_id) (segments_for_journey d journey_id)))
        (λ i.
          ok (move_to d journey_id r (segments_for_journey d journey_id) i (target_of direction i)))
        λ i e. move_to-Moved direction i (found_index-eq-ok _ e) _ refl

-- A move that returns exchanges the segment with its neighbour on the named side in the order of
-- its journey, and leaves the order as it is where there is none; every other journey keeps its
-- segments as they are. The ids of the segments are distinct.
pub move_segment-order :
    (d d' : JourneyData) (journey_id segment_id : String) (direction : Direction) (r : Runtime)
    → DistinctBy (λ s. s.id) d.segments
    → move_segment d journey_id segment_id direction r ≡ ok d'
    → (order d' journey_id ≡ shift direction segment_id (order d journey_id))
      × ((k : String) → journey_id ≢ k → segments_for_journey d' k ≡ segments_for_journey d k)
move_segment-order d d' journey_id segment_id direction r distinct e =
    WhenOk-eq-ok (Moved d journey_id segment_id r distinct direction) _
      (move_segment-Moved d journey_id segment_id r distinct direction) e
