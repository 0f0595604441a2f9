-- ===== src/Journeys/Positions/Renumber.antt =====
-- Numbering one journey's segments anew, seen from every journey.
use mathlib.Core.List.Permᴰ as Perms
use trax_os.Common.{
  ℕ, zero, suc, some, get_elem?, set, String, ◌≡◌, ◌≢◌, ap, ◌∙◌, List, map, Permᴰ, arith, ◌==◌,
  eq_iff, filter, All, All-perm, All-mono, DistinctBy-separate, DistinctBy, DistinctBy-perm,
  DistinctBy-filter,
}
use trax_os.Common.Finding.{swap_later-perm, swap_earlier-perm}
use trax_os.Common.Sort.{sort, sort-eq_numbered, IsNumberedFrom}
use trax_os.Journeys.Domain.{JourneySegment}
use trax_os.Journeys.Service.{
  Direction, earlier, later, target_of, index_entries, reposition, renumber,
}
use trax_os.Journeys.Positions.Lookup.{
  map-reposition_absent, map-reposition_numbered, filter-map-reposition,
}

abbrev pub of_journey : String → List JourneySegment → List JourneySegment
of_journey j = filter (λ s. s.journey_id == j)

module _ (j : String) (ordered segments : List JourneySegment)
    (distinct : DistinctBy (λ s. s.id) segments)
    (reorder : Permᴰ (of_journey j segments) ordered) where
  ordered_distinct : DistinctBy (λ s. s.id) ordered
  ordered_distinct =
      DistinctBy-perm (λ s. s.id) reorder
        (DistinctBy-filter (λ s. s.id) (λ s. s.journey_id == j) segments distinct)

  -- The journey's segments come in the order of `ordered`, …
  pub sort-renumber :
      sort (λ s. s.position) (of_journey j (renumber ordered segments))
      ≡ map (reposition (index_entries 0 ordered)) ordered
  sort-renumber =
      ap (sort (λ s. s.position)) (filter-map-reposition j (index_entries 0 ordered) segments)
      ∙ sort-eq_numbered (λ s. s.position) 0
          (Perms.map (reposition (index_entries 0 ordered)) reorder)
          (map-reposition_numbered 0 ordered (index_entries 0 ordered) (λ k v p. p)
            ordered_distinct)

  -- … numbered from 0.
  pub renumber-IsNumbered :
      IsNumberedFrom
        (λ s. s.position)
        0
        (sort (λ s. s.position) (of_journey j (renumber ordered segments)))
  renumber-IsNumbered =
      rw sort-renumber
        (map-reposition_numbered 0 ordered (index_entries 0 ordered) (λ k v p. p) ordered_distinct)

  -- The segments of another journey stay as they are.
  pub of_journey-renumber_ne :
      (k : String) → j ≢ k → of_journey k (renumber ordered segments) ≡ of_journey k segments
  of_journey-renumber_ne k other =
      filter-map-reposition k (index_entries 0 ordered) segments
      ∙ map-reposition_absent 0 ordered (of_journey k segments) (
          All-mono (λ x. All (λ s. s.id ≢ x.id) (of_journey j segments))
            (λ x. All (λ s. s.id ≢ x.id) ordered) (λ x. All-perm (λ s. s.id ≢ x.id) reorder)
            (of_journey k segments)
            (DistinctBy-separate (λ s. s.id) (λ s. s.journey_id == j) (λ s. s.journey_id == k)
              (λ s e. ground (arith, eq_iff s.journey_id j, eq_iff s.journey_id k)) segments
              distinct))

-- The two segments that `moveSegment` exchanges are neighbours.
pub move_perm :
    (direction : Direction) (ss : List JourneySegment) (i t : ℕ) {a b : JourneySegment}
    → target_of direction i ≡ some t
    → get_elem? ss i ≡ some a
    → get_elem? ss t ≡ some b
    → Permᴰ ss (set (set ss i b) t a)
move_perm earlier ss zero t e f g = cc
move_perm earlier ss (suc i) t {a} {b} e f g =
    let same : i ≡ t = ground arith in rw (← same) (swap_earlier-perm ss i f (rw (← same) at g))
move_perm later ss i t {a} {b} e f g =
    let same : suc i ≡ t = ground arith in rw (← same) (swap_later-perm ss i f (rw (← same) at g))
