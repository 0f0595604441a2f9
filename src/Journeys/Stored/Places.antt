-- ===== src/Journeys/Stored/Places.antt =====
-- In well-formed data no two segments of a journey have one position.
use trax_os.Common.{
  true, String, List, [], ◌∷◌, ◌≡◌, ◌≢◌, ◌==◌, All, DistinctBy, DistinctBy-perm, Bool-cases, inl,
  inr, arith, eq_iff, eq_refl,
}
use trax_os.Common.Sort.{sort, sort-perm, IsNumberedFrom-distinct}
use trax_os.Journeys.Domain.{JourneySegment}
use trax_os.Journeys.Positions.Renumber.{of_journey}
use trax_os.Journeys.Invariant.{AreNumbered}

abbrev pub AreApart : List JourneySegment → Type 0
AreApart [] = Unit
AreApart (s ∷ ss) =
    All (λ t. t.journey_id ≡ s.journey_id → t.position ≢ s.position) ss × AreApart ss

All-of_journey :
    (P : JourneySegment → Type 0) (j : String) (ss : List JourneySegment)
    → All P (of_journey j ss)
    → All (λ t. t.journey_id ≡ j → P t) ss
All-of_journey P j [] h = tt
All-of_journey P j (s ∷ ss) h = elim (Bool-cases (s.journey_id == j)) [
  | inl e ↦ let (p, k) = within e in ((λ q. p), All-of_journey P j ss k)
  | inr e ↦ ((λ p. ground (arith, eq_iff s.journey_id j)), All-of_journey P j ss (rw e at h))
]
  where
    within : (s.journey_id == j) ≡ true → P s × All P (of_journey j ss)
    within e = rw e at h

tail_distinct :
    (j : String) (s : JourneySegment) (ss : List JourneySegment)
    → DistinctBy (λ x. x.position) (of_journey j (s ∷ ss))
    → DistinctBy (λ x. x.position) (of_journey j ss)
tail_distinct j s ss h = elim (Bool-cases (s.journey_id == j)) [
  | inl e ↦ (rw e at h).1
  | inr e ↦ rw e at h
]

head_apart :
    (s : JourneySegment) (ss : List JourneySegment)
    → DistinctBy (λ x. x.position) (of_journey s.journey_id (s ∷ ss))
    → All (λ t. t.position ≢ s.position) (of_journey s.journey_id ss)
head_apart s ss h = (rw (eq_refl s.journey_id) at h).0

AreApart-distinct :
    (ss : List JourneySegment)
    → ((j : String) → DistinctBy (λ x. x.position) (of_journey j ss))
    → AreApart ss
AreApart-distinct [] h = tt
AreApart-distinct (s ∷ ss) h = (
  All-of_journey (λ t. t.position ≢ s.position) s.journey_id ss (head_apart s ss (h s.journey_id)),
  AreApart-distinct ss λ j. tail_distinct j s ss (h j),
)

pub AreApart-numbered : (ss : List JourneySegment) → AreNumbered ss → AreApart ss
AreApart-numbered ss h = AreApart-distinct ss λ j.
    DistinctBy-perm (λ x. x.position) (sort-perm (λ x. x.position) (of_journey j ss))
      (IsNumberedFrom-distinct (λ x. x.position) 0 (sort (λ x. x.position) (of_journey j ss)) (h j))
