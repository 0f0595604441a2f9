-- ===== src/Journeys/Positions/Lookup.antt =====
-- The map from the segments of a list to their indices, and the change of one segment by it.
use trax_os.Common.{
  ℕ, suc, String, ◌≡◌, ◌≢◌, refl, ap₂, none, some, List, [], ◌∷◌, map, arith, ◌==◌, eq_iff, filter,
  All, DistinctBy,
}
use trax_os.Common.Int.{ℤ, pos}
use trax_os.Common.JsMap
use trax_os.Common.Sort.{IsNumberedFrom}
use trax_os.Journeys.Domain.{JourneySegment}
use trax_os.Journeys.Service.{index_entries, reposition}

get-index_entries_absent :
    (n : ℕ) (k : String) (ss : List JourneySegment)
    → All (λ s. s.id ≢ k) ss
    → JsMap.get (index_entries n ss) k ≡ none
unfolding index_entries
get-index_entries_absent n k [] h = refl
get-index_entries_absent n k (s ∷ ss) (e, h) =
    ground (arith, get-index_entries_absent (suc n) k ss h, eq_iff s.id k)

pub reposition_absent :
    (m : List (String × ℤ)) (s : JourneySegment) → JsMap.get m s.id ≡ none → reposition m s ≡ s
reposition_absent m s h = rw h

pub map-reposition_absent :
    (n : ℕ) (ss xs : List JourneySegment)
    → All (λ x. All (λ s. s.id ≢ x.id) ss) xs
    → map (reposition (index_entries n ss)) xs ≡ xs
map-reposition_absent n ss [] h = refl
map-reposition_absent n ss (x ∷ xs) (e, h) =
    ap₂ ◌∷◌ (reposition_absent (index_entries n ss) x (get-index_entries_absent n x.id ss e))
      (map-reposition_absent n ss xs h)

-- `m` has the entries of a list if it finds all that they have.
abbrev Extends : List (String × ℤ) → List (String × ℤ) → Type 0
Extends m m' = (k : String) (v : ℤ) → JsMap.get m' k ≡ some v → JsMap.get m k ≡ some v

pub map-reposition_numbered :
    (n : ℕ) (ss : List JourneySegment) (m : List (String × ℤ))
    → Extends m (index_entries n ss)
    → DistinctBy (λ s. s.id) ss
    → IsNumberedFrom (λ s. s.position) n (map (reposition m) ss)
unfolding index_entries
map-reposition_numbered n [] m h d = tt
map-reposition_numbered n (s ∷ ss) m h (e, d) =
    let found = h s.id (pos n) (
      JsMap.get-cons_self s.id (pos n) (index_entries (suc n) ss)
        (get-index_entries_absent (suc n) s.id ss e)) in
    (
      rw found,
      map-reposition_numbered (suc n) ss m
          (λ k v p. h k v (JsMap.get-cons s.id k (pos n) v (index_entries (suc n) ss) p)) d,
    )

-- Renumbering moves no segment to another journey.
pub filter-map-reposition :
    (j : String) (m : List (String × ℤ)) (xs : List JourneySegment)
    → filter (λ s. s.journey_id == j) (map (reposition m) xs)
      ≡ map (reposition m) (filter (λ s. s.journey_id == j) xs)
filter-map-reposition j m [] = refl
filter-map-reposition j m (x ∷ xs) = ground (arith, filter-map-reposition j m xs)
