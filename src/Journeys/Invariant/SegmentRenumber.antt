-- ===== src/Journeys/Invariant/SegmentRenumber.antt =====
-- Numbering a journey's segments anew keeps the data well formed.

use trax_os.Common.{
  ℕ, suc, String, Bool, false, ◌≡◌, refl, List, [], ◌∷◌, ◌==◌, Option, none, some, DistinctBy,
  DistinctBy-map, arith, eq_iff, Bool-cases, inl, inr, Permᴰ,
}
use trax_os.Common.Finding.{All-map}
use trax_os.Common.Int.{ℤ, pos, ◌≤ℤ◌}
use trax_os.Common.JsMap
use trax_os.Common.Sort.{sort, IsNumberedFrom}
use trax_os.Journeys.Domain.{Journey, JourneySegment}
use trax_os.Journeys.Service.{index_entries, reposition, renumber}
use trax_os.Journeys.Positions.Renumber.{of_journey, renumber-IsNumbered, of_journey-renumber_ne}
use trax_os.Journeys.Invariant.{IsSegment, AreSegments, AreNumbered}

-- Every index is a natural number.
index_entries_nonneg :
    (n : ℕ) (ss : List JourneySegment) (k : String) (v : ℤ)
    → JsMap.get (index_entries n ss) k ≡ some v
    → pos 0 ≤ℤ v
unfolding index_entries
index_entries_nonneg n [] k v e = cc
index_entries_nonneg n (s ∷ ss) k v e = ground (arith, index_entries_nonneg (suc n) ss k v)

module _ (date_parses : String → Bool) where
  reposition-IsSegment :
      (ss : List JourneySegment) (s : JourneySegment)
      → IsSegment date_parses s
      → IsSegment date_parses (reposition (index_entries 0 ss) s)
  reposition-IsSegment ss s k = record {
    id = k.id;
    journey_id = k.journey_id;
    position = moved (JsMap.get (index_entries 0 ss) s.id) refl;
    start_date = k.start_date;
    end_date = k.end_date;
    order = k.order;
    version = k.version;
    created_at = k.created_at;
    updated_at = k.updated_at;
    names = k.names;
  }
    where
      moved :
          (o : Option ℤ)
          → JsMap.get (index_entries 0 ss) s.id ≡ o
          → pos 0 ≤ℤ (reposition (index_entries 0 ss) s).position
      moved none e = rw e k.position
      moved (some v) e = rw e (index_entries_nonneg 0 ss s.id v e)

  pub renumber-AreSegments :
      (js : List Journey) (ordered ss : List JourneySegment)
      → AreSegments date_parses js ss
      → AreSegments date_parses js (renumber ordered ss)
  renumber-AreSegments js ordered ss h = record {
    distinct =
        DistinctBy-map (λ s. s.id) (reposition (index_entries 0 ordered)) (λ s. refl) ss h.distinct;
    each = All-map _ _ _ (reposition-IsSegment ordered) ss h.each;
    owned = All-map _ _ _ (λ s k. k) ss h.owned;
  }

-- Numbering one journey anew keeps the data well formed, if the others are numbered already.
pub renumber-AreNumbered :
    (j : String) (ordered ss : List JourneySegment)
    → DistinctBy (λ s. s.id) ss
    → Permᴰ (of_journey j ss) ordered
    → ((k : String)
        → (j == k) ≡ false
        → IsNumberedFrom (λ s. s.position) 0 (sort (λ s. s.position) (of_journey k ss)))
    → AreNumbered (renumber ordered ss)
renumber-AreNumbered j ordered ss distinct reorder others k = elim (Bool-cases (j == k)) [
  | inl e ↦ rw (← (eq_iff j k).0 e) (renumber-IsNumbered j ordered ss distinct reorder)
  | inr e ↦
      rw (of_journey-renumber_ne j ordered ss distinct reorder k (λ p. cc ((eq_iff j k).1 p)))
        (others k e)
]
