-- ===== src/Repository/Reordering/Moving.antt =====
-- The reorder request that follows from moveSegment of journey-service.ts.
use trax_os.Common.{
  ℕ, zero, suc, String, Bool, true, false, not, ◌&&◌, Option, none, some, List, [], ◌∷◌, ◌≡◌, ◌≢◌,
  refl, sym, All-mono, ap₂, subst, ◌==◌, All, DistinctBy, find_index, next_index, if◌then◌else◌,
  Bool-cases, inl, inr, eq_iff, eq_refl, arith, ok,
}
use trax_os.Common.Finding.{find?-of_any, next_index-eq-some}
use trax_os.Journeys.Domain.{segments_for_journey, JourneySegment, JourneyData, Journey}
use trax_os.Journeys.Service.{move_segment, Runtime, Direction, earlier, later}
use trax_os.Journeys.Order.{ids, order, shift}
use trax_os.Journeys.Order.Moving.{move_segment-order}
use trax_os.Common.{All-perm, All-filter, DistinctBy-perm, DistinctBy-filter, filter}
use mathlib.Core.List.Permᴰ as Perms
use trax_os.Common.Sort.{sort-perm}
use trax_os.Repository.Plan.{
  position_in, sorted_of, reorderings, reorder_calls, has_segment, starts_with, rest_of,
  moved_segment,
}
use trax_os.Repository.Reordering.{taken_out, put_in, run_order}

-- The segment that is sent, taken out and put in at its place, gives the order after; where none is
-- sent the order is the same.
IsPlaced : (before : List String) (after : List JourneySegment) → Option JourneySegment → Type 0
IsPlaced before after none = ids after ≡ before
IsPlaced before after (some t) =
    (i : ℕ) × (find_index (λ s. s.id == t.id) after ≡ some i)
    × (put_in i t.id (taken_out t.id before) ≡ ids after)

IsKnown : List JourneySegment → JourneySegment → Type 0
IsKnown known s = has_segment known s.id ≡ true

moved_segment-none :
    (known before after : List JourneySegment)
    → ids after ≡ ids before
    → moved_segment known before after ≡ none
unfolding moved_segment
moved_segment-none known before [] e = refl
moved_segment-none known [] (s ∷ after) e = cc
moved_segment-none known (b ∷ before) (s ∷ after) e =
    let same : s.id ≡ b.id = cc in
    let rest : ids after ≡ ids before = cc in
    rw (same, eq_refl b.id) (moved_segment-none known before after rest)

find_index-apart :
    (k c : String) (ss : List JourneySegment) {i : ℕ}
    → find_index (λ s. s.id == k) ss ≡ some i
    → All (λ s. s.id ≢ c) ss
    → k ≢ c
find_index-apart k c [] e h = cc
find_index-apart k c (s ∷ ss) e (n, h) = elim (Bool-cases (s.id == k)) [
  | inl here ↦ (let same : s.id ≡ k = (eq_iff s.id k).0 here in subst (λ i. i ≢ c) same n)
  | inr there ↦
      let later : next_index (find_index (λ s. s.id == k) ss) ≡ some _ = rw there at e in
      let (j, at_j, _) = next_index-eq-some (find_index (λ s. s.id == k) ss) later in
      find_index-apart k c ss at_j h
]

-- A first segment that stays.
IsPlaced-cons :
    (b s : JourneySegment) (before : List String) (after : List JourneySegment)
    (o : Option JourneySegment)
    → s.id ≡ b.id
    → All (λ t. t.id ≢ b.id) after
    → IsPlaced before after o
    → IsPlaced (b.id ∷ before) (s ∷ after) o
unfolding IsPlaced
IsPlaced-cons b s before after none same apart h = ap₂ (λ x xs. x ∷ xs) same h
IsPlaced-cons b s before after (some t) same apart (i, at_i, h) =
    let ne = find_index-apart t.id b.id after at_i apart in
    let other : (b.id == t.id) ≡ false = ground (arith, eq_iff b.id t.id) in
    (suc i, rw (same, other, at_i) refl, rw other (ap₂ (λ x xs. x ∷ xs) (sym same) h))

swapped-IsPlaced :
    (known : List JourneySegment) (a b s t : JourneySegment) (before after : List JourneySegment)
    → s.id ≡ b.id
    → t.id ≡ a.id
    → ids after ≡ ids before
    → a.id ≢ b.id
    → IsKnown known s
    → IsPlaced
        (a.id ∷ b.id ∷ ids before)
        (s ∷ t ∷ after)
        (moved_segment known (a ∷ b ∷ before) (s ∷ t ∷ after))
unfolding IsPlaced IsKnown moved_segment
swapped-IsPlaced known a b s t before after es et e ne k =
    let other : (a.id == s.id) ≡ false = ground (arith, eq_iff a.id s.id) in
    let known_s : has_segment known s.id ≡ true = k in
    let second : (b.id == s.id) ≡ true = (eq_iff b.id s.id).1 (sym es) in
    rw (other, known_s)
      (
        zero,
        rw (eq_refl s.id) refl,
        rw (other, second) (ap₂ (λ x xs. s.id ∷ x ∷ xs) (sym et) (sym e)),
      )

-- what a shift keeps of all ids
shift-All :
    (P : String → Type 0) (direction : Direction) (k : String) (xs : List String)
    → All P xs
    → All P (shift direction k xs)
shift-All P direction k [] h = h
shift-All P direction k (x ∷ []) h = h
shift-All P earlier k (x ∷ y ∷ xs) (p, (q, h)) =
    elim (y == k) as (λ b. All P (if b then y ∷ x ∷ xs else x ∷ shift earlier k (y ∷ xs))) [
      | true ↦ (q, (p, h))
      | false ↦ (p, shift-All P earlier k (y ∷ xs) (q, h))
    ]
shift-All P later k (x ∷ y ∷ xs) (p, (q, h)) =
    elim (x == k) as (λ b. All P (if b then y ∷ x ∷ xs else x ∷ shift later k (y ∷ xs))) [
      | true ↦ (q, (p, h))
      | false ↦ (p, shift-All P later k (y ∷ xs) (q, h))
    ]

ids-All : (P : String → Type 0) (ss : List JourneySegment) → All (λ s. P s.id) ss → All P (ids ss)
ids-All P [] h = h
ids-All P (s ∷ ss) (p, h) = (p, ids-All P ss h)

All-ids : (P : String → Type 0) (ss : List JourneySegment) → All P (ids ss) → All (λ s. P s.id) ss
All-ids P [] h = h
All-ids P (s ∷ ss) (p, h) = (p, All-ids P ss h)

stays :
    (known : List JourneySegment) (a b s : JourneySegment) (before after : List JourneySegment)
    → s.id ≡ a.id
    → All (λ t. t.id ≢ a.id) after
    → IsPlaced (b.id ∷ ids before) after (moved_segment known (b ∷ before) after)
    → IsPlaced
        (a.id ∷ b.id ∷ ids before)
        (s ∷ after)
        (moved_segment known (a ∷ b ∷ before) (s ∷ after))
unfolding moved_segment
stays known a b s before after es apart h =
    let start : (a.id == s.id) ≡ true = (eq_iff a.id s.id).1 (sym es) in
    rw start (
      IsPlaced-cons a s (b.id ∷ ids before) after (moved_segment known (b ∷ before) after) es apart
        h)

module _ (known : List JourneySegment) where
  -- One step of a shift: the first two change places, or the first stays.
  step-IsPlaced :
      (swaps : Bool) (a b : JourneySegment) (before after : List JourneySegment)
      (rest : List String)
      → ids after ≡ (if swaps then b.id ∷ a.id ∷ ids before else a.id ∷ rest)
      → a.id ≢ b.id
      → All (λ i. i ≢ a.id) rest
      → All (IsKnown known) after
      → ((later : List JourneySegment)
          → ids later ≡ rest
          → All (IsKnown known) later
          → IsPlaced (b.id ∷ ids before) later (moved_segment known (b ∷ before) later))
      → IsPlaced (a.id ∷ b.id ∷ ids before) after (moved_segment known (a ∷ b ∷ before) after)
  step-IsPlaced true a b before [] rest e ne apart k ih = cc
  step-IsPlaced true a b before (s ∷ []) rest e ne apart k ih = cc
  step-IsPlaced true a b before (s ∷ t ∷ after) rest e ne apart k ih =
      let es : s.id ≡ b.id = cc in
      let et : t.id ≡ a.id = cc in
      let er : ids after ≡ ids before = cc in
      swapped-IsPlaced known a b s t before after es et er ne k.0
  step-IsPlaced false a b before [] rest e ne apart k ih = cc
  step-IsPlaced false a b before (s ∷ after) rest e ne apart k ih =
      let es : s.id ≡ a.id = cc in
      let er : ids after ≡ rest = cc in
      stays known a b s before after es
        (All-ids (λ i. i ≢ a.id) after (subst (All (λ i. i ≢ a.id)) (sym er) apart))
        (ih after er k.1)

  shift-IsPlaced :
      (direction : Direction) (k : String) (before after : List JourneySegment)
      → ids after ≡ shift direction k (ids before)
      → DistinctBy (λ s. s.id) before
      → All (IsKnown known) after
      → IsPlaced (ids before) after (moved_segment known before after)
  unfolding IsPlaced
  shift-IsPlaced direction k [] after e d h = rw (moved_segment-none known [] after e) e
  shift-IsPlaced direction k (a ∷ []) after e d h = rw (moved_segment-none known (a ∷ []) after e) e
  shift-IsPlaced earlier k (a ∷ b ∷ before) after e ((n, ns), d) h =
      step-IsPlaced (b.id == k) a b before after (shift earlier k (b.id ∷ ids before)) e
        (λ p. n (sym p))
        (shift-All (λ i. i ≢ a.id) earlier k (b.id ∷ ids before)
          (n, ids-All (λ i. i ≢ a.id) before ns))
        h (λ later e' h'. shift-IsPlaced earlier k (b ∷ before) later e' d h')
  shift-IsPlaced later k (a ∷ b ∷ before) after e ((n, ns), d) h =
      step-IsPlaced (a.id == k) a b before after (shift later k (b.id ∷ ids before)) e
        (λ p. n (sym p))
        (shift-All (λ i. i ≢ a.id) later k (b.id ∷ ids before)
          (n, ids-All (λ i. i ≢ a.id) before ns))
        h (λ tail e' h'. shift-IsPlaced later k (b ∷ before) tail e' d h')

moved_segment-IsKnown :
    (known before after : List JourneySegment) {t : JourneySegment}
    → All (IsKnown known) after
    → moved_segment known before after ≡ some t
    → IsKnown known t
unfolding moved_segment
moved_segment-IsKnown known before [] h e = cc
moved_segment-IsKnown known before (s ∷ after) {t} (k, h) e =
    elim (Bool-cases (not (starts_with before s.id) && has_segment known s.id)) [
      | inl here ↦
          (let found : some s ≡ some t = rw here at e in
            let same : s ≡ t = cc in subst (IsKnown known) same k)
      | inr there ↦ moved_segment-IsKnown known (rest_of before) after h (rw there at e)
    ]

All-known : (ss : List JourneySegment) → All (λ s. has_segment ss s.id ≡ true) ss
All-known [] = tt
All-known (s ∷ ss) = (
  rw (eq_refl s.id) refl,
  All-mono (λ t. has_segment ss t.id ≡ true) (λ t. has_segment (s ∷ ss) t.id ≡ true)
      (λ t h. elim (Bool-cases (s.id == t.id)) [ inl e ↦ rw e refl | inr e ↦ rw (e, h) refl ]) ss
      (All-known ss),
)

sorted-known :
    (j : String) (ss : List JourneySegment) → All (λ s. has_segment ss s.id ≡ true) (sorted_of j ss)
sorted-known j ss =
    All-perm _ (Perms.symm (sort-perm (λ s. s.position) (filter (λ s. s.journey_id == j) ss)))
      (All-filter _ (λ s. s.journey_id == j) ss (All-known ss))

run-reorder_calls :
    (d : JourneyData) (j : String) (before : List String) (after : List JourneySegment)
    (o : Option JourneySegment)
    → ((t : JourneySegment) → o ≡ some t → IsKnown d.segments t)
    → IsPlaced before after o
    → run_order (reorder_calls d j after o) before ≡ ids after
unfolding reorder_calls IsPlaced IsKnown
run-reorder_calls d j before after none k h = sym h
run-reorder_calls d j before after (some t) k (i, at_i, h) =
    let (old, found) = find?-of_any (λ s. s.id == t.id) d.segments (k t refl) in
    rw (reorder_calls, found, position_in, at_i) h

-- After a move that returns, with distinct ids of segments, the request that save makes for the
-- journey puts the order on the server, where that is the order before, into the order after.
pub reorderings-move_segment :
    (d d' : JourneyData) (j : Journey) (segment_id : String) (direction : Direction) (r : Runtime)
    → DistinctBy (λ s. s.id) d.segments
    → move_segment d j.id segment_id direction r ≡ ok d'
    → run_order (reorderings d d' j) (order d j.id) ≡ order d' j.id
unfolding reorderings segments_for_journey IsKnown
reorderings-move_segment d d' j segment_id direction r distinct e =
    let (moved, others) = move_segment-order d d' j.id segment_id direction r distinct e in
    let before = sorted_of j.id d.segments in
    let after = sorted_of j.id d'.segments in
    let known =
      All-ids (λ i. has_segment d.segments i ≡ true) after
        (subst (All (λ i. has_segment d.segments i ≡ true)) (sym moved) (
          shift-All (λ i. has_segment d.segments i ≡ true) direction segment_id (ids before)
            (ids-All (λ i. has_segment d.segments i ≡ true) before
              (sorted-known j.id d.segments)))) in
    run-reorder_calls d j.id (ids before) after (moved_segment d.segments before after)
      (λ t found. moved_segment-IsKnown d.segments before after known found)
      (shift-IsPlaced d.segments direction segment_id before after moved
        (DistinctBy-perm (λ s. s.id)
          (Perms.symm (sort-perm (λ s. s.position) (filter (λ s. s.journey_id == j.id) d.segments)))
          (DistinctBy-filter (λ s. s.id) (λ s. s.journey_id == j.id) d.segments distinct))
        known)
