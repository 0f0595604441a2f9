-- ===== src/Journeys/Order/Shifting.antt =====
-- Exchanging two neighbours of a list by index is shifting one id.
use trax_os.Common.{
  ℕ, zero, suc, String, true, false, ◌≡◌, ◌≢◌, refl, ap, List, [], ◌∷◌, ◌==◌, some, All, DistinctBy,
  arith, eq_iff, find_index, get_elem?, set, length, leb, Bool-cases, inl, inr,
}
use trax_os.Common.Finding.{next_index-eq-some}
use trax_os.Journeys.Domain.{JourneySegment}
use trax_os.Journeys.Service.{earlier, later}
use trax_os.Journeys.Order.{ids, shift}

module _ (k : String) where
  past_head :
      (x : JourneySegment) (ss : List JourneySegment) {i : ℕ}
      → (x.id == k) ≡ false
      → find_index (λ s. s.id == k) (x ∷ ss) ≡ some i
      → (j : ℕ) × (find_index (λ s. s.id == k) ss ≡ some j) × (i ≡ suc j)
  past_head x ss other e = next_index-eq-some _ (rw other at e)

  at_head :
      (x : JourneySegment) (ss : List JourneySegment) {i : ℕ}
      → (x.id == k) ≡ true
      → find_index (λ s. s.id == k) (x ∷ ss) ≡ some i
      → i ≡ 0
  at_head x ss this e = ground arith

  -- At the end there is no later neighbour.
  pub shift_last :
      (ss : List JourneySegment) (i : ℕ)
      → find_index (λ s. s.id == k) ss ≡ some i
      → leb (length ss) (suc i) ≡ true
      → shift later k (ids ss) ≡ ids ss
  shift_last [] i e f = refl
  shift_last (x ∷ []) i e f = refl
  shift_last (x ∷ y ∷ ss) i e f = elim (Bool-cases (x.id == k)) [
    | inl this ↦ let first = at_head x (y ∷ ss) this e in absurd (ground arith)
    | inr other ↦
        let (j, found, next) = past_head x (y ∷ ss) other e in
        rw other (ap (◌∷◌ x.id) (shift_last (y ∷ ss) j found (ground arith)))
  ]

  pub shift_later :
      (ss : List JourneySegment) (i : ℕ) {a b : JourneySegment}
      → find_index (λ s. s.id == k) ss ≡ some i
      → get_elem? ss i ≡ some a
      → get_elem? ss (suc i) ≡ some b
      → ids (set (set ss i b) (suc i) a) ≡ shift later k (ids ss)
  shift_later [] i e f g = cc
  shift_later (x ∷ []) zero e f g = cc
  shift_later (x ∷ []) (suc i) e f g = cc
  shift_later (x ∷ y ∷ ss) zero e f g = elim (Bool-cases (x.id == k)) [
    | inl this ↦ rw this (ground arith)
    | inr other ↦ let (j, found, next) = past_head x (y ∷ ss) other e in absurd (omega arith)
  ]
  shift_later (x ∷ y ∷ ss) (suc i) e f g = elim (Bool-cases (x.id == k)) [
    | inl this ↦ let first = at_head x (y ∷ ss) this e in absurd (omega arith)
    | inr other ↦
        let (j, found, next) = past_head x (y ∷ ss) other e in
        rw other (ap (◌∷◌ x.id) (shift_later (y ∷ ss) i (ground arith) f g))
  ]

  shift_absent :
      (x : JourneySegment) (ss : List JourneySegment)
      → All (λ s. s.id ≢ k) ss
      → shift earlier k (ids (x ∷ ss)) ≡ ids (x ∷ ss)
  shift_absent x [] h = refl
  shift_absent x (y ∷ ss) (e, h) = ground (arith, eq_iff y.id k, shift_absent y ss h)

  -- At the start there is no earlier neighbour.
  pub shift_first :
      (ss : List JourneySegment)
      → DistinctBy (λ s. s.id) ss
      → find_index (λ s. s.id == k) ss ≡ some zero
      → shift earlier k (ids ss) ≡ ids ss
  shift_first [] d e = refl
  shift_first (x ∷ ss) (h, d) e = elim (Bool-cases (x.id == k)) [
    | inl this ↦ shift_absent x ss (rw ((eq_iff x.id k).0 this) at h)
    | inr other ↦ let (j, found, next) = past_head x ss other e in absurd (omega arith)
  ]

  pub shift_earlier :
      (ss : List JourneySegment) (i : ℕ) {a b : JourneySegment}
      → find_index (λ s. s.id == k) ss ≡ some (suc i)
      → get_elem? ss (suc i) ≡ some a
      → get_elem? ss i ≡ some b
      → ids (set (set ss (suc i) b) i a) ≡ shift earlier k (ids ss)
  shift_earlier [] i e f g = cc
  shift_earlier (x ∷ []) zero e f g = cc
  shift_earlier (x ∷ []) (suc i) e f g = cc
  shift_earlier (x ∷ y ∷ ss) zero e f g = elim (Bool-cases (x.id == k)) [
    | inl this ↦ let first = at_head x (y ∷ ss) this e in absurd (omega arith)
    | inr other ↦
        let (j, found, next) = past_head x (y ∷ ss) other e in
        elim (Bool-cases (y.id == k)) [
          | inl that ↦ rw that (ground arith)
          | inr others ↦
              let (j', found', next') = past_head y ss others found in absurd (omega arith)
        ]
  ]
  shift_earlier (x ∷ y ∷ ss) (suc i) e f g = elim (Bool-cases (x.id == k)) [
    | inl this ↦ let first = at_head x (y ∷ ss) this e in absurd (omega arith)
    | inr other ↦
        let (j, found, next) = past_head x (y ∷ ss) other e in
        elim (Bool-cases (y.id == k)) [
          | inl that ↦ let first = at_head y ss that found in absurd (omega arith)
          | inr others ↦
              let same : suc i ≡ j = omega arith in
              rw others (ap (◌∷◌ x.id) (shift_earlier (y ∷ ss) i (rw (← same) at found) f g))
        ]
  ]
