-- ===== src/Journeys/Invariant/Change.antt =====
-- `journeys.map(...)` with the clock: what a change of one journey leaves alone.
use trax_os.Common.{
  ℕ, suc, String, ◌≡◌, ◌≢◌, refl, sym, ◌∙◌, ap, List, [], ◌∷◌, ◌==◌, ◌||◌, any, All, DistinctBy,
  arith, if◌then◌else◌, Bool-cases, inl, inr, subst, ap₂,
}
use trax_os.Journeys.Domain.{Journey}
use trax_os.Journeys.Service.{Runtime, calls_after, change_journey}

module _ (change : String → Journey → Journey)
    (same : (t : String) (j : Journey) → (change t j).id ≡ j.id) (r : Runtime)
    (journey_id : String) where
  abbrev changed : ℕ → Journey → Journey
  changed n j = if j.id == journey_id then change (r.now n) j else j

  id-changed : (n : ℕ) (j : Journey) → (changed n j).id ≡ j.id
  id-changed n j = ground (arith, same (r.now n) j)

  -- The same ids are in use.
  pub any-change_journey :
      (k : String) (n : ℕ) (js : List Journey)
      → any (λ j. j.id == k) (change_journey change r journey_id n js) ≡ any (λ j. j.id == k) js
  unfolding change_journey
  any-change_journey k n [] = refl
  any-change_journey k n (j ∷ js) =
      ap₂ ◌||◌ (ap (λ i. i == k) (id-changed n j))
        (any-change_journey k (calls_after journey_id n j) js)

  ne-change_journey :
      (k : String) (n : ℕ) (js : List Journey)
      → All (λ j. j.id ≢ k) js
      → All (λ j. j.id ≢ k) (change_journey change r journey_id n js)
  unfolding change_journey
  ne-change_journey k n [] h = tt
  ne-change_journey k n (j ∷ js) (e, h) =
      ((λ p. e (sym (id-changed n j) ∙ p)), ne-change_journey k (calls_after journey_id n j) js h)

  pub DistinctBy-change_journey :
      (n : ℕ) (js : List Journey)
      → DistinctBy (λ j. j.id) js
      → DistinctBy (λ j. j.id) (change_journey change r journey_id n js)
  unfolding change_journey
  DistinctBy-change_journey n [] h = tt
  DistinctBy-change_journey n (j ∷ js) (h, k) = (
    subst
        (λ i.
          All (λ y. y.id ≢ i) (change_journey change r journey_id (calls_after journey_id n j) js))
        (sym (id-changed n j)) (ne-change_journey j.id (calls_after journey_id n j) js h),
    DistinctBy-change_journey (calls_after journey_id n j) js k,
  )

  pub All-change_journey :
      (P : Journey → Type 0)
      → ((n : ℕ) (j : Journey) → P j → P (change (r.now n) j))
      → (n : ℕ) (js : List Journey) → All P js
      → All P (change_journey change r journey_id n js)
  unfolding change_journey
  All-change_journey P keep n [] h = tt
  All-change_journey P keep n (j ∷ js) (p, h) = elim (Bool-cases (j.id == journey_id)) [
    | inl e ↦ rw e (keep n j p, All-change_journey P keep (suc n) js h)
    | inr e ↦ rw e (p, All-change_journey P keep n js h)
  ]
