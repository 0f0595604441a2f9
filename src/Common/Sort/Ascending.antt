-- ===== src/Common/Sort/Ascending.antt =====
-- Lists whose keys ascend strictly, which sorting leaves alone, and what a filter does to them.
use mathlib.Core.List.Permᴰ as Perms
use Prim.Native.Nat.{ℕ, suc, ◌≤◌}
use mathlib.Core.Path.{◌≡◌, refl, sym, ap, ◌∙◌}
use mathlib.Core.Logic.{◌≢◌, inl, inr}
use mathlib.Core.Bool.{Bool}
use mathlib.Core.List.{List, [], ◌∷◌, Permᴰ}
use native.Mathlib.Omega.{arith}
use trax_os.Common.Tests.{Bool-cases}
use trax_os.Common.Lists.{All, All-mono, All-filter, DistinctBy, filter}
use trax_os.Common.Int.{ℤ, pos, ◌<ℤ◌}
use trax_os.Common.Sort.{sort, sort-perm, sort-eq_of_perm, IsNumberedFrom}

-- Filtering two lists with the same elements gives two such lists.
pub filter-perm {ℓ} :
    {A : Type ℓ} (p : A → Bool) {xs ys : List A} → Permᴰ xs ys → Permᴰ (filter p xs) (filter p ys)
filter-perm p Permᴰ.nil = Permᴰ.nil
filter-perm p (Permᴰ.cons {a} {b} e d) = elim (Bool-cases (p a)) [
  | inl h ↦ rw (h, sym (ap p e) ∙ h) (Permᴰ.cons e (filter-perm p d))
  | inr h ↦ rw (h, sym (ap p e) ∙ h) (filter-perm p d)
]
filter-perm p (Permᴰ.swap {a} {b} {l} e f) = elim (Bool-cases (p a)) [
  | inl h ↦ elim (Bool-cases (p b)) [
    | inl k ↦ rw (h, k, sym (ap p f) ∙ k, sym (ap p e) ∙ h) (Permᴰ.swap e f)
    | inr k ↦ rw (h, k, sym (ap p f) ∙ k, sym (ap p e) ∙ h) (Permᴰ.cons e (Perms.refl (filter p l)))
  ]
  | inr h ↦ elim (Bool-cases (p b)) [
    | inl k ↦ rw (h, k, sym (ap p f) ∙ k, sym (ap p e) ∙ h) (Permᴰ.cons f (Perms.refl (filter p l)))
    | inr k ↦ rw (h, k, sym (ap p f) ∙ k, sym (ap p e) ∙ h) (Perms.refl (filter p l))
  ]
]
filter-perm p (Permᴰ.trans d d') = Permᴰ.trans (filter-perm p d) (filter-perm p d')

module _ {A : Type 0} (key : A → ℤ) where
  abbrev pub IsAscending : List A → Type 0
  IsAscending [] = Unit
  IsAscending (x ∷ xs) = All (λ y. key x <ℤ key y) xs × IsAscending xs

  IsNumberedFrom-above :
      (n m : ℕ) (xs : List A) → suc n ≤ m → IsNumberedFrom key m xs → All (λ y. pos n <ℤ key y) xs
  IsNumberedFrom-above n m [] h k = tt
  IsNumberedFrom-above n m (x ∷ xs) h (e, k) =
      (rw e (omega arith), IsNumberedFrom-above n (suc m) xs (omega arith) k)

  pub IsNumberedFrom-IsAscending : (n : ℕ) (xs : List A) → IsNumberedFrom key n xs → IsAscending xs
  IsNumberedFrom-IsAscending n [] h = tt
  IsNumberedFrom-IsAscending n (x ∷ xs) (e, h) = (
    rw e (IsNumberedFrom-above n (suc n) xs (omega arith) h),
    IsNumberedFrom-IsAscending (suc n) xs h,
  )

  pub IsAscending-filter : (p : A → Bool) (xs : List A) → IsAscending xs → IsAscending (filter p xs)
  IsAscending-filter p [] h = tt
  IsAscending-filter p (x ∷ xs) (h, k) = elim (Bool-cases (p x)) [
    | inl e ↦ rw e (All-filter (λ y. key x <ℤ key y) p xs h, IsAscending-filter p xs k)
    | inr e ↦ rw e (IsAscending-filter p xs k)
  ]

  IsAscending-distinct : (xs : List A) → IsAscending xs → DistinctBy key xs
  IsAscending-distinct [] h = tt
  IsAscending-distinct (x ∷ xs) (h, k) = (
    All-mono (λ y. key x <ℤ key y) (λ y. key y ≢ key x) (λ y l e. ground arith) xs h,
    IsAscending-distinct xs k,
  )

  sort-ascending : (xs : List A) → IsAscending xs → sort key xs ≡ xs
  unfolding sort
  sort-ascending [] h = refl
  sort-ascending (x ∷ []) h = refl
  sort-ascending (x ∷ y ∷ ys) ((l, h), k) = rw (sort-ascending (y ∷ ys) k) (ground arith)

  -- An ascending list is what sorting makes of each of its permutations.
  pub sort-eq_ascending : {xs ys : List A} → Permᴰ xs ys → IsAscending ys → sort key xs ≡ ys
  sort-eq_ascending {xs} {ys} d h =
      sym (sort-eq_of_perm key (Perms.symm d) (IsAscending-distinct ys h)) ∙ sort-ascending ys h

  -- Where the keys differ, sorting what a filter leaves is filtering what was sorted.
  pub sort-filter :
      (p : A → Bool) (xs : List A)
      → IsAscending (sort key xs)
      → sort key (filter p xs) ≡ filter p (sort key xs)
  sort-filter p xs h =
      sort-eq_ascending (filter-perm p (Perms.symm (sort-perm key xs)))
        (IsAscending-filter p (sort key xs) h)
