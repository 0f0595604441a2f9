-- ===== src/Common/Sort.antt =====
-- `xs.sort((left, right) => left.key - right.key)`: stable, by an integer key.
pub mod Ascending
use Prim.Native.Nat.{◌+◌, ℕ, suc, ◌≤◌}
use mathlib.Core.Path.{◌≡◌, refl, sym, ap, ap₂, ◌∙◌, subst}
use mathlib.Core.Logic.{◌≢◌}
use mathlib.Core.Bool.{true, false}
use mathlib.Core.List.{List, [], ◌∷◌, ◌++◌, map, Permᴰ}
use mathlib.Core.List.Permᴰ as Perms
use native.Mathlib.Omega.{arith}
use trax_os.Common.Tests.{if◌then◌else◌}
use trax_os.Common.Lists.{length, All-perm, All, All-mono, DistinctBy, DistinctBy-perm}
use trax_os.Common.Int.{ℤ, pos, leb_ℤ, ◌≤ℤ◌, eq_of_parts}

module _ {A : Type 0} (key : A → ℤ) where
  -- `x` goes before the first element whose key is not smaller.
  unfoldable pub insert : A → List A → List A
  insert x [] = x ∷ []
  insert x (y ∷ ys) = if leb_ℤ (key x) (key y) then x ∷ y ∷ ys else y ∷ insert x ys

  unfoldable pub sort : List A → List A
  unfolding insert
  sort [] = []
  sort (x ∷ xs) = insert x (sort xs)

  -- The elements have the keys n, n + 1, n + 2, … in this order.
  abbrev pub IsNumberedFrom : ℕ → List A → Type 0
  IsNumberedFrom n [] = Unit
  IsNumberedFrom n (x ∷ xs) = (key x ≡ pos n) × IsNumberedFrom (suc n) xs

  insert-perm : (x : A) (ys : List A) → Permᴰ (insert x ys) (x ∷ ys)
  unfolding insert
  insert-perm x [] = Perms.refl _
  insert-perm x (y ∷ ys) =
      elim (leb_ℤ (key x) (key y))
        as (λ b. Permᴰ (if b then x ∷ y ∷ ys else y ∷ insert x ys) (x ∷ y ∷ ys)) [
          | true ↦ Perms.refl _
          | false ↦ Permᴰ.trans (Permᴰ.cons refl (insert-perm x ys)) (Permᴰ.swap refl refl)
        ]

  -- Sorting permutes.
  pub sort-perm : (xs : List A) → Permᴰ (sort xs) xs
  unfolding sort
  sort-perm [] = Permᴰ.nil
  sort-perm (x ∷ xs) = Permᴰ.trans (insert-perm x (sort xs)) (Permᴰ.cons refl (sort-perm xs))

  insert_comm :
      (x y : A) (zs : List A) → key x ≢ key y → insert x (insert y zs) ≡ insert y (insert x zs)
  unfolding insert
  insert_comm x y [] h = ground (arith, eq_of_parts (key x) (key y))
  insert_comm x y (z ∷ zs) h = ground (arith, eq_of_parts (key x) (key y), insert_comm x y zs h)

  pub sort-eq_of_perm : {xs ys : List A} → Permᴰ xs ys → DistinctBy key xs → sort xs ≡ sort ys
  unfolding sort
  sort-eq_of_perm Permᴰ.nil h = refl
  sort-eq_of_perm (Permᴰ.cons e d) (h, k) = ap₂ insert e (sort-eq_of_perm d k)
  sort-eq_of_perm (Permᴰ.swap {a} {b} {l} e f) ((h, hs), k) =
      insert_comm a b (sort l) (λ p. h (sym p)) ∙ ap₂ insert f (ap (λ c. insert c (sort l)) e)
  sort-eq_of_perm (Permᴰ.trans d d') h =
      sort-eq_of_perm d h ∙ sort-eq_of_perm d' (DistinctBy-perm key d h)

  IsNumberedFrom-above :
      (n m : ℕ) (xs : List A) → suc n ≤ m → IsNumberedFrom m xs → All (λ y. key y ≢ pos n) xs
  IsNumberedFrom-above n m [] h k = tt
  IsNumberedFrom-above n m (x ∷ xs) h (e, k) =
      (λ p. ground arith, IsNumberedFrom-above n (suc m) xs (omega arith) k)

  pub IsNumberedFrom-distinct : (n : ℕ) (xs : List A) → IsNumberedFrom n xs → DistinctBy key xs
  IsNumberedFrom-distinct n [] h = tt
  IsNumberedFrom-distinct n (x ∷ xs) (e, h) = (
    subst (λ k. All (λ y. key y ≢ k) xs) (sym e)
        (IsNumberedFrom-above n (suc n) xs (omega arith) h),
    IsNumberedFrom-distinct (suc n) xs h,
  )

  sort-numbered : (n : ℕ) (xs : List A) → IsNumberedFrom n xs → sort xs ≡ xs
  unfolding sort
  sort-numbered n [] h = refl
  sort-numbered n (x ∷ []) h = refl
  sort-numbered n (x ∷ y ∷ ys) (e, h) = rw (sort-numbered (suc n) (y ∷ ys) h) (ground arith)

  -- A list in order is what sorting makes of each of its permutations.
  pub sort-eq_numbered : (n : ℕ) {xs ys : List A} → Permᴰ xs ys → IsNumberedFrom n ys → sort xs ≡ ys
  sort-eq_numbered n {xs} {ys} d h =
      sym (sort-eq_of_perm (Perms.symm d) (IsNumberedFrom-distinct n ys h)) ∙ sort-numbered n ys h

  insert-append :
      (x y : A) (zs : List A) → key y ≤ℤ key x → insert y (zs ++ x ∷ []) ≡ insert y zs ++ x ∷ []
  unfolding insert
  insert-append x y [] h = ground arith
  insert-append x y (z ∷ zs) h = ground (arith, insert-append x y zs h)

  -- An element whose key no other exceeds is sorted behind the others.
  pub sort-append :
      (x : A) (ys : List A) → All (λ y. key y ≤ℤ key x) ys → sort (ys ++ x ∷ []) ≡ sort ys ++ x ∷ []
  unfolding sort
  sort-append x [] h = refl
  sort-append x (y ∷ ys) (k, h) = rw (sort-append x ys h) (insert-append x y (sort ys) k)

  IsNumberedFrom-bound :
      (n : ℕ) (xs : List A) → IsNumberedFrom n xs → All (λ y. key y ≤ℤ pos (n + length xs)) xs
  IsNumberedFrom-bound n [] h = tt
  IsNumberedFrom-bound n (x ∷ xs) (e, h) = (
    ground arith,
    All-mono (λ y. key y ≤ℤ pos (suc n + length xs)) (λ y. key y ≤ℤ pos (n + suc (length xs)))
        (λ y k. omega arith) xs (IsNumberedFrom-bound (suc n) xs h),
  )

  -- One more element, numbered with their count.
  IsNumberedFrom-append :
      (n : ℕ) (x : A) (xs : List A)
      → key x ≡ pos (n + length xs)
      → IsNumberedFrom n xs
      → IsNumberedFrom n (xs ++ x ∷ [])
  IsNumberedFrom-append n x [] e h = (e ∙ ap pos (omega arith), tt)
  IsNumberedFrom-append n x (y ∷ ys) e (k, h) =
      (k, IsNumberedFrom-append (suc n) x ys (e ∙ ap pos (omega arith)) h)

  -- An element numbered with the count of the others is sorted behind them, …
  pub sort-append_numbered :
      (x : A) (xs : List A)
      → key x ≡ pos (length (sort xs))
      → IsNumberedFrom 0 (sort xs)
      → sort (xs ++ x ∷ []) ≡ sort xs ++ x ∷ []
  sort-append_numbered x xs e h = sort-append x xs (
      All-perm (λ y. key y ≤ℤ key x) (sort-perm xs)
        (rw e (
          All-mono (λ y. key y ≤ℤ pos (0 + length (sort xs))) (λ y. key y ≤ℤ pos (length (sort xs)))
            (λ y k. omega arith) (sort xs) (IsNumberedFrom-bound 0 (sort xs) h))))

  -- … and the whole is numbered.
  pub sort-append-IsNumbered :
      (x : A) (xs : List A)
      → key x ≡ pos (length (sort xs))
      → IsNumberedFrom 0 (sort xs)
      → IsNumberedFrom 0 (sort (xs ++ x ∷ []))
  sort-append-IsNumbered x xs e h =
      rw (sort-append_numbered x xs e h)
        (IsNumberedFrom-append 0 x (sort xs) (e ∙ ap pos (omega arith)) h)

  module _ (f : A → A) where
    insert-map :
        (x : A) (ys : List A)
        → key (f x) ≡ key x
        → All (λ y. key (f y) ≡ key y) ys
        → insert (f x) (map f ys) ≡ map f (insert x ys)
    unfolding insert
    insert-map x [] e h = refl
    insert-map x (y ∷ ys) e (k, h) = ground (arith, insert-map x ys e h)

    -- A change that keeps the keys commutes with sorting.
    pub sort-map :
        (xs : List A) → All (λ y. key (f y) ≡ key y) xs → sort (map f xs) ≡ map f (sort xs)
    unfolding sort
    sort-map [] h = refl
    sort-map (x ∷ xs) (e, h) =
        ap (insert (f x)) (sort-map xs h)
        ∙ insert-map x (sort xs) e (All-perm (λ y. key (f y) ≡ key y) (Perms.symm (sort-perm xs)) h)

    pub IsNumberedFrom-map :
        (n : ℕ) (xs : List A)
        → All (λ y. key (f y) ≡ key y) xs
        → IsNumberedFrom n xs
        → IsNumberedFrom n (map f xs)
    IsNumberedFrom-map n [] h k = tt
    IsNumberedFrom-map n (x ∷ xs) (e, h) (k, l) = (e ∙ k, IsNumberedFrom-map (suc n) xs h l)
