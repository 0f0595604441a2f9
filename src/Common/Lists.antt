-- ===== src/Common/Lists.antt =====
-- Lists with Boolean tests, measured by native numbers, and predicates on their elements.
use Prim.Native.Nat.{ℕ, zero, suc, ◌+◌}
use mathlib.Core.Path.{◌≡◌, refl, sym, ap, ◌∙◌, subst}
use mathlib.Core.Logic.{◌≢◌, inl, inr}
use mathlib.Core.Bool.{Bool, true, false, ◌||◌}
use mathlib.Core.Option.{Option, none, some}
use mathlib.Core.List.{List, [], ◌∷◌, ◌++◌, map, Permᴰ}
use native.Mathlib.Omega.{arith}
use trax_os.Common.Tests.{if◌then◌else◌, Bool-cases}

abbrev pub next_index : Option ℕ → Option ℕ
next_index none = none
next_index (some i) = some (suc i)

module _ {ℓ} {A : Type ℓ} where
  abbrev pub length : List A → ℕ
  length [] = 0
  length (x ∷ xs) = suc (length xs)

  -- `xs.filter(p)`
  abbrev pub filter : (A → Bool) → List A → List A
  filter p [] = []
  filter p (x ∷ xs) = let rest = filter p xs in if p x then x ∷ rest else rest

  -- `xs.some(p)`
  abbrev pub any : (A → Bool) → List A → Bool
  any p [] = false
  any p (x ∷ xs) = p x || any p xs

  -- `xs.find(p)`
  abbrev pub find? : (A → Bool) → List A → Option A
  find? p [] = none
  find? p (x ∷ xs) = let later = find? p xs in if p x then some x else later

  -- `xs.findIndex(p)`, with `none` for -1
  abbrev pub find_index : (A → Bool) → List A → Option ℕ
  find_index p [] = none
  find_index p (x ∷ xs) = let later = find_index p xs in if p x then some 0 else next_index later

  -- `xs[i]`
  abbrev pub get_elem? : List A → ℕ → Option A
  get_elem? [] i = none
  get_elem? (x ∷ xs) zero = some x
  get_elem? (x ∷ xs) (suc i) = get_elem? xs i

  -- `xs[i] = v` at an index in range
  abbrev pub set : List A → ℕ → A → List A
  set [] i v = []
  set (x ∷ xs) zero v = v ∷ xs
  set (x ∷ xs) (suc i) v = x ∷ set xs i v

  pub length-append : (xs ys : List A) → length (xs ++ ys) ≡ length xs + length ys
  length-append [] ys = omega arith
  length-append (x ∷ xs) ys = omega (arith, length-append xs ys)

  pub filter-append :
      (p : A → Bool) (xs ys : List A) → filter p (xs ++ ys) ≡ filter p xs ++ filter p ys
  filter-append p [] ys = refl
  filter-append p (x ∷ xs) ys = ground (arith, filter-append p xs ys)

  pub any-append : (p : A → Bool) (xs ys : List A) → any p (xs ++ ys) ≡ (any p xs || any p ys)
  any-append p [] ys = refl
  any-append p (x ∷ xs) ys = ground (arith, any-append p xs ys)

module _ {ℓ κ} {A : Type ℓ} (P : A → Type κ) where
  abbrev pub All : List A → Type κ
  All [] = Unit
  All (x ∷ xs) = P x × All xs

  pub All-append : (xs ys : List A) → All xs → All ys → All (xs ++ ys)
  All-append [] ys hx hy = hy
  All-append (x ∷ xs) ys hx hy = (hx.0, All-append xs ys hx.1 hy)

  pub All-filter : (p : A → Bool) (xs : List A) → All xs → All (filter p xs)
  All-filter p [] h = h
  All-filter p (x ∷ xs) (px, h) =
      elim (p x) as (λ b. All (if b then x ∷ filter p xs else filter p xs)) [
        | true ↦ (px, All-filter p xs h)
        | false ↦ All-filter p xs h
      ]

  pub All-perm : {xs ys : List A} → Permᴰ xs ys → All xs → All ys
  All-perm Permᴰ.nil h = h
  All-perm (Permᴰ.cons e d) (px, h) = (subst P e px, All-perm d h)
  All-perm (Permᴰ.swap e f) (px, (py, h)) = (subst P f py, (subst P e px, h))
  All-perm (Permᴰ.trans d d') h = All-perm d' (All-perm d h)

module _ {ℓ κ μ} {A : Type ℓ} (P : A → Type κ) (Q : A → Type μ) where
  pub All-mono : ((x : A) → P x → Q x) → (xs : List A) → All P xs → All Q xs
  All-mono f [] h = tt
  All-mono f (x ∷ xs) (px, h) = (f x px, All-mono f xs h)

module _ {ℓ κ} {A : Type ℓ} {K : Type κ} (key : A → K) where
  -- No two elements have the same key.
  abbrev pub DistinctBy : List A → Type κ
  DistinctBy [] = Unit
  DistinctBy (x ∷ xs) = All (λ y. key y ≢ key x) xs × DistinctBy xs

  pub DistinctBy-perm : {xs ys : List A} → Permᴰ xs ys → DistinctBy xs → DistinctBy ys
  DistinctBy-perm Permᴰ.nil h = h
  DistinctBy-perm (Permᴰ.cons {a} {b} {l₁} {l₂} e d) (h, k) = (
    All-perm (λ y. key y ≢ key b) d (subst (λ x. All (λ y. key y ≢ key x) l₁) e h),
    DistinctBy-perm d k,
  )
  DistinctBy-perm (Permᴰ.swap {l} e f) ((h, hs), (k, ks)) = (
    (λ p. h (ap key f ∙ sym p ∙ ap key (sym e)), subst (λ x. All (λ y. key y ≢ key x) l) f k),
    (subst (λ x. All (λ y. key y ≢ key x) l) e hs, ks),
  )
  DistinctBy-perm (Permᴰ.trans d d') h = DistinctBy-perm d' (DistinctBy-perm d h)

  pub DistinctBy-filter : (p : A → Bool) (xs : List A) → DistinctBy xs → DistinctBy (filter p xs)
  DistinctBy-filter p [] h = h
  DistinctBy-filter p (x ∷ xs) (h, k) =
      elim (p x) as (λ b. DistinctBy (if b then x ∷ filter p xs else filter p xs)) [
        | true ↦ (All-filter (λ y. key y ≢ key x) p xs h, DistinctBy-filter p xs k)
        | false ↦ DistinctBy-filter p xs k
      ]

  pub DistinctBy-append :
      (xs : List A) (z : A)
      → All (λ x. key x ≢ key z) xs
      → DistinctBy xs
      → DistinctBy (xs ++ z ∷ [])
  DistinctBy-append [] z h k = (tt, tt)
  DistinctBy-append (x ∷ xs) z (e, h) (k, l) = (
    All-append (λ y. key y ≢ key x) xs (z ∷ []) k ((λ p. e (sym p)), tt),
    DistinctBy-append xs z h l,
  )

  prepend_ne :
      (x : A) (xs ys : List A)
      → All (λ y. key y ≢ key x) ys
      → All (λ y. All (λ z. key z ≢ key y) xs) ys
      → All (λ y. All (λ z. key z ≢ key y) (x ∷ xs)) ys
  prepend_ne x xs [] h k = tt
  prepend_ne x xs (y ∷ ys) (e, h) (l, k) = (((λ p. e (sym p)), l), prepend_ne x xs ys h k)

  -- What two exclusive tests select has no key in common.
  pub DistinctBy-separate :
      (p q : A → Bool)
      → ((x : A) → p x ≡ true → q x ≡ false)
      → (xs : List A) → DistinctBy xs
      → All (λ y. All (λ z. key z ≢ key y) (filter p xs)) (filter q xs)
  DistinctBy-separate p q apart [] h = tt
  DistinctBy-separate p q apart (x ∷ xs) (h, k) =
      let ih = DistinctBy-separate p q apart xs k in
      elim (Bool-cases (p x)) [
        | inl e ↦
            rw (e, apart x e) (prepend_ne x (filter p xs) (filter q xs) (All-filter _ q xs h) ih)
        | inr e ↦ elim (Bool-cases (q x)) [
          | inl e' ↦ rw (e, e') (All-filter _ p xs h, ih)
          | inr e' ↦ rw (e, e') ih
        ]
      ]

module _ {ℓ κ} {A : Type ℓ} {K : Type κ} (key : A → K) (f : A → A)
    (same : (x : A) → key (f x) ≡ key x) where
  All-ne-map : (k : K) (xs : List A) → All (λ y. key y ≢ k) xs → All (λ y. key y ≢ k) (map f xs)
  All-ne-map k [] h = tt
  All-ne-map k (x ∷ xs) (e, h) = ((λ p. e (sym (same x) ∙ p)), All-ne-map k xs h)

  -- A change that keeps the keys keeps them distinct.
  pub DistinctBy-map : (xs : List A) → DistinctBy key xs → DistinctBy key (map f xs)
  DistinctBy-map [] h = tt
  DistinctBy-map (x ∷ xs) (h, k) = (
    subst (λ c. All (λ y. key y ≢ c) (map f xs)) (sym (same x)) (All-ne-map (key x) xs h),
    DistinctBy-map xs k,
  )
