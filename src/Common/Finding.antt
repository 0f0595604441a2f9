-- ===== src/Common/Finding.antt =====
-- What `find`, `some` and a swap of neighbours say about a list.
use Prim.Native.Nat.{ℕ, zero, suc}
use mathlib.Core.Path.{◌≡◌, refl, sym, ap, subst, ◌∙◌}
use mathlib.Core.Logic.{◌≢◌, inl, inr}
use mathlib.Core.Bool.{false, Bool, true}
use mathlib.Core.Option.{Option, none, some}
use mathlib.Core.List.{List, [], ◌∷◌, map, Permᴰ}
use native.Mathlib.Omega.{arith}
use Prim.Native.String.{String}
use text.Mathlib.Text.{◌==◌}
use trax_os.Common.Tests.{Bool-cases, if◌then◌else◌}
use trax_os.Common.Lists.{All, next_index, DistinctBy, any, find?, get_elem?, set}

module _ {A : Type 0} where
  pub find?-holds : (p : A → Bool) (xs : List A) {a : A} → find? p xs ≡ some a → p a ≡ true
  find?-holds p [] e = cc
  find?-holds p (x ∷ xs) {a} e = elim (Bool-cases (p x)) [
    | inl here ↦ ground arith
    | inr there ↦ find?-holds p xs (rw there at e)
  ]

  pub All-find? :
      (P : A → Type 0) (p : A → Bool) (xs : List A) {a : A} → find? p xs ≡ some a → All P xs → P a
  All-find? P p [] e h = cc
  All-find? P p (x ∷ xs) {a} e (k, h) = elim (Bool-cases (p x)) [
    | inl here ↦ let same : x ≡ a = ground arith in rw same at k
    | inr there ↦ All-find? P p xs (rw there at e) h
  ]

  pub find?-of_any :
      (p : A → Bool) (xs : List A) → any p xs ≡ true → (a : A) × (find? p xs ≡ some a)
  find?-of_any p [] e = cc
  find?-of_any p (x ∷ xs) e = elim (Bool-cases (p x)) [
    | inl here ↦ (x, rw here)
    | inr there ↦ let (a, found) = find?-of_any p xs (rw there at e) in (a, rw there found)
  ]

  -- With distinct keys, what is found is the one element with its key.
  pub find?-unique :
      {K : Type 0} (key : A → K) (p : A → Bool) (xs : List A) {a : A}
      → DistinctBy key xs
      → find? p xs ≡ some a
      → All (λ x. key x ≡ key a → x ≡ a) xs
  find?-unique key p [] d e = tt
  find?-unique key p (x ∷ xs) {a} (h, d) e = elim (Bool-cases (p x)) [
    | inl here ↦ let same : x ≡ a = ground arith in ((λ _. same), others same xs h)
    | inr there ↦
        let found : find? p xs ≡ some a = rw there at e in
        (
          (λ k. absurd (All-find? (λ y. key y ≢ key x) p xs found h (sym k))),
          find?-unique key p xs d found,
        )
  ]
    where
      others :
          x ≡ a → (ys : List A) → All (λ y. key y ≢ key x) ys → All (λ y. key y ≡ key a → y ≡ a) ys
      others same [] h = tt
      others same (y ∷ ys) (k, h) = ((λ e. absurd (k (e ∙ ap key (sym same)))), others same ys h)

  pub All-map :
      (P Q : A → Type 0) (f : A → A)
      → ((x : A) → P x → Q (f x))
      → (xs : List A) → All P xs
      → All Q (map f xs)
  All-map P Q f keep [] h = tt
  All-map P Q f keep (x ∷ xs) (k, h) = (keep x k, All-map P Q f keep xs h)

  pub All-zip : (P Q : A → Type 0) (xs : List A) → All P xs → All Q xs → All (λ x. P x × Q x) xs
  All-zip P Q [] h k = tt
  All-zip P Q (x ∷ xs) (p, h) (q, k) = ((p, q), All-zip P Q xs h k)

  -- `[xs[i], xs[i + 1]] = [xs[i + 1], xs[i]]`, whichever of the two is written first
  pub swap_later-perm :
      (xs : List A) (i : ℕ) {a b : A}
      → get_elem? xs i ≡ some a
      → get_elem? xs (suc i) ≡ some b
      → Permᴰ xs (set (set xs i b) (suc i) a)
  swap_later-perm [] i e f = cc
  swap_later-perm (x ∷ []) zero e f = cc
  swap_later-perm (x ∷ y ∷ xs) zero e f = Permᴰ.swap (ground arith) (ground arith)
  swap_later-perm (x ∷ xs) (suc i) e f = Permᴰ.cons refl (swap_later-perm xs i e f)

  pub swap_earlier-perm :
      (xs : List A) (i : ℕ) {a b : A}
      → get_elem? xs (suc i) ≡ some a
      → get_elem? xs i ≡ some b
      → Permᴰ xs (set (set xs (suc i) b) i a)
  swap_earlier-perm [] i e f = cc
  swap_earlier-perm (x ∷ []) zero e f = cc
  swap_earlier-perm (x ∷ y ∷ xs) zero e f = Permᴰ.swap (ground arith) (ground arith)
  swap_earlier-perm (x ∷ xs) (suc i) e f = Permᴰ.cons refl (swap_earlier-perm xs i e f)

pub next_index-eq-some :
    (o : Option ℕ) {i : ℕ} → next_index o ≡ some i → (j : ℕ) × (o ≡ some j) × (i ≡ suc j)
next_index-eq-some none e = cc
next_index-eq-some (some j) e = (j, refl, ground arith)

-- What is found by a key is found changed, when a change that keeps the keys is made under the key.
pub find?-map {ℓ} :
    {A : Type ℓ} (key : A → String) (f : A → A) (k : String) (xs : List A) (a : A)
    → ((x : A) → key (f x) ≡ key x)
    → find? (λ x. key x == k) xs ≡ some a
    → find? (λ x. key x == k) (map (λ x. if key x == k then f x else x) xs) ≡ some (f a)
find?-map key f k [] a keeps e = cc
find?-map key f k (x ∷ xs) a keeps e = elim (Bool-cases (key x == k)) [
  | inl here ↦
      let e' : some x ≡ some a = rw here at e in
      let same : x ≡ a = cc in
      let kept : (key (f x) == k) ≡ true = subst (λ i. (i == k) ≡ true) (sym (keeps x)) here in
      rw (here, kept) (ap (λ y. some (f y)) same)
  | inr there ↦ rw (there, there) (find?-map key f k xs a keeps (rw there at e))
]

module _ {A : Type 0} where
  pub any-none : (p : A → Bool) (xs : List A) → ((x : A) → p x ≡ false) → any p xs ≡ false
  any-none p [] h = refl
  any-none p (x ∷ xs) h = rw (h x) (any-none p xs h)

  pub any_mono :
      (p q : A → Bool) (xs : List A)
      → ((x : A) → p x ≡ true → q x ≡ true)
      → any p xs ≡ true
      → any q xs ≡ true
  any_mono p q [] h e = e
  any_mono p q (x ∷ xs) h e = elim (Bool-cases (p x)) [
    | inl e' ↦ rw (h x e') refl
    | inr e' ↦ let ih = any_mono p q xs h (rw e' at e) in ground arith
  ]

  pub any-find? :
      (p q : A → Bool) (xs : List A) (a : A) → find? p xs ≡ some a → q a ≡ true → any q xs ≡ true
  any-find? p q [] a e h = cc
  any-find? p q (x ∷ xs) a e h = elim (Bool-cases (p x)) [
    | inl here ↦ let same : x ≡ a = ground arith in rw (same, h) refl
    | inr there ↦ let ih = any-find? p q xs a (rw there at e) h in ground arith
  ]

  pub any-find?-none : (p : A → Bool) (xs : List A) → find? p xs ≡ none → any p xs ≡ false
  any-find?-none p [] e = refl
  any-find?-none p (x ∷ xs) e = elim (Bool-cases (p x)) [
    | inl here ↦ ground arith
    | inr there ↦ rw there (any-find?-none p xs (rw there at e))
  ]
