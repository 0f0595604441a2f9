-- ===== src/Repository/Replay/Deletable.antt =====
-- When the tests of the deletions in http-journey-repository.ts hold for an id, with `has` the
-- ids that stay.
use trax_os.Common.{
  String, Bool, true, false, not, ◌&&◌, ◌==◌, ◌≡◌, refl, subst, eq_iff, eq_refl, inl, inr,
  Bool-cases, arith,
}

pub apart : (has : String → Bool) (o j : String) → has o ≡ true → (not (has j) && (o == j)) ≡ false
apart has o j h = elim (Bool-cases (o == j)) [
  | inl e ↦ let same : o ≡ j = (eq_iff o j).0 e in rw (subst (λ c. has c ≡ true) same h) refl
  | inr e ↦ let no : (o == j) ≡ false = e in ground arith
]

pub together :
    (has : String → Bool) (o j : String)
    → has o ≡ false
    → (j == o) ≡ true
    → (not (has j) && (o == j)) ≡ true
together has o j h e = let same : j ≡ o = (eq_iff j o).0 e in rw (same, h) (eq_refl o)

pub kept :
    (l : Bool) (has : String → Bool) (i k : String)
    → has k ≡ true
    → ((l && not (has i)) && (i == k)) ≡ false
kept l has i k h = elim (Bool-cases (i == k)) [
  | inl e ↦
      let same : i ≡ k = (eq_iff i k).0 e in let there : has i ≡ true = rw same h in ground arith
  | inr e ↦ let no : (i == k) ≡ false = e in ground arith
]

pub dropped :
    (l : Bool) (has : String → Bool) (i k : String)
    → l ≡ true
    → has k ≡ false
    → (i == k) ≡ true
    → ((l && not (has i)) && (i == k)) ≡ true
dropped l has i k hl h e =
    let same : i ≡ k = (eq_iff i k).0 e in let there : has i ≡ false = rw same h in ground arith
