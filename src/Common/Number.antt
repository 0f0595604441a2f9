-- ===== src/Common/Number.antt =====
-- A value of `number`, as far as the program looks at one: whether it is an integer, and how it
-- compares with an integer. The sign of zero is left out.
use Prim.Native.Nat.{ℕ}
use mathlib.Core.Bool.{Bool, true, false}
use mathlib.Core.Path.{◌≡◌, refl}
use native.Mathlib.Omega.{arith}
use trax_os.Common.Tests.{leb, if◌then◌else◌}
use trax_os.Common.Int.{ℤ, pos, ltb_ℤ, leb_ℤ, eqb_ℤ, ◌≤ℤ◌, ◌+ℤ◌, min_ℤ, max_ℤ}

pub data Number : Type 0 where
  integer : ℤ → Number
  -- strictly between the first argument and its successor; the second tells such values apart
  fraction : ℤ → ℕ → Number
  -- `Infinity` and, at `false`, `-Infinity`
  infinite : Bool → Number
  nan : Number

-- `Number.isInteger(x)`
abbrev pub is_integer : Number → Bool
is_integer (integer n) = true
is_integer _ = false

-- `x < k`
abbrev pub lt_int : Number → ℤ → Bool
lt_int (integer n) k = ltb_ℤ n k
lt_int (fraction n _) k = ltb_ℤ n k
lt_int (infinite true) k = false
lt_int (infinite false) k = true
lt_int nan k = false

-- `x > k`
abbrev pub gt_int : Number → ℤ → Bool
gt_int (integer n) k = ltb_ℤ k n
gt_int (fraction n _) k = leb_ℤ k n
gt_int (infinite true) k = true
gt_int (infinite false) k = false
gt_int nan k = false

-- The integer that a number is, and 0 for one that is none.
abbrev pub integral : Number → ℤ
integral (integer n) = n
integral _ = pos 0

-- `Math.min(k, x)` and `Math.max(k, x)`, which are `NaN` where `x` is
abbrev pub min_int : ℤ → Number → Number
min_int k x = if gt_int x k then integer k else x

abbrev pub max_int : ℤ → Number → Number
max_int k x = if lt_int x k then integer k else x

abbrev same_units : ℕ → ℕ → Bool
same_units a b = if leb a b then leb b a else false

-- `x === y`
abbrev pub same_number : Number → Number → Bool
same_number (integer a) (integer b) = eqb_ℤ a b
same_number (fraction a i) (fraction b j) = if eqb_ℤ a b then same_units i j else false
same_number (infinite true) (infinite b) = b
same_number (infinite false) (infinite b) = if b then false else true
same_number _ _ = false

-- `x + y`, with `floating` where one of them is no integer
abbrev pub add_number : (floating : Number → Number → Number) → Number → Number → Number
add_number floating (integer a) (integer b) = integer (a +ℤ b)
add_number floating a b = floating a b

-- A number is the integer `n`, and `n` is from `low` to `high`.
abbrev pub IsBetween : ℤ → ℤ → Number → Type 0
IsBetween low high x = (n : ℤ) × (x ≡ integer n) × (low ≤ℤ n) × (n ≤ℤ high)

pub max_int-IsBetween :
    (low high : ℤ) (x : Number)
    → low ≤ℤ high
    → is_integer x ≡ true
    → IsBetween low high (max_int low (min_int high x))
max_int-IsBetween low high (integer n) h e =
    (max_ℤ low (min_ℤ high n), ground arith, ground arith, ground arith)
max_int-IsBetween low high (fraction n i) h e = cc
max_int-IsBetween low high (infinite b) h e = cc
max_int-IsBetween low high nan h e = cc

pub min_int-IsBetween :
    (low high high' : ℤ) (x : Number)
    → low ≤ℤ high'
    → IsBetween low high x
    → IsBetween low high' (min_int high' x)
min_int-IsBetween low high high' (integer m) h (n, e, least, most) =
    (min_ℤ high' m, ground arith, ground arith, ground arith)
min_int-IsBetween low high high' (fraction m i) h (n, e, least, most) = cc
min_int-IsBetween low high high' (infinite b) h (n, e, least, most) = cc
min_int-IsBetween low high high' nan h (n, e, least, most) = cc

pub same_number-eq : (x y : Number) → same_number x y ≡ true → x ≡ y
same_number-eq (integer a) (integer b) e = ground arith
same_number-eq (integer a) (fraction b j) e = cc
same_number-eq (integer a) (infinite b) e = cc
same_number-eq (integer a) nan e = cc
same_number-eq (fraction a i) (integer b) e = cc
same_number-eq (fraction a i) (fraction b j) e = ground arith
same_number-eq (fraction a i) (infinite b) e = cc
same_number-eq (fraction a i) nan e = cc
same_number-eq (infinite true) (infinite true) e = refl
same_number-eq (infinite false) (infinite false) e = refl
same_number-eq (infinite true) (infinite false) e = cc
same_number-eq (infinite false) (infinite true) e = cc
same_number-eq (infinite true) (integer b) e = cc
same_number-eq (infinite false) (integer b) e = cc
same_number-eq (infinite true) (fraction b j) e = cc
same_number-eq (infinite false) (fraction b j) e = cc
same_number-eq (infinite true) nan e = cc
same_number-eq (infinite false) nan e = cc
same_number-eq nan (integer b) e = cc
same_number-eq nan (fraction b j) e = cc
same_number-eq nan (infinite b) e = cc
same_number-eq nan nan e = cc
