-- ===== src/Common/Text.antt =====
-- JavaScript's operations on text: `trim`, truthiness, and the order of UTF-16 code units.
use Prim.Native.Nat.{ℕ, ◌+◌, ◌-◌, ◌/◌, ◌%◌}
use Prim.Native.Char.{Char, code}
use Prim.Native.String.{String}
use mathlib.Core.Path.{◌≡◌, refl}
use mathlib.Core.Bool.{Bool, true, false, ◌||◌, ◌&&◌}
use mathlib.Core.Logic.{inl, inr}
use mathlib.Core.Option.{Option, none, some}
use mathlib.Core.List.{List, [], ◌∷◌, ◌++◌}
use text.Mathlib.Text.{◌==◌}
use trax_os.Common.Tests.{ltb, leb, if◌then◌else◌, Bool-cases}

-- The white space and line terminators that `trim` removes.
unfoldable pub is_space : ℕ → Bool
is_space c =
    leb 9 c && leb c 13
    || leb 32 c && leb c 32
    || leb 160 c && leb c 160
    || leb 0x1680 c && leb c 0x1680
    || leb 0x2000 c && leb c 0x200a
    || leb 0x2028 c && leb c 0x2029
    || leb 0x202f c && leb c 0x202f
    || leb 0x205f c && leb c 0x205f
    || leb 0x3000 c && leb c 0x3000
    || leb 0xfeff c && leb c 0xfeff

unfoldable pub trim_start : String → String
trim_start String.[] = String.[]
trim_start (String.◌∷◌ c s) =
    let rest = trim_start s in if is_space (code c) then rest else String.◌∷◌ c s

-- A character is kept if it is no space or something kept follows it.
abbrev keep_end : Char → String → String
keep_end c String.[] = if is_space (code c) then String.[] else String.◌∷◌ c String.[]
keep_end c (String.◌∷◌ d s) = String.◌∷◌ c (String.◌∷◌ d s)

unfoldable pub trim_end : String → String
trim_end String.[] = String.[]
trim_end (String.◌∷◌ c s) = keep_end c (trim_end s)

-- `s.trim()`
unfoldable pub trim : String → String
unfolding trim_start trim_end is_space
trim s = trim_end (trim_start s)

-- `s.trim().length === 0`
abbrev pub is_blank : String → Bool
is_blank s = trim s == ""

-- `s || null`
unfoldable pub or_null : String → Option String
or_null s = if s == "" then none else some s

-- A character beyond the basic plane is two code units.
abbrev units : Char → List ℕ
units c =
    if ltb (code c) 0x10000
    then code c ∷ []
    else (0xd800 + (code c - 0x10000) / 0x400) ∷ (0xdc00 + (code c - 0x10000) % 0x400) ∷ []

abbrev pub code_units : String → List ℕ
code_units String.[] = []
code_units (String.◌∷◌ c s) = units c ++ code_units s

abbrev pub units_lt : List ℕ → List ℕ → Bool
units_lt a [] = false
units_lt [] (y ∷ ys) = true
units_lt (x ∷ xs) (y ∷ ys) =
    let rest = units_lt xs ys in if ltb x y then true else if ltb y x then false else rest

-- `a < b` on strings
unfoldable pub text_lt : String → String → Bool
text_lt a b = units_lt (code_units a) (code_units b)

trim_end-cons :
    (c : Char) (s : String)
    → is_space (code c) ≡ false
    → trim_end (String.◌∷◌ c s) ≡ String.◌∷◌ c (trim_end s)
unfolding trim_end
trim_end-cons c s h = go (trim_end s)
  where
    go : (t : String) → keep_end c t ≡ String.◌∷◌ c t
    go String.[] = rw h
    go (String.◌∷◌ d t) = refl

trim_start-trim_end : (s : String) → trim_start (trim_end (trim_start s)) ≡ trim_end (trim_start s)
unfolding trim_start
trim_start-trim_end String.[] = unfold trim_end in refl
trim_start-trim_end (String.◌∷◌ c s) = elim (Bool-cases (is_space (code c))) [
  | inl space ↦ rw space (trim_start-trim_end s)
  | inr kept ↦ rw kept (rw (trim_end-cons c s kept) (rw kept))
]

keep_end_idem : (c : Char) (t : String) → trim_end t ≡ t → trim_end (keep_end c t) ≡ keep_end c t
unfolding trim_end
keep_end_idem c String.[] h = elim (Bool-cases (is_space (code c))) [
  | inl space ↦ rw space
  | inr kept ↦ rw kept (rw kept)
]
keep_end_idem c (String.◌∷◌ d t) h = rw h

trim_end-trim_end : (s : String) → trim_end (trim_end s) ≡ trim_end s
unfolding trim_end
trim_end-trim_end String.[] = refl
trim_end-trim_end (String.◌∷◌ c s) = keep_end_idem c (trim_end s) (trim_end-trim_end s)

-- Trimming twice is trimming once.
pub trim-trim : (s : String) → trim (trim s) ≡ trim s
unfolding trim
trim-trim s = rw trim_start-trim_end (trim_end-trim_end (trim_start s))
