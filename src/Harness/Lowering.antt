-- ===== src/Harness/Lowering.antt =====
-- A text of lower-case hexadecimal digits and dashes is its own lower-case form.
use trax_os.Common.{
  zero, All-append, ◌++◌, ◌≢◌, ◌-◌, subst, ◌+◌, ℕ, suc, String, Bool, true, false, ◌&&◌, ◌||◌, List,
  [], ◌∷◌, ◌≡◌, refl, ap, ap₂, ltb, length, All, arith, Bool-cases, inl, inr,
}
use Prim.Native.Nat.{◌/◌, ◌%◌}
use Prim.Native.Char.{Char, code}
use trax_os.Common.Text.{code_units}
use trax_os.Harness.Format.{
  is_command_uuid, is_uuid, times, is_between, is_hex, fits, uuid_tests, translate, to_lower,
  upper_letters, lower_letters,
}

abbrev pub is_plain : ℕ → Bool
is_plain c = is_hex c || is_between b'-' b'-' c

abbrev are_upper : String → Bool
are_upper String.[] = true
are_upper (String.◌∷◌ a s) = is_between b'A' b'Z' (code a) && are_upper s

translate-plain :
    (upper lower : String) (c : Char)
    → are_upper upper ≡ true
    → is_plain (code c) ≡ true
    → translate upper lower c ≡ c
translate-plain String.[] lower c h p = refl
translate-plain (String.◌∷◌ a upper) String.[] c h p = refl
translate-plain (String.◌∷◌ a upper) (String.◌∷◌ b lower) c h p =
    ground (arith, translate-plain upper lower c)

abbrev ArePlain : List ℕ → Type 0
ArePlain = All (λ c. is_plain c ≡ true)

are_upper-upper_letters : are_upper upper_letters ≡ true
unfolding upper_letters
are_upper-upper_letters = refl

translate-letters :
    (c : Char) → is_plain (code c) ≡ true → translate upper_letters lower_letters c ≡ c
translate-letters c p = translate-plain upper_letters lower_letters c are_upper-upper_letters p

code_units-small :
    (c : Char) (s : String)
    → ltb (code c) 0x10000 ≡ true
    → code_units (String.◌∷◌ c s) ≡ code c ∷ code_units s
code_units-small c s small = rw small

code_units-large :
    (c : Char) (s : String)
    → ltb (code c) 0x10000 ≡ false
    → code_units (String.◌∷◌ c s)
      ≡ (0xd800 + (code c - 0x10000) / 0x400) ∷ (0xdc00 + (code c - 0x10000) % 0x400) ∷ code_units s
code_units-large c s large = rw large

high_unit : (n : ℕ) → is_plain (0xd800 + n) ≢ true
high_unit n h = ground arith

to_lower-cons :
    (c : Char) (s : String)
    → to_lower s ≡ s
    → is_plain (code c) ≡ true
    → to_lower (String.◌∷◌ c s) ≡ String.◌∷◌ c s
unfolding to_lower
to_lower-cons c s rest p = ap₂ String.◌∷◌ (translate-letters c p) rest

ArePlain-code_units :
    (c : Char) (s : String)
    → ArePlain (code_units (String.◌∷◌ c s))
    → (is_plain (code c) ≡ true) × ArePlain (code_units s)
ArePlain-code_units c s h = elim (Bool-cases (ltb (code c) 0x10000)) [
  | inl small ↦ subst ArePlain (code_units-small c s small) h
  | inr large ↦
      let pair = subst ArePlain (code_units-large c s large) h in
      absurd (high_unit ((code c - 0x10000) / 0x400) pair.0)
]

to_lower-empty : to_lower String.[] ≡ String.[]
unfolding to_lower
to_lower-empty = refl

to_lower-plain : (s : String) → ArePlain (code_units s) → to_lower s ≡ s
to_lower-plain String.[] h = to_lower-empty
to_lower-plain (String.◌∷◌ c s) h =
    let both = ArePlain-code_units c s h in to_lower-cons c s (to_lower-plain s both.1) both.0

-- A test that only plain units pass.
abbrev IsStrict : (ℕ → Bool) → Type 0
IsStrict test = (c : ℕ) → test c ≡ true → is_plain c ≡ true

-- Tests that only plain units pass.
abbrev AreStrict : List (ℕ → Bool) → Type 0
AreStrict = All IsStrict

fits-ArePlain :
    (tests : List (ℕ → Bool)) (cs : List ℕ) → AreStrict tests → fits tests cs ≡ true → ArePlain cs
unfolding fits
fits-ArePlain [] [] h e = tt
fits-ArePlain [] (c ∷ cs) h e = cc
fits-ArePlain (test ∷ tests) [] h e = cc
fits-ArePlain (test ∷ tests) (c ∷ cs) (strict, h) e =
    (strict c (ground arith), fits-ArePlain tests cs h (ground arith))

fits-length :
    (tests : List (ℕ → Bool)) (cs : List ℕ) → fits tests cs ≡ true → length cs ≡ length tests
unfolding fits
fits-length [] [] e = refl
fits-length [] (c ∷ cs) e = cc
fits-length (test ∷ tests) [] e = cc
fits-length (test ∷ tests) (c ∷ cs) e = ap suc (fits-length tests cs (ground arith))

IsStrict-is_hex : (c : ℕ) → is_hex c ≡ true → is_plain c ≡ true
IsStrict-is_hex c h = ground arith

IsStrict-dash : IsStrict (is_between b'-' b'-')
IsStrict-dash c h = ground arith

IsStrict-variant : IsStrict (λ c. is_between b'8' b'9' c || is_between b'a' b'b' c)
IsStrict-variant c h = ground arith

AreStrict-times : (n : ℕ) → AreStrict (times n is_hex)
AreStrict-times zero = tt
AreStrict-times (suc n) = (IsStrict-is_hex, AreStrict-times n)

AreStrict-append :
    (n : ℕ) (tests : List (ℕ → Bool)) → AreStrict tests → AreStrict (times n is_hex ++ tests)
AreStrict-append n tests h = All-append IsStrict (times n is_hex) tests (AreStrict-times n) h

abbrev dash : ℕ → Bool
dash = is_between b'-' b'-'

-- The groups from the third on, each with its dash.
abbrev last_group : List (ℕ → Bool)
last_group = dash ∷ times 12 is_hex

abbrev fourth_group : List (ℕ → Bool)
fourth_group =
    dash ∷ (λ c. is_between b'8' b'9' c || is_between b'a' b'b' c) ∷ times 3 is_hex ++ last_group

abbrev third_group : (ℕ → Bool) → List (ℕ → Bool)
third_group version = dash ∷ version ∷ times 3 is_hex ++ fourth_group

fourth_group-AreStrict : AreStrict fourth_group
fourth_group-AreStrict = (
  IsStrict-dash,
  (IsStrict-variant, AreStrict-append 3 last_group (IsStrict-dash, AreStrict-times 12)),
)

third_group-AreStrict : (version : ℕ → Bool) → IsStrict version → AreStrict (third_group version)
third_group-AreStrict version h =
    (IsStrict-dash, (h, AreStrict-append 3 fourth_group fourth_group-AreStrict))

uuid_tests-AreStrict : (version : ℕ → Bool) → IsStrict version → AreStrict (uuid_tests version)
uuid_tests-AreStrict version h =
    AreStrict-append 8 (dash ∷ times 4 is_hex ++ third_group version)
      (IsStrict-dash, AreStrict-append 4 (third_group version) (third_group-AreStrict version h))

pub to_lower-is_uuid : (s : String) → is_uuid s ≡ true → to_lower s ≡ s
unfolding is_uuid
to_lower-is_uuid s e = to_lower-plain s (
    fits-ArePlain (uuid_tests (is_between b'1' b'5')) (code_units s)
      (uuid_tests-AreStrict (is_between b'1' b'5') (λ c h. ground arith)) e)

pub to_lower-is_command_uuid : (s : String) → is_command_uuid s ≡ true → to_lower s ≡ s
unfolding is_command_uuid
to_lower-is_command_uuid s e = to_lower-plain s (
    fits-ArePlain (uuid_tests (is_between b'4' b'4')) (code_units s)
      (uuid_tests-AreStrict (is_between b'4' b'4') (λ c h. ground arith)) e)

pub length-is_uuid : (s : String) → is_uuid s ≡ true → length (code_units s) ≡ 36
unfolding is_uuid
length-is_uuid s e = fits-length (uuid_tests (is_between b'1' b'5')) (code_units s) e

pub length-is_command_uuid : (s : String) → is_command_uuid s ≡ true → length (code_units s) ≡ 36
unfolding is_command_uuid
length-is_command_uuid s e = fits-length (uuid_tests (is_between b'4' b'4')) (code_units s) e
