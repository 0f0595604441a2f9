-- ===== src/Harness/Format.antt =====
-- The forms of texts that command-protocol.ts tests, on UTF-16 code units.
use trax_os.Common.{
  ℕ, zero, suc, String, Bool, true, false, ◌&&◌, ◌||◌, List, [], ◌∷◌, ◌++◌, leb, eqb, if◌then◌else◌,
}
use Prim.Native.Char.{Char, code}
use trax_os.Common.Text.{code_units}

abbrev pub is_between : ℕ → ℕ → ℕ → Bool
is_between low high c = leb low c && leb c high

-- `[0-9a-f]`
abbrev pub is_hex : ℕ → Bool
is_hex c = is_between b'0' b'9' c || is_between b'a' b'f' c

-- A text whose units pass the tests of a list, one each.
unfoldable pub fits : List (ℕ → Bool) → List ℕ → Bool
fits [] [] = true
fits (test ∷ tests) (c ∷ cs) = test c && fits tests cs
fits _ _ = false

-- `{n}` of a class
abbrev pub times : ℕ → (ℕ → Bool) → List (ℕ → Bool)
times zero test = []
times (suc n) test = test ∷ times n test

-- the two regular expressions for UUIDs, which differ in the version digit
abbrev pub uuid_tests : (ℕ → Bool) → List (ℕ → Bool)
uuid_tests version =
    times 8 is_hex
    ++ is_between b'-' b'-' ∷ times 4 is_hex
    ++ is_between b'-' b'-' ∷ version ∷ times 3 is_hex
    ++ is_between b'-' b'-'
      ∷ (λ c. is_between b'8' b'9' c || is_between b'a' b'b' c)
      ∷ times 3 is_hex
    ++ is_between b'-' b'-' ∷ times 12 is_hex

unfoldable pub is_uuid : String → Bool
is_uuid s = fits (uuid_tests (is_between b'1' b'5')) (code_units s)

unfoldable pub is_command_uuid : String → Bool
is_command_uuid s = fits (uuid_tests (is_between b'4' b'4')) (code_units s)

-- The letter of the second alphabet in the place of `c` in the first.
abbrev pub translate : String → String → Char → Char
translate (String.◌∷◌ a upper) (String.◌∷◌ b lower) c =
    let rest = translate upper lower c in if eqb (code c) (code a) then b else rest
translate _ _ c = c

unfoldable pub upper_letters : String
upper_letters = "ABCDEFGHIJKLMNOPQRSTUVWXYZ"

unfoldable pub lower_letters : String
lower_letters = "abcdefghijklmnopqrstuvwxyz"

-- `s.toLowerCase()` of a text in ASCII. The source tests what it has lowered, and turns away every
-- text that keeps a character beyond ASCII.
unfoldable pub to_lower : String → String
to_lower String.[] = String.[]
to_lower (String.◌∷◌ c s) = String.◌∷◌ (translate upper_letters lower_letters c) (to_lower s)
