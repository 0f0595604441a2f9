-- ===== src/Journeys/Format.antt =====
-- The forms of dates and timestamps that domain.ts tests: `LOCAL_DATE`, `nullableDate` and
-- `isoTimestamp`. `Date.parse` belongs to the platform: whether it takes a text is a parameter.
use trax_os.Common.{
  ℕ, String, Bool, true, false, Option, none, some, List, [], ◌∷◌, ◌&&◌, ◌≡◌, ◌⊎◌, leb, any, arith,
  eq_iff,
}
use trax_os.Common.Text.{code_units, or_null, is_blank, trim, trim-trim}
use trax_os.Journeys.Domain.{dates_reversed}

is_digit : ℕ → Bool
is_digit c = leb b'0' c && leb c b'9'

is_dash : ℕ → Bool
is_dash c = leb b'-' c && leb c b'-'

-- the regular expression ^\d{4}-\d{2}-\d{2}$
local_date_units : List ℕ → Bool
unfolding is_digit is_dash
local_date_units (a ∷ b ∷ c ∷ d ∷ e ∷ f ∷ g ∷ h ∷ i ∷ j ∷ []) =
    is_digit a
    && is_digit b
    && is_digit c
    && is_digit d
    && is_dash e
    && is_digit f
    && is_digit g
    && is_dash h
    && is_digit i
    && is_digit j
local_date_units _ = false

-- `LOCAL_DATE.test(s)`
unfoldable pub is_local_date : String → Bool
unfolding local_date_units
is_local_date s = local_date_units (code_units s)

abbrev pub IsDate : Option String → Type 0
IsDate none = Unit
IsDate (some s) = is_local_date s ≡ true

-- `startDate && endDate && endDate < startDate` on stored dates
abbrev pub out_of_order : Option String → Option String → Bool
out_of_order (some start) (some end) = dates_reversed start end
out_of_order _ _ = false

-- `isoTimestamp`, where `date_parses s` is `!Number.isNaN(Date.parse(s))`
unfoldable pub is_timestamp : (date_parses : String → Bool) → String → Bool
is_timestamp date_parses s = date_parses s && any (λ c. leb b'T' c && leb c b'T') (code_units s)

-- What a date field of a form holds: nothing, or a date.
abbrev pub IsDateInput : String → Type 0
IsDateInput s = (s ≡ "") ⊎ (is_local_date s ≡ true)

pub or_null-IsDate : (s : String) → IsDateInput s → IsDate (or_null s)
unfolding or_null
or_null-IsDate s h = ground (arith, eq_iff s "")

pub out_of_order-or_null :
    (a b : String) → dates_reversed a b ≡ false → out_of_order (or_null a) (or_null b) ≡ false
unfolding or_null
out_of_order-or_null a b h = ground arith

pub is_blank-trim : (s : String) → is_blank s ≡ false → is_blank (trim s) ≡ false
is_blank-trim s h = ground (arith, trim-trim s)
