-- ===== src/Journeys/Validation.antt =====
-- What the validators of domain.ts accept, said without their tests.
use trax_os.Common.{String, false, ◌≡◌, ◌≢◌, ◌↔◌, refl, [], arith, eq_iff, not, ◌||◌}
use trax_os.Common.Int.{ℤ, pos, ◌≤ℤ◌}
use trax_os.Common.Number.{Number, is_integer, lt_int, gt_int, integer, fraction, infinite, nan}
use trax_os.Common.Text.{trim, is_blank, text_lt}
use trax_os.Journeys.Domain.{
  SegmentDetails, stay, move, SegmentInput, PackingInput, JourneyInput, dates_reversed,
  place_missing, route_missing, validate_packing, validate_segment, validate_journey,
}

-- More than white space.
abbrev pub HasText : String → Type 0
HasText s = trim s ≢ ""

-- Both dates given means that they are in order.
abbrev pub InOrder : String → String → Type 0
InOrder start end = start ≢ "" → end ≢ "" → text_lt end start ≡ false

abbrev pub HasNames : SegmentDetails → Type 0
HasNames (stay place) = HasText place
HasNames (move origin destination mode) = HasText origin × HasText destination

is_blank_iff : (s : String) → (is_blank s ≡ false) ↔ HasText s
is_blank_iff s =
    (λ e p. ground (arith, eq_iff (trim s) ""), λ h. ground (arith, eq_iff (trim s) "", h))

dates_iff : (start end : String) → (dates_reversed start end ≡ false) ↔ InOrder start end
dates_iff start end = (
  λ e p q. ground (arith, eq_iff start "", eq_iff end ""),
  λ h. ground (arith, eq_iff start "", eq_iff end "", h),
)

-- A journey form is accepted exactly when it has a name with text and dates in order.
pub validate_journey_iff :
    (input : JourneyInput)
    → (validate_journey input ≡ []) ↔ (HasText input.name × InOrder input.start_date input.end_date)
unfolding validate_journey
validate_journey_iff input = (
  λ e. (
    (is_blank_iff input.name).0 (ground arith),
    (dates_iff input.start_date input.end_date).0 (ground arith),
  ),
  λ h.
      let named = (is_blank_iff input.name).1 h.0 in
      let ordered = (dates_iff input.start_date input.end_date).1 h.1 in ground arith,
)

names_iff :
    (details : SegmentDetails)
    → ((place_missing details || route_missing details) ≡ false) ↔ HasNames details
names_iff (stay place) = (
  λ e. (is_blank_iff place).0 (ground arith),
  λ h. let text = (is_blank_iff place).1 h in ground arith,
)
names_iff (move origin destination mode) = (
  λ e. ((is_blank_iff origin).0 (ground arith), (is_blank_iff destination).0 (ground arith)),
  λ h.
      let from = (is_blank_iff origin).1 h.0 in
      let to = (is_blank_iff destination).1 h.1 in ground arith,
)

-- A segment form is accepted exactly when its names have text and its dates are in order.
pub validate_segment_iff :
    (input : SegmentInput)
    → (validate_segment input ≡ [])
      ↔ (HasNames input.details × InOrder input.start_date input.end_date)
unfolding validate_segment
validate_segment_iff input = (
  λ e. (
    (names_iff input.details).0 (ground arith),
    (dates_iff input.start_date input.end_date).0 (ground arith),
  ),
  λ h.
      let named = (names_iff input.details).1 h.0 in
      let ordered = (dates_iff input.start_date input.end_date).1 h.1 in ground arith,
)

abbrev IsCount : Number → Type 0
IsCount q = (n : ℤ) × (q ≡ integer n) × (pos 1 ≤ℤ n) × (n ≤ℤ pos 99)

quantity_iff :
    (q : Number)
    → ((not (is_integer q) || lt_int q (pos 1) || gt_int q (pos 99)) ≡ false) ↔ IsCount q
quantity_iff (integer n) =
    (λ e. (n, refl, ground arith, ground arith), λ h. let (m, same, low, high) = h in ground arith)
quantity_iff (fraction n k) = (λ e. cc, λ h. let (m, same, _, _) = h in cc)
quantity_iff (infinite b) = (λ e. cc, λ h. let (m, same, _, _) = h in cc)
quantity_iff nan = (λ e. cc, λ h. let (m, same, _, _) = h in cc)

-- A packing form is accepted exactly when its label has text and its quantity is an integer from
-- 1 to 99.
pub validate_packing_iff :
    (input : PackingInput)
    → (validate_packing input ≡ []) ↔ (
        HasText input.label
        × ((n : ℤ) × (input.quantity ≡ integer n) × (pos 1 ≤ℤ n) × (n ≤ℤ pos 99)))
unfolding validate_packing
validate_packing_iff input = (
  λ e.
      ((is_blank_iff input.label).0 (ground arith), (quantity_iff input.quantity).0 (ground arith)),
  λ h.
      let text = (is_blank_iff input.label).1 h.0 in
      let count = (quantity_iff input.quantity).1 h.1 in ground arith,
)
