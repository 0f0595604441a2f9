-- ===== src/Journeys/Tests/Witnesses.antt =====
-- The theorems on the sample.
use trax_os.Common.{
  String, true, none, some, [], ◌∷◌, ◌≡◌, ◌≢◌, ◌↔◌, refl, inl, Result, ok, err, find?, ◌==◌,
}
use trax_os.Common.Int.{ℤ, pos, ◌≤ℤ◌}
use trax_os.Common.Text.{trim}
use trax_os.Common.Sort.{sort}
use trax_os.Common.Number.{nan, integer}
use trax_os.Journeys.Domain.{
  PackingItem, JourneyData, empty_journey_data, PackingInput, documents, validate_journey,
  validate_segment, validate_packing, segments_for_journey, packing_for_journey, packing_progress,
}
use trax_os.Journeys.Service.{
  assert_valid, assert_journey_exists, assert_owned_item, assert_valid, owns_item, found_index,
  ServiceError, move_segment, delete_segment, save_segment, set_packed_quantity, delete_journey,
  earlier, find_segment,
}
use trax_os.Journeys.Invariant.{IsWellFormed}
use trax_os.Journeys.Invariant.JourneyOps.{AreDates}
use trax_os.Journeys.Invariant.Steps.{Step, here, next, Reach-IsWellFormed}
use trax_os.Journeys.Order.{order}
use trax_os.Journeys.Order.Moving.{move_segment-order}
use trax_os.Journeys.Order.Deleting.{delete_segment-order}
use trax_os.Journeys.Order.Saving.{save_segment-order}
use trax_os.Journeys.Packing.{
  IsWithin, IsRepacked, packing_progress-IsWithin, set_packed_quantity-clamps,
}
use trax_os.Journeys.Returning.{returns, holds_segment, segment_operations_iff}
use trax_os.Journeys.Returning.Items.{packing_operations_iff}
use trax_os.Journeys.Service.{journey_exists, save_packing_item, delete_packing_item}
use trax_os.Common.{any, ◌⊎◌}
use trax_os.Journeys.Cascade.{IsDeleted, delete_journey-IsDeleted}
use trax_os.Journeys.Validation.{
  HasText, InOrder, HasNames, validate_journey_iff, validate_segment_iff, validate_packing_iff,
}
use trax_os.Journeys.Stored.{parse_journey_data}
use trax_os.Journeys.Stored.Encoding.{encode}
use trax_os.Journeys.Stored.Accepted.{IsConsistent, parse_journey_data-IsConsistent}
use trax_os.Journeys.Stored.Loading.{parse_journey_data-encode}
use trax_os.Journeys.Tests.{any_date, sample, browser, walk, sample-IsWellFormed, browser-IsFresh}

-- The data that an operation returns.
abbrev returned : Result ServiceError JourneyData → JourneyData
returned (ok d) = d
returned (err e) = empty_journey_data

abbrev moved : JourneyData
moved = returned (move_segment sample "j1" "s2" earlier browser)

abbrev shortened : JourneyData
shortened = returned (delete_segment sample "j1" "s1" browser)

abbrev walked : JourneyData
walked = returned (save_segment sample "j1" walk browser none)

abbrev packed : JourneyData
packed = returned (set_packed_quantity sample "j1" "i1" (integer (pos 7)) browser)

abbrev deleted : JourneyData
deleted = returned (delete_journey sample "j1")

walk-AreDates : AreDates "" ""
walk-AreDates = record { start = inl refl; end = inl refl }

walked-step : Step any_date sample walked
unfolding save_segment segments_for_journey sort trim validate_segment assert_valid
    assert_journey_exists
walked-step = Step.save_part "j1" walk browser none browser-IsFresh walk-AreDates refl

move_segment-order_example :
    (order moved "j1" ≡ "s2" ∷ "s1" ∷ [])
    × ((k : String) → "j1" ≢ k → segments_for_journey moved k ≡ segments_for_journey sample k)
unfolding move_segment segments_for_journey sort assert_journey_exists found_index
move_segment-order_example =
    move_segment-order sample moved "j1" "s2" earlier browser sample-IsWellFormed.segments.distinct
      refl

delete_segment-order_example :
    (order shortened "j1" ≡ "s2" ∷ [])
    × ((k : String) → "j1" ≢ k → segments_for_journey shortened k ≡ segments_for_journey sample k)
unfolding delete_segment segments_for_journey sort assert_journey_exists assert_owned_item
delete_segment-order_example =
    delete_segment-order any_date sample shortened "j1" "s1" browser sample-IsWellFormed refl

save_segment-order_example :
    (order walked "j1" ≡ "s1" ∷ "s2" ∷ "n1" ∷ [])
    × ((k : String) → "j1" ≢ k → order walked k ≡ order sample k)
unfolding save_segment segments_for_journey sort trim assert_journey_exists assert_valid
    validate_segment find_segment
save_segment-order_example =
    save_segment-order any_date sample walked "j1" walk browser none sample-IsWellFormed
      browser-IsFresh walk-AreDates refl

delete_journey-IsDeleted_example : IsDeleted sample deleted "j1"
unfolding delete_journey assert_journey_exists
delete_journey-IsDeleted_example = delete_journey-IsDeleted sample deleted "j1" refl

packing_progress-IsWithin_example :
    IsWithin (packing_progress (λ x y. nan) (packing_for_journey sample "j1"))
packing_progress-IsWithin_example =
    packing_progress-IsWithin any_date (λ x y. nan) sample "j1" sample-IsWellFormed

Reach-IsWellFormed_example : IsWellFormed any_date walked
Reach-IsWellFormed_example =
    Reach-IsWellFormed any_date sample walked (next here walked-step) sample-IsWellFormed

validate_journey_iff_example :
    (validate_journey (record { name = "Trip"; start_date = ""; end_date = "" }) ≡ [])
    ↔ (HasText "Trip" × InOrder "" "")
validate_journey_iff_example =
    validate_journey_iff (record { name = "Trip"; start_date = ""; end_date = "" })

validate_segment_iff_example :
    (validate_segment walk ≡ []) ↔ (HasNames walk.details × InOrder walk.start_date walk.end_date)
validate_segment_iff_example = validate_segment_iff walk

abbrev socks : PackingInput
socks = record {
  label = "Socks";
  category = documents;
  quantity = integer (pos 100);
  essential = true;
}

validate_packing_iff_example :
    (validate_packing socks ≡ [])
    ↔ (HasText "Socks" × ((n : ℤ) × (integer (pos 100) ≡ integer n) × (pos 1 ≤ℤ n) × (n ≤ℤ pos 99)))
validate_packing_iff_example = validate_packing_iff socks

set_packed_quantity-clamps_example :
    ((i : PackingItem) × (i' : PackingItem) × (find? (λ x. x.id == "i1") sample.packing_items
        ≡ some i)
      × (find? (λ x. x.id == "i1") packed.packing_items ≡ some i')
      × IsRepacked (integer (pos 7)) i i')
    × ((k : String)
        → "i1" ≢ k
        → find? (λ x. x.id == k) packed.packing_items ≡ find? (λ x. x.id == k) sample.packing_items)
    × (packed.segments ≡ sample.segments)
unfolding set_packed_quantity assert_journey_exists assert_owned_item owns_item
set_packed_quantity-clamps_example =
    set_packed_quantity-clamps any_date sample packed "j1" "i1" (integer (pos 7)) browser
      sample-IsWellFormed refl

parse_journey_data-encode_example : parse_journey_data any_date (encode sample) ≡ ok (encode sample)
parse_journey_data-encode_example = parse_journey_data-encode any_date sample sample-IsWellFormed

parse_journey_data-IsConsistent_example :
    (encode sample ≡ encode sample) × IsConsistent any_date (encode sample)
parse_journey_data-IsConsistent_example =
    parse_journey_data-IsConsistent any_date (encode sample) (encode sample)
      (parse_journey_data-encode any_date sample sample-IsWellFormed)

segment_operations_iff_example :
    ((returns (save_segment sample "j1" walk browser (some "s1")) ≡ true) ↔ (
      (journey_exists sample "j1" ≡ true)
      × (HasNames walk.details × InOrder walk.start_date walk.end_date)
      × ((◌≡◌ {A = String} "s1" "") ⊎ (holds_segment sample "j1" "s1" ≡ true))))
    × ((returns (delete_segment sample "j1" "s1" browser) ≡ true)
        ↔ ((journey_exists sample "j1" ≡ true) × (holds_segment sample "j1" "s1" ≡ true)))
    × ((returns (move_segment sample "j1" "s1" earlier browser) ≡ true) ↔ (
        (journey_exists sample "j1" ≡ true)
        × (any (λ s. s.id == "s1") (segments_for_journey sample "j1") ≡ true)))
segment_operations_iff_example = segment_operations_iff sample "j1" "s1" browser walk earlier

packing_operations_iff_example :
    ((returns (save_packing_item sample "j1" socks browser (some "i1")) ≡ true) ↔ (
      (journey_exists sample "j1" ≡ true)
      × (HasText "Socks"
          × ((n : ℤ) × (integer (pos 100) ≡ integer n) × (pos 1 ≤ℤ n) × (n ≤ℤ pos 99)))
      × ((◌≡◌ {A = String} "i1" "") ⊎ (owns_item sample "j1" "i1" ≡ true))))
    × ((returns (set_packed_quantity sample "j1" "i1" (integer (pos 1)) browser) ≡ true)
        ↔ ((journey_exists sample "j1" ≡ true) × (owns_item sample "j1" "i1" ≡ true)))
    × ((returns (delete_packing_item sample "j1" "i1" browser) ≡ true)
        ↔ ((journey_exists sample "j1" ≡ true) × (owns_item sample "j1" "i1" ≡ true)))
packing_operations_iff_example =
    packing_operations_iff sample "j1" "i1" browser socks (integer (pos 1))
