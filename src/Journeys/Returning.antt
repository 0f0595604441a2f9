-- ===== src/Journeys/Returning.antt =====
-- When an operation on segments of journey-service.ts returns, and when it throws.
pub mod Items
use trax_os.Common.{
  String, Bool, true, false, not, ◌&&◌, Option, none, some, List, [], ◌∷◌, ◌==◌, ◌≡◌, ◌↔◌, ◌⊎◌, inl,
  inr, refl, ap, ◌∙◌, any, find?, find_index, next_index, is_some, arith, eq_iff, Result, ok, err,
  guard, ◌>>◌, ◌>>=◌, Bool-cases, ℕ, if◌then◌else◌,
}
use trax_os.Common.Int.{ℤ, pos, ◌≤ℤ◌}
use trax_os.Journeys.Domain.{
  JourneySegment, PackingItem, JourneyData, SegmentInput, PackingInput, validate_segment,
  validate_packing, segments_for_journey, ValidationErrorCode,
}
use trax_os.Journeys.Service.{
  Runtime, ServiceError, operation, item_not_found, journey_not_found, journey_exists, assert_valid,
  assert_journey_exists, assert_owned_item, is_given, find_segment, save_segment, delete_segment,
  move_segment, Direction, found_index, find_item, owns_item, save_packing_item,
  set_packed_quantity, delete_packing_item,
}
use trax_os.Journeys.Validation.{
  HasText, InOrder, HasNames, validate_segment_iff, validate_packing_iff,
}

abbrev pub returns {ℓ κ} : {E : Type ℓ} {A : Type κ} → Result E A → Bool
returns (ok a) = true
returns (err e) = false

abbrev pub is_nil : List ValidationErrorCode → Bool
is_nil [] = true
is_nil (c ∷ cs) = false

pub is_nil_iff : (cs : List ValidationErrorCode) → (is_nil cs ≡ true) ↔ (cs ≡ [])
is_nil_iff [] = (λ e. refl, λ e. refl)
is_nil_iff (c ∷ cs) = (λ e. cc, λ e. cc)

pub returns-guard :
    {A : Type 0} (b : Bool) (e : ServiceError) (k : Result ServiceError A)
    → returns (guard b e >> k) ≡ (b && returns k)
returns-guard true e k = refl
returns-guard false e k = refl

pub returns-assert_valid :
    {A : Type 0} (cs : List ValidationErrorCode) (k : Result ServiceError A)
    → returns (assert_valid cs >> k) ≡ (is_nil cs && returns k)
unfolding assert_valid
returns-assert_valid [] k = refl
returns-assert_valid (c ∷ cs) k = refl

returns-found_index :
    {A : Type 0} (o : Option ℕ) (f : ℕ → A) → returns (found_index o >>= λ i. ok (f i)) ≡ is_some o
unfolding found_index
returns-found_index none f = refl
returns-found_index (some i) f = refl

is_some-next : (o : Option ℕ) → is_some (next_index o) ≡ is_some o
is_some-next none = refl
is_some-next (some i) = refl

is_some-find_index :
    (k : String) (ss : List JourneySegment)
    → is_some (find_index (λ s. s.id == k) ss) ≡ any (λ s. s.id == k) ss
is_some-find_index k [] = refl
is_some-find_index k (s ∷ ss) =
    let rest = is_some-next (find_index (λ x. x.id == k) ss) in
    ground (arith, is_some-find_index k ss)

pub is_some-find? : {A : Type 0} (p : A → Bool) (xs : List A) → is_some (find? p xs) ≡ any p xs
is_some-find? p [] = refl
is_some-find? p (x ∷ xs) = ground (arith, is_some-find? p xs)

-- The journey's timeline holds the segment.
abbrev pub holds_segment : JourneyData → String → String → Bool
holds_segment d journey_id k = any (λ s. s.id == k && s.journey_id == journey_id) d.segments

module _ (d : JourneyData) (journey_id k : String) (r : Runtime) where
  returns-save_segment :
      (input : SegmentInput)
      → returns (save_segment d journey_id input r (some k)) ≡ (
          journey_exists d journey_id
          && (is_nil (validate_segment input)
              && (not (not (k == "") && not (is_some (find_segment d journey_id (some k))))
                  && true)))
  unfolding save_segment assert_journey_exists
  returns-save_segment input =
      returns-guard (journey_exists d journey_id) (operation journey_not_found) _
      ∙ ap (λ b. journey_exists d journey_id && b)
          (returns-assert_valid (validate_segment input) _
            ∙ ap (λ b. is_nil (validate_segment input) && b)
                (returns-guard _ (operation item_not_found) (ok _)))

  returns-move_segment :
      (direction : Direction)
      → returns (move_segment d journey_id k direction r)
        ≡ (journey_exists d journey_id && any (λ s. s.id == k) (segments_for_journey d journey_id))
  unfolding move_segment assert_journey_exists
  returns-move_segment direction =
      returns-guard (journey_exists d journey_id) (operation journey_not_found) _
      ∙ ap (λ b. journey_exists d journey_id && b)
          (returns-found_index (find_index (λ s. s.id == k) (segments_for_journey d journey_id)) _
            ∙ is_some-find_index k (segments_for_journey d journey_id))

  returns-delete_segment :
      returns (delete_segment d journey_id k r)
      ≡ (journey_exists d journey_id && (holds_segment d journey_id k && true))
  unfolding delete_segment assert_journey_exists assert_owned_item
  returns-delete_segment =
      returns-guard (journey_exists d journey_id) (operation journey_not_found) _
      ∙ ap (λ b. journey_exists d journey_id && b)
          (returns-guard (holds_segment d journey_id k) (operation item_not_found) (ok _))

  is_some-find_segment :
      is_some (find_segment d journey_id (some k)) ≡ (not (k == "") && holds_segment d journey_id k)
  unfolding find_segment
  is_some-find_segment =
      ground (arith, is_some-find? (λ s. s.id == k && s.journey_id == journey_id) d.segments)

  -- Of a journey that exists, a segment is edited exactly when the form has its names and its dates
  -- in order and the id is empty or that of a segment of the journey; it is deleted exactly when it
  -- belongs to the journey; it is moved, or left at its end, exactly when it is in the timeline.
  -- Of a journey that does not exist, all three throw.
  pub segment_operations_iff :
      (input : SegmentInput) (direction : Direction)
      → ((returns (save_segment d journey_id input r (some k)) ≡ true) ↔ (
          (journey_exists d journey_id ≡ true)
          × (HasNames input.details × InOrder input.start_date input.end_date)
          × ((k ≡ "") ⊎ (holds_segment d journey_id k ≡ true))))
        × ((returns (delete_segment d journey_id k r) ≡ true)
            ↔ ((journey_exists d journey_id ≡ true) × (holds_segment d journey_id k ≡ true)))
        × ((returns (move_segment d journey_id k direction r) ≡ true) ↔ (
            (journey_exists d journey_id ≡ true)
            × (any (λ s. s.id == k) (segments_for_journey d journey_id) ≡ true)))
  segment_operations_iff input direction = (saved, deleted, moved)
    where
      saved : (returns (save_segment d journey_id input r (some k)) ≡ true) ↔ (
          (journey_exists d journey_id ≡ true)
          × (HasNames input.details × InOrder input.start_date input.end_date)
          × ((k ≡ "") ⊎ (holds_segment d journey_id k ≡ true)))
      saved =
          let e = returns-save_segment input in
          let found = is_some-find_segment in
          let nil = is_nil_iff (validate_segment input) in
          let valid = validate_segment_iff input in
          (
            λ h. (ground arith, valid.0 (nil.0 (ground arith)), ground (arith, eq_iff k "")),
            λ h. let none_wrong = nil.1 (valid.1 h.1) in ground (arith, eq_iff k ""),
          )

      deleted :
          (returns (delete_segment d journey_id k r) ≡ true)
          ↔ ((journey_exists d journey_id ≡ true) × (holds_segment d journey_id k ≡ true))
      deleted =
          let e = returns-delete_segment in (λ h. (ground arith, ground arith), λ h. ground arith)

      moved : (returns (move_segment d journey_id k direction r) ≡ true) ↔ (
          (journey_exists d journey_id ≡ true)
          × (any (λ s. s.id == k) (segments_for_journey d journey_id) ≡ true))
      moved =
          let e = returns-move_segment direction in
          (λ h. (ground arith, ground arith), λ h. ground arith)
