-- ===== src/Journeys/Returning/Items.antt =====
-- When an operation on packing items of journey-service.ts returns, and when it throws.
use trax_os.Common.{
  String, true, not, ◌&&◌, some, ◌==◌, ◌≡◌, ◌↔◌, ◌⊎◌, ap, ◌∙◌, is_some, arith, eq_iff, ok,
}
use trax_os.Common.Number.{Number, integer}
use trax_os.Common.Int.{ℤ, pos, ◌≤ℤ◌}
use trax_os.Journeys.Domain.{JourneyData, PackingInput, validate_packing}
use trax_os.Journeys.Service.{
  Runtime, operation, item_not_found, journey_not_found, journey_exists, assert_journey_exists,
  assert_owned_item, find_item, owns_item, save_packing_item, set_packed_quantity,
  delete_packing_item,
}
use trax_os.Journeys.Validation.{HasText, validate_packing_iff}
use trax_os.Journeys.Returning.{
  returns, is_nil, is_nil_iff, returns-guard, returns-assert_valid, is_some-find?,
}

module _ (d : JourneyData) (journey_id k : String) (r : Runtime) where
  returns-save_packing_item :
      (input : PackingInput)
      → returns (save_packing_item d journey_id input r (some k)) ≡ (
          journey_exists d journey_id
          && (is_nil (validate_packing input)
              && (not (not (k == "") && not (is_some (find_item d journey_id (some k)))) && true)))
  unfolding save_packing_item assert_journey_exists
  returns-save_packing_item input =
      returns-guard (journey_exists d journey_id) (operation journey_not_found) _
      ∙ ap (λ b. journey_exists d journey_id && b)
          (returns-assert_valid (validate_packing input) _
            ∙ ap (λ b. is_nil (validate_packing input) && b)
                (returns-guard _ (operation item_not_found) (ok _)))

  returns-set_packed_quantity :
      (packed : Number)
      → returns (set_packed_quantity d journey_id k packed r)
        ≡ (journey_exists d journey_id && (owns_item d journey_id k && true))
  unfolding set_packed_quantity assert_journey_exists assert_owned_item
  returns-set_packed_quantity packed =
      returns-guard (journey_exists d journey_id) (operation journey_not_found) _
      ∙ ap (λ b. journey_exists d journey_id && b)
          (returns-guard (owns_item d journey_id k) (operation item_not_found) (ok _))

  returns-delete_packing_item :
      returns (delete_packing_item d journey_id k r)
      ≡ (journey_exists d journey_id && (owns_item d journey_id k && true))
  unfolding delete_packing_item assert_journey_exists assert_owned_item
  returns-delete_packing_item =
      returns-guard (journey_exists d journey_id) (operation journey_not_found) _
      ∙ ap (λ b. journey_exists d journey_id && b)
          (returns-guard (owns_item d journey_id k) (operation item_not_found) (ok _))

  is_some-find_item :
      is_some (find_item d journey_id (some k)) ≡ (not (k == "") && owns_item d journey_id k)
  unfolding find_item owns_item
  is_some-find_item =
      ground (arith, is_some-find? (λ i. i.id == k && i.journey_id == journey_id) d.packing_items)

  -- An item is edited exactly when its journey exists, the form has a label and an integer quantity
  -- from 1 to 99, and the id is empty or that of an item of the journey; its packed quantity is set,
  -- and it is deleted, exactly when its journey exists and has it.
  pub packing_operations_iff :
      (input : PackingInput) (packed : Number)
      → ((returns (save_packing_item d journey_id input r (some k)) ≡ true) ↔ (
          (journey_exists d journey_id ≡ true)
          × (HasText input.label
              × ((n : ℤ) × (input.quantity ≡ integer n) × (pos 1 ≤ℤ n) × (n ≤ℤ pos 99)))
          × ((k ≡ "") ⊎ (owns_item d journey_id k ≡ true))))
        × ((returns (set_packed_quantity d journey_id k packed r) ≡ true)
            ↔ ((journey_exists d journey_id ≡ true) × (owns_item d journey_id k ≡ true)))
        × ((returns (delete_packing_item d journey_id k r) ≡ true)
            ↔ ((journey_exists d journey_id ≡ true) × (owns_item d journey_id k ≡ true)))
  packing_operations_iff input packed =
      let e = returns-save_packing_item input in
      let e' = returns-set_packed_quantity packed in
      let e'' = returns-delete_packing_item in
      let found = is_some-find_item in
      let nil = is_nil_iff (validate_packing input) in
      let valid = validate_packing_iff input in
      (
        (
          λ h. (ground arith, valid.0 (nil.0 (ground arith)), ground (arith, eq_iff k "")),
          λ h. let none_wrong = nil.1 (valid.1 h.1) in ground (arith, eq_iff k ""),
        ),
        (λ h. (ground arith, ground arith), λ h. ground arith),
        (λ h. (ground arith, ground arith), λ h. ground arith),
      )
