-- ===== src/Journeys/Service/Base.antt =====
-- What the operations of journey-service.ts share: the runtime, the errors and the assertions.
use trax_os.Common.{
  ℕ, suc, String, Bool, false, Option, none, some, List, [], ◌∷◌, not, ◌==◌, any, Result, ok, err,
  guard, WhenOk, WhenOk-guard, ◌>>◌, ◌≡◌, refl, true, if◌then◌else◌,
}
use trax_os.Journeys.Domain.{Journey, JourneyData, ValidationErrorCode}

-- An operation calls `runtime.id()` at most once; `now n` is what its call number n of
-- `runtime.now()` returns, from 0.
pub record Runtime : Type 0 where
  pub id : String
  pub now : ℕ → String

pub data OperationErrorCode : Type 0 where
  journey_not_found item_not_found : OperationErrorCode

pub data ServiceError : Type 0 where
  validation : List ValidationErrorCode → ServiceError
  operation : OperationErrorCode → ServiceError

unfoldable pub assert_valid : List ValidationErrorCode → Result ServiceError (Unit {0})
assert_valid [] = ok tt
assert_valid (code ∷ codes) = err (validation (code ∷ codes))

abbrev pub journey_exists : JourneyData → String → Bool
journey_exists d journey_id = any (λ j. j.id == journey_id) d.journeys

unfoldable pub assert_journey_exists : JourneyData → String → Result ServiceError (Unit {0})
assert_journey_exists d journey_id =
    guard (journey_exists d journey_id) (operation journey_not_found)

unfoldable pub assert_owned_item : Bool → Result ServiceError (Unit {0})
assert_owned_item owned = guard owned (operation item_not_found)

-- An optional argument counts as given if it is neither missing nor empty.
abbrev pub is_given : Option String → Bool
is_given none = false
is_given (some s) = not (s == "")

-- The number of clock readings after journey `j`, of `n` before it.
abbrev pub calls_after : String → ℕ → Journey → ℕ
calls_after journey_id n j = if j.id == journey_id then suc n else n

-- `journeys.map(j => j.id === journeyId ? change(j) : j)`, where each change reads the clock once
unfoldable pub change_journey :
    (String → Journey → Journey) → Runtime → String → ℕ → List Journey → List Journey
change_journey change runtime journey_id n [] = []
change_journey change runtime journey_id n (j ∷ js) =
    (if j.id == journey_id then change (runtime.now n) j else j)
    ∷ change_journey change runtime journey_id (calls_after journey_id n j) js

abbrev pub touched : String → Journey → Journey
touched timestamp j = record j { updated_at = timestamp }

-- `n` is the number of calls of `runtime.now()` that came before.
unfoldable pub touch_journey : JourneyData → String → Runtime → ℕ → JourneyData
touch_journey d journey_id runtime n = record d {
  journeys = change_journey touched runtime journey_id n d.journeys;
}

module _ {B : Type 0} (P : B → Type 0) where
  pub WhenOk-assert_valid :
      (codes : List ValidationErrorCode) (k : Result ServiceError B)
      → (codes ≡ [] → WhenOk P k)
      → WhenOk P (assert_valid codes >> k)
  unfolding assert_valid
  WhenOk-assert_valid [] k h = h refl
  WhenOk-assert_valid (code ∷ codes) k h = tt

  pub WhenOk-assert_journey_exists :
      (d : JourneyData) (journey_id : String) (k : Result ServiceError B)
      → (journey_exists d journey_id ≡ true → WhenOk P k)
      → WhenOk P (assert_journey_exists d journey_id >> k)
  unfolding assert_journey_exists
  WhenOk-assert_journey_exists d journey_id k h =
      WhenOk-guard P (journey_exists d journey_id) (operation journey_not_found) k h

  pub WhenOk-assert_owned_item :
      (owned : Bool) (k : Result ServiceError B)
      → (owned ≡ true → WhenOk P k)
      → WhenOk P (assert_owned_item owned >> k)
  unfolding assert_owned_item
  WhenOk-assert_owned_item owned k h = WhenOk-guard P owned (operation item_not_found) k h
