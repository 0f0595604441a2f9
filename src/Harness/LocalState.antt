-- ===== src/Harness/LocalState.antt =====
-- `ApplicationState` of client.ts: what a device keeps of its commands beside the queue. A table is
-- a list of rows; a method that changes them returns the next tables, or throws and leaves them as
-- they were, as its transaction does. The schema's migration, the session's row and the lists for
-- display are left out. `bytes r` is the length of the JSON text of `r` in UTF-8.
pub mod Capacity
mod Tests
pub mod Invariant
pub mod Methods
pub mod Steps
pub mod Replay
use trax_os.Common.{
  ℕ, suc, ◌+◌, ◌-◌, ◌^◌, String, Bool, true, false, not, ◌&&◌, ◌||◌, Option, none, some, is_some,
  List, [], ◌∷◌, ◌++◌, ◌==◌, eqb, leb, any, map, filter, find?, length, Result, ok, err, guard,
  ◌>>=◌, ◌>>◌, if◌then◌else◌,
}

pub record TerminalResult : Type 0 where
  pub command_id : String
  pub resource_id : String
  pub state : String
  pub code : String
  pub previous_version : ℕ
  pub current_version : ℕ
  pub digest : String
  pub attempt_number : ℕ

pub record ResultRow : Type 0 where
  pub id : String
  pub resource_id : String
  pub state : String
  pub result_code : String
  pub previous_version : ℕ
  pub current_version : ℕ
  pub digest : String
  pub attempt_number : ℕ
  pub serialized_bytes : ℕ
  pub actual_serialized_bytes : ℕ
  pub sdk_completed : Bool

pub record Overlay : Type 0 where
  pub id : String
  pub resource_id : String
  pub resource_incarnation_id : String
  pub command_type : String
  pub payload : Option String
  pub expected_record_version : ℕ
  pub serialized_bytes : ℕ
  pub actual_serialized_bytes : ℕ

pub record Attempts : Type 0 where
  pub id : String
  pub failure_count : ℕ

pub record ApplicationState : Type 0 where
  pub results : List ResultRow
  pub overlays : List Overlay
  pub attempts : List Attempts

pub data StateError : Type 0 where
  command_result_id_conflict terminal_result_reservation_exceeded missing_result : StateError
  invalid_accounting command_capacity_exceeded command_byte_capacity_exceeded : StateError
  command_id_already_active constraint_violated : StateError

-- `spikeCapacityLimits`
abbrev pub max_outstanding : ℕ
max_outstanding = 64

abbrev pub max_outstanding_bytes : ℕ
max_outstanding_bytes = 65536

abbrev pub result_reservation : ℕ
result_reservation = 512

abbrev pub is_safe : ℕ → Bool
is_safe n = leb n (2 ^ 53 - 1)

unfoldable pub reserved_outstanding_bytes : ℕ → Result StateError ℕ
reserved_outstanding_bytes actual = do
  guard (is_safe actual && leb 1 actual) invalid_accounting
  ok (if leb actual result_reservation then result_reservation else actual)

unfoldable pub assert_outstanding_capacity : (count bytes added : ℕ) → Result StateError (Unit {0})
assert_outstanding_capacity count bytes added = do
  guard (is_safe count && is_safe bytes && is_safe added && leb 1 added) invalid_accounting
  guard (leb (suc count) max_outstanding) command_capacity_exceeded
  guard (leb (bytes + added) max_outstanding_bytes) command_byte_capacity_exceeded

-- `sum(serialized_bytes)` of the two tables
abbrev pub result_bytes : List ResultRow → ℕ
result_bytes [] = 0
result_bytes (r ∷ rs) = r.serialized_bytes + result_bytes rs

abbrev pub overlay_bytes : List Overlay → ℕ
overlay_bytes [] = 0
overlay_bytes (o ∷ os) = o.serialized_bytes + overlay_bytes os

-- `capacityUsage`
abbrev pub usage_count : ApplicationState → ℕ
usage_count st = length st.results + length st.overlays

abbrev pub usage_bytes : ApplicationState → ℕ
usage_bytes st = result_bytes st.results + overlay_bytes st.overlays

unfoldable pub has_result : List ResultRow → String → Bool
has_result results k = any (λ r. r.id == k) results

unfoldable pub has_active_command_id : ApplicationState → String → Bool
has_active_command_id st k = has_result st.results k || any (λ o. o.id == k) st.overlays

abbrev pub normalized_code : String → String
normalized_code code = if code == "already_applied" then "applied" else code

abbrev pub compatible : ResultRow → TerminalResult → Bool
compatible row r =
    row.resource_id == r.resource_id
    && row.state == r.state
    && normalized_code row.result_code == normalized_code r.code
    && eqb row.previous_version r.previous_version
    && eqb row.current_version r.current_version
    && row.digest == r.digest

abbrev pub without_overlay : String → List Overlay → List Overlay
without_overlay k os = filter (λ o. not (o.id == k)) os

-- `removeOverlay` and `removeAttempt`
abbrev pub settled : String → ApplicationState → ApplicationState
settled k st = record st {
  overlays = without_overlay k st.overlays;
  attempts = filter (λ a. not (a.id == k)) st.attempts;
}

abbrev pub result_row : TerminalResult → (reserved actual : ℕ) → ResultRow
result_row r reserved actual = record {
  id = r.command_id;
  resource_id = r.resource_id;
  state = r.state;
  result_code = r.code;
  previous_version = r.previous_version;
  current_version = r.current_version;
  digest = r.digest;
  attempt_number = r.attempt_number;
  serialized_bytes = reserved;
  actual_serialized_bytes = actual;
  sdk_completed = false;
}

-- the `INSERT`, with the checks of the table
unfoldable pub insert_result : ResultRow → ApplicationState → Result StateError ApplicationState
insert_result row st = do
  guard (not (has_result st.results row.id)) constraint_violated
  guard (leb 1 row.serialized_bytes && leb 1 row.actual_serialized_bytes) constraint_violated
  ok (record st { results = st.results ++ row ∷ [] })

abbrev pub reservation : Option Overlay → (actual : ℕ) → Result StateError ℕ
reservation none actual = reserved_outstanding_bytes actual
reservation (some prior) actual = ok prior.serialized_bytes

abbrev pub assert_room : Option Overlay → ApplicationState → ℕ → Result StateError (Unit {0})
assert_room none st reserved =
    assert_outstanding_capacity (usage_count st) (usage_bytes st) reserved
assert_room (some prior) st reserved = ok tt

module _ (bytes : TerminalResult → ℕ) where
  -- `prior` is the overlay of the command, if there is one.
  unfoldable pub persist_new :
      Option Overlay → TerminalResult → ApplicationState → Result StateError ApplicationState
  persist_new prior r st = do
    reserved ← reservation prior (bytes r)
    guard (leb (bytes r) reserved) terminal_result_reservation_exceeded
    assert_room prior st reserved
    inserted ← insert_result (result_row r reserved (bytes r)) st
    ok (settled r.command_id inserted)

  unfoldable pub persist_result :
      TerminalResult → ApplicationState → Result StateError ApplicationState
  persist_result r st = elim (find? (λ row. row.id == r.command_id) st.results) [
    | none ↦ persist_new (find? (λ o. o.id == r.command_id) st.overlays) r st
    | some row ↦ guard (compatible row r) command_result_id_conflict >> ok (settled r.command_id st)
  ]

  unfoldable pub persist_results :
      List TerminalResult → ApplicationState → Result StateError ApplicationState
  persist_results [] st = ok st
  persist_results (r ∷ rs) st = persist_result r st >>= persist_results rs

abbrev pub completed : String → ResultRow → ResultRow
completed k row = if row.id == k then record row { sdk_completed = true } else row

unfoldable pub mark_results_sdk_completed :
    List String → ApplicationState → Result StateError ApplicationState
mark_results_sdk_completed [] st = ok st
mark_results_sdk_completed (k ∷ ks) st = do
  guard (has_result st.results k) missing_result
  mark_results_sdk_completed ks (record st { results = map (completed k) st.results })

-- the `INSERT` of an overlay, with the checks of the table
unfoldable pub insert_overlay : Overlay → ApplicationState → Result StateError ApplicationState
insert_overlay o st = do
  guard (not (any (λ p. p.id == o.id) st.overlays)) constraint_violated
  guard (leb 1 o.serialized_bytes && leb 1 o.actual_serialized_bytes) constraint_violated
  ok (record st { overlays = st.overlays ++ o ∷ [] })

-- `ids` are those of the commands before.
unfoldable pub add_overlays :
    (ids : List String) → List Overlay → ApplicationState → Result StateError ApplicationState
add_overlays ids [] st = ok st
add_overlays ids (o ∷ os) st = do
  guard (not (any (λ k. k == o.id) ids || has_result st.results o.id)) command_id_already_active
  inserted ← insert_overlay o st
  add_overlays (o.id ∷ ids) os inserted

unfoldable pub remove_overlays : List String → ApplicationState → ApplicationState
remove_overlays [] st = st
remove_overlays (k ∷ ks) st =
    remove_overlays ks (record st { overlays = without_overlay k st.overlays })

unfoldable pub clear_overlays : ApplicationState → ApplicationState
clear_overlays st = record st { overlays = []; attempts = [] }

-- with the answer whether a row was deleted
unfoldable pub acknowledge_result : String → ApplicationState → ApplicationState × Bool
acknowledge_result k st = (
  record st { results = filter (λ r. not (r.id == k && r.sdk_completed)) st.results },
  any (λ r. r.id == k && r.sdk_completed) st.results,
)

abbrev pub max_failures : ℕ
max_failures = 5

-- the upsert of `recordTransientFailure`, with the check of the table, and the count after it
unfoldable pub record_failure : String → List Attempts → Result StateError (List Attempts × ℕ)
record_failure k [] = ok (record { id = k; failure_count = 1 } ∷ [], 1)
record_failure k (a ∷ rows) =
    let later = record_failure k rows in
    if a.id == k
    then guard (leb (suc a.failure_count) max_failures) constraint_violated
      >> ok (record a { failure_count = suc a.failure_count } ∷ rows, suc a.failure_count)
    else later >>= λ x. ok (a ∷ x.0, x.1)

unfoldable pub record_transient_failure :
    String → ApplicationState → Result StateError (ApplicationState × ℕ)
record_transient_failure k st = do
  counted ← record_failure k st.attempts
  ok (record st { attempts = counted.0 }, counted.1)

unfoldable pub clear_transient_failure : String → ApplicationState → ApplicationState
clear_transient_failure k st = record st { attempts = filter (λ a. not (a.id == k)) st.attempts }
