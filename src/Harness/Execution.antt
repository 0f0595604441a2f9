-- ===== src/Harness/Execution.antt =====
-- The branch of `executeCommands` of command-server.ts with active grants, and the whole function.
pub mod Appending
pub mod Extension
pub mod Admission
pub mod Storing
pub mod Retry
pub mod Changing
pub mod Applying
use trax_os.Common.{
  ℕ, suc, Bool, true, false, ◌||◌, none, some, List, [], ◌∷◌, eqb, length, Result, ok, ◌>>=◌,
  if◌then◌else◌,
}
use trax_os.Harness.Database.{
  Resource, Receipt, Database, invalid_replica, replica_reset_required, command_denied_error,
  idempotency_conflict, partial_idempotency_match, Response, Thrown,
}
use trax_os.Harness.Protocol.{Command, CommandResult, ResultState, ResultCode, applied, conflict}
use trax_os.Harness.Server.{
  Platform, Caller, refused, answered, result_from_receipt, lock_replica, replica_is_stale,
  resource_ids, has_active_grants, mismatch, insert_receipt, new_receipt, execute_denied,
}
use trax_os.Harness.Rows.{
  locked_resources, receipt_rows, receipt_of, resource_of, some_resource, other_incarnation,
  conflicts, new_event, insert_event, conflict_code, update_resource,
}

unfoldable pub replayed_results :
    List Receipt → ℕ → List Command → Result Thrown (List CommandResult)
replayed_results rows attempt [] = ok []
replayed_results rows attempt (c ∷ cs) = do
  r ← receipt_of rows c
  rs ← replayed_results rows attempt cs
  ok (result_from_receipt r attempt true ∷ rs)

abbrev pub committed : Database × List CommandResult → Result Thrown (Database × Response)
committed (db, rs) = answered db 200 rs

unfoldable pub answer_replay :
    Database → List Command → ℕ → List Receipt → (same : Bool) → Result Thrown (Database × Response)
answer_replay db commands attempt rows false = refused db 409 idempotency_conflict
answer_replay db commands attempt rows true = do
  rs ← replayed_results rows attempt commands
  answered db 200 rs

module _ (platform : Platform) where
  -- Is every receipt that of its command?
  unfoldable pub check_receipts : Caller → List Receipt → List Command → Result Thrown Bool
  check_receipts caller rows [] = ok true
  check_receipts caller rows (c ∷ cs) = do
    r ← receipt_of rows c
    let later = check_receipts caller rows cs
    if mismatch platform caller c r then ok false else later

  abbrev pub stored_result :
      Caller → Command → ResultState → ResultCode → (previous current attempt : ℕ) → CommandResult
  stored_result caller c state code previous current attempt =
      result_from_receipt (new_receipt platform caller c state code previous current) attempt false

  -- the loop that stores a conflict for every command
  unfoldable pub store_conflicts :
      Caller
      → ℕ
      → ResultCode
      → List Resource
      → List Command
      → Database
      → Result Thrown (Database × List CommandResult)
  store_conflicts caller attempt code rows [] db = ok (db, [])
  store_conflicts caller attempt code rows (c ∷ cs) db = do
    row ← resource_of rows c
    db' ←
        insert_receipt
          (new_receipt platform caller c conflict code c.expected_record_version row.version) db
    rest ← store_conflicts caller attempt code rows cs db'
    ok (
      rest.0,
      stored_result caller c conflict code c.expected_record_version row.version attempt ∷ rest.1,
    )

  -- the loop that applies every command
  unfoldable pub apply_commands :
      Caller
      → ℕ
      → (ordinal : ℕ) → List Command
      → Database
      → Result Thrown (Database × List CommandResult)
  apply_commands caller attempt ordinal [] db = ok (db, [])
  apply_commands caller attempt ordinal (c ∷ cs) db = do
    db' ← insert_event (new_event caller ordinal c) (update_resource platform c db)
    db'' ←
        insert_receipt
          (new_receipt platform caller c applied applied c.expected_record_version
            (suc c.expected_record_version))
          db'
    rest ← apply_commands caller attempt (suc ordinal) cs db''
    ok (
      rest.0,
      stored_result caller c applied applied c.expected_record_version
            (suc c.expected_record_version) attempt
          ∷ rest.1,
    )

  -- Commands that have receipts are not run again.
  unfoldable pub execute_replay :
      Database → Caller → List Command → ℕ → List Receipt → Result Thrown (Database × Response)
  execute_replay db caller commands attempt rows =
      if eqb (length rows) (length commands)
      then check_receipts caller rows commands >>= answer_replay db commands attempt rows
      else refused db 409 partial_idempotency_match

  -- `stale` and `conflicting` are the two tests of the commands' resources.
  unfoldable pub execute_tested :
      Database
      → Caller
      → List Command
      → ℕ
      → List Resource
      → (stale conflicting : Bool) → Result Thrown (Database × List CommandResult)
  execute_tested db caller commands attempt rows stale conflicting =
      if stale || conflicting
      then store_conflicts caller attempt (conflict_code stale) rows commands db
      else apply_commands caller attempt 0 commands db

  unfoldable pub execute_new :
      Database → Caller → List Command → ℕ → List Resource → Result Thrown (Database × Response)
  execute_new db caller commands attempt rows = do
    stale ← some_resource other_incarnation rows commands
    conflicting ← if stale then ok false else some_resource conflicts rows commands
    stored ← execute_tested db caller commands attempt rows stale conflicting
    committed stored

  unfoldable pub execute_authorized :
      Database → Caller → List Command → ℕ → Result Thrown (Database × Response)
  execute_authorized db caller commands attempt =
      if eqb (length (locked_resources db commands)) (length commands)
      then elim (receipt_rows db caller commands) [
        | [] ↦ execute_new db caller commands attempt (locked_resources db commands)
        | r ∷ rows ↦ execute_replay db caller commands attempt (r ∷ rows)
      ]
      else refused db 403 command_denied_error

  unfoldable pub execute_commands :
      Database → Caller → List Command → ℕ → Result Thrown (Database × Response)
  execute_commands db caller commands attempt = elim (lock_replica platform db caller) [
    | none ↦ refused db 403 invalid_replica
    | some row ↦
        if replica_is_stale platform row
        then refused db 428 replica_reset_required
        else if has_active_grants db caller (resource_ids commands)
        then execute_authorized db caller commands attempt
        else execute_denied platform db caller commands attempt
  ]
