-- ===== src/Harness/Server.antt =====
-- `executeCommands` of command-server.ts and what it calls, on the tables of the database. A call
-- is one transaction: it returns the database after it, which on ROLLBACK is the one before it, or
-- it throws, with the database as before. The barrier of the tests is left out. Rows are found by
-- the `WHERE` of the queries; `ps8_replica_reset_required`, `ps8_now` and the hashes are parameters.
use trax_os.Common.{
  ℕ, suc, String, Bool, true, false, not, ◌&&◌, ◌||◌, Option, none, some, List, [], ◌∷◌, ◌++◌, ◌==◌,
  eqb, map, any, filter, find?, length, Result, ok, err, if◌then◌else◌, is_some,
}
use trax_os.Common.Json.{Value}
use trax_os.Harness.Database.{
  Receipt, Replica, Grant, Database, ErrorName, idempotency_conflict, error, results, Response,
  Thrown, duplicate_key, type_error,
}
use trax_os.Harness.Protocol.{
  Command, Binding, CommandResult, ResultState, ResultCode, applied, already_applied, denied,
  command_denied, command_digest,
}

abbrev pub refused : Database → ℕ → ErrorName → Result Thrown (Database × Response)
refused db status name = ok (db, record { status = status; body = error name })

abbrev pub answered : Database → ℕ → List CommandResult → Result Thrown (Database × Response)
answered db status rs = ok (db, record { status = status; body = results rs })

-- `replay && code === "applied" ? "already_applied" : code`
abbrev pub replayed : Bool → ResultCode → ResultCode
replayed true applied = already_applied
replayed replay code = code

unfoldable pub result_from_receipt : Receipt → ℕ → Bool → CommandResult
result_from_receipt r attempt replay = record {
  command_id = r.command_id;
  resource_id = r.resource_id;
  digest = r.digest;
  state = r.result_state;
  code = replayed replay r.result_code;
  previous_version = r.previous_version;
  current_version = r.current_version;
  attempt_number = attempt;
}

unfoldable pub denied_result : Receipt → ℕ → CommandResult
denied_result r attempt = record {
  command_id = r.command_id;
  resource_id = r.resource_id;
  digest = r.digest;
  state = denied;
  code = command_denied;
  previous_version = r.previous_version;
  current_version = r.current_version;
  attempt_number = attempt;
}

-- `credentialMatches`, of the bytes that two hexadecimal texts stand for
abbrev pub same_units : List ℕ → List ℕ → Bool
same_units [] [] = true
same_units (x ∷ xs) (y ∷ ys) = eqb x y && same_units xs ys
same_units _ _ = false

-- What the platform and the database provide: `hash v` digests the JSON text of `v`, `sha256` a
-- text, `bytes` is `Buffer.from(s, "hex")`, `reset_required` is `ps8_replica_reset_required` on the
-- replica's row, and `now` is `ps8_now()`.
pub record Platform : Type 0 where
  pub hash : Value → String
  pub sha256 : String → String
  pub bytes : String → List ℕ
  pub reset_required : Option String → Option ℕ → Bool
  pub now : String

-- The user whose token was verified, and what the request binds its commands to.
pub record Caller : Type 0 where
  pub user_id : String
  pub binding : Binding
  pub credential : String

abbrev pub resource_ids : List Command → List String
resource_ids = map (λ c. c.resource_id)

-- `array.includes(s)`
abbrev pub includes : List String → String → Bool
includes ids k = any (λ i. i == k) ids

abbrev pub is_active : Grant → Bool
is_active g = g.user_active && g.workspace_active && g.journey_active && g.party_active

-- `new Set(ids).size`
abbrev pub set_size : List String → ℕ
set_size [] = 0
set_size (k ∷ ids) = let rest = set_size ids in if includes ids k then rest else suc rest

-- `lockActiveGrants`, and the same query in `executeCommands`
unfoldable pub has_active_grants : Database → Caller → List String → Bool
has_active_grants db caller ids =
    eqb
      (set_size (
        map (λ g. g.resource_id)
          (filter (λ g. g.user_id == caller.user_id && includes ids g.resource_id && is_active g)
            db.grants)))
      (length ids)

abbrev pub is_receipt_of : Caller → String → Receipt → Bool
is_receipt_of caller command_id r = r.user_id == caller.user_id && r.command_id == command_id

unfoldable pub find_receipt : Database → Caller → String → Option Receipt
find_receipt db caller command_id = find? (is_receipt_of caller command_id) db.receipts

-- Has `q` the primary key of `r`?
abbrev pub has_key : Receipt → Receipt → Bool
has_key r q = q.user_id == r.user_id && q.command_id == r.command_id

-- an `INSERT` that throws where the primary key is taken
unfoldable pub insert_receipt : Receipt → Database → Result Thrown Database
insert_receipt r db =
    if any (has_key r) db.receipts
    then err duplicate_key
    else ok (record db { receipts = db.receipts ++ r ∷ [] })

module _ (platform : Platform) where
  unfoldable pub credential_matches : String → String → Bool
  credential_matches stored candidate =
      same_units (platform.bytes stored) (platform.bytes candidate)

  abbrev pub accepts : Caller → Replica → Bool
  accepts caller row = not (
      not (row.user_id == caller.user_id)
      || is_some row.disabled_at
      || not (eqb row.replica_epoch caller.binding.replica_epoch)
      || not (credential_matches row.credential_digest (platform.sha256 caller.credential)))

  -- the row with its `stale` column, if the replica is the caller's
  unfoldable pub lock_replica : Database → Caller → Option Replica
  lock_replica db caller =
      elim (find? (λ r. r.replica_id == caller.binding.replica_id) db.replicas) [
        | none ↦ none
        | some row ↦ if accepts caller row then some row else none
      ]

  abbrev pub replica_is_stale : Replica → Bool
  replica_is_stale row =
      platform.reset_required row.last_client_observed_ack_at row.acknowledged_sequence

  unfoldable pub mismatch : Caller → Command → Receipt → Bool
  mismatch caller command r =
      not (r.replica_id == caller.binding.replica_id)
      || not (eqb r.replica_epoch caller.binding.replica_epoch)
      || not (r.resource_id == command.resource_id)
      || not (r.digest == command_digest platform.hash command caller.binding)

  abbrev pub new_receipt :
      Caller → Command → ResultState → ResultCode → (previous current : ℕ) → Receipt
  new_receipt caller command state code previous current = record {
    user_id = caller.user_id;
    command_id = command.command_id;
    replica_id = caller.binding.replica_id;
    replica_epoch = caller.binding.replica_epoch;
    resource_id = command.resource_id;
    digest = command_digest platform.hash command caller.binding;
    result_state = state;
    result_code = code;
    previous_version = previous;
    current_version = current;
  }

  -- `INSERT … ON CONFLICT (user_id, command_id) DO NOTHING` of a denial
  unfoldable pub record_denial : Database → Caller → Command → Database
  record_denial db caller command =
      let r =
        new_receipt caller command denied command_denied command.expected_record_version
          command.expected_record_version in
      if any (has_key r) db.receipts then db else record db { receipts = db.receipts ++ r ∷ [] }

  abbrev pub denial :
      Database
      → Database
      → ℕ
      → Caller
      → Command
      → Option Receipt
      → Result Thrown (Database × Response)
  denial before db attempt caller command none = refused before 409 idempotency_conflict
  denial before db attempt caller command (some r) =
      if mismatch caller command r
      then refused before 409 idempotency_conflict
      else answered db 403 (denied_result r attempt ∷ [])

  -- the branch of `executeCommands` without an active grant
  unfoldable pub execute_denied :
      Database → Caller → List Command → ℕ → Result Thrown (Database × Response)
  execute_denied db caller [] attempt = err type_error
  execute_denied db caller (command ∷ commands) attempt =
      elim (find_receipt db caller command.command_id) [
        | none ↦
            let after = record_denial db caller command in
            denial db after attempt caller command (find_receipt after caller command.command_id)
        | some r ↦ denial db db attempt caller command (some r)
      ]
