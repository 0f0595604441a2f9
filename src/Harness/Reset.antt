-- ===== src/Harness/Reset.antt =====
-- The reset of a replica in `lifecycleRequest` of command-server.ts: the transactions of
-- /spike/replicas/reset and /spike/replicas/reset/ack, on the replicas' rows. `rotate` is
-- `rotatedCredential`, a keyed hash. The column `reset_at` and the rate windows are left out.
pub mod Retry
mod Tests
use trax_os.Common.{
  ℕ, suc, String, Bool, true, false, not, ◌&&◌, ◌||◌, Option, none, some, is_some, List, [], ◌∷◌,
  ◌==◌, eqb, map, find?, if◌then◌else◌,
}
use trax_os.Harness.Database.{Replica}
use trax_os.Harness.Server.{Platform, Caller, credential_matches, replica_is_stale, accepts}

-- `ReplicaSessionResponse`
pub record Session : Type 0 where
  pub replica_id : String
  pub replica_epoch : ℕ
  pub credential : String

pub data ResetOutcome : Type 0 where
  invalid current : ResetOutcome
  reset : Session → ResetOutcome

pub data AckOutcome : Type 0 where
  ack_invalid acknowledged : AckOutcome

abbrev pub is_same : Option String → String → Bool
is_same none k = false
is_same (some s) k = s == k

-- a digest that is there and not empty
abbrev pub is_truthy : Option String → Bool
is_truthy none = false
is_truthy (some s) = not (s == "")

-- the row of the caller's replica
abbrev pub row_of : List Replica → Caller → Option Replica
row_of rows caller = find? (λ r. r.replica_id == caller.binding.replica_id) rows

abbrev pub write_row : (Replica → Replica) → Caller → List Replica → List Replica
write_row f caller = map (λ r. if r.replica_id == caller.binding.replica_id then f r else r)

module _ (platform : Platform) (rotate : String → String → ℕ → String) where
  -- the session of the next epoch
  abbrev pub session_of : Caller → String → Session
  session_of caller request =
      let target = suc caller.binding.replica_epoch in
      record {
        replica_id = caller.binding.replica_id;
        replica_epoch = target;
        credential = rotate caller.binding.replica_id request target;
      }

  abbrev pub is_owned : Caller → Replica → Bool
  is_owned caller row = row.user_id == caller.user_id && not (is_some row.disabled_at)

  abbrev pub matches_previous : Option String → String → Bool
  matches_previous none digest = false
  matches_previous (some previous) digest = credential_matches platform previous digest

  -- Has the request been carried out?
  abbrev pub is_repeated : Caller → String → Replica → Bool
  is_repeated caller request row =
      eqb row.replica_epoch (suc caller.binding.replica_epoch)
      && is_same row.staged_reset_request_id request
      && is_truthy row.previous_credential_digest
      && matches_previous row.previous_credential_digest (platform.sha256 caller.credential)
      && credential_matches platform row.credential_digest
          (platform.sha256 (session_of caller request).credential)

  abbrev pub is_addressed : Caller → Replica → Bool
  is_addressed caller row =
      eqb row.replica_epoch caller.binding.replica_epoch
      && credential_matches platform row.credential_digest (platform.sha256 caller.credential)

  abbrev pub rotated : Caller → String → Replica → Replica
  rotated caller request row = record row {
    replica_epoch = suc caller.binding.replica_epoch;
    previous_credential_digest = some row.credential_digest;
    credential_digest = platform.sha256 (session_of caller request).credential;
    staged_reset_request_id = some request;
    last_client_observed_ack_at = none;
    acknowledged_sequence = none;
  }

  unfoldable pub reset_row : List Replica → Caller → String → Replica → List Replica × ResetOutcome
  reset_row rows caller request row =
      if not (is_owned caller row)
      then (rows, invalid)
      else if is_repeated caller request row
      then (rows, reset (session_of caller request))
      else if not (is_addressed caller row)
      then (rows, invalid)
      else if not (replica_is_stale platform row)
      then (rows, current)
      else (write_row (rotated caller request) caller rows, reset (session_of caller request))

  unfoldable pub reset_replica : List Replica → Caller → String → List Replica × ResetOutcome
  reset_replica rows caller request = elim (row_of rows caller) [
    | none ↦ (rows, invalid)
    | some row ↦ reset_row rows caller request row
  ]

  abbrev pub settled_row : String → Replica → Replica
  settled_row request row = record row {
    previous_credential_digest = none;
    staged_reset_request_id = none;
    last_acknowledged_reset_request_id = some request;
  }

  unfoldable pub acknowledge_row :
      List Replica → Caller → String → Replica → List Replica × AckOutcome
  acknowledge_row rows caller request row =
      if is_same row.last_acknowledged_reset_request_id request
        && not (is_some row.previous_credential_digest)
      then (rows, acknowledged)
      else if not (is_same row.staged_reset_request_id request)
          || not (is_some row.previous_credential_digest)
      then (rows, ack_invalid)
      else (write_row (settled_row request) caller rows, acknowledged)

  -- `lockReplica` first
  unfoldable pub acknowledge_reset : List Replica → Caller → String → List Replica × AckOutcome
  acknowledge_reset rows caller request = elim (row_of rows caller) [
    | none ↦ (rows, ack_invalid)
    | some row ↦
        if accepts platform caller row
        then acknowledge_row rows caller request row
        else (rows, ack_invalid)
  ]
