-- ===== src/Harness/Database.antt =====
-- The tables that command-server.ts reads and writes, and what its requests are answered with.
use trax_os.Common.{ℕ, String, Bool, Option, List}
use trax_os.Harness.Protocol.{CommandType, CommandResult, ResultState, ResultCode}

pub record Resource : Type 0 where
  pub id : String
  pub incarnation_id : String
  pub version : ℕ
  pub deleted_at : Option String
  pub payload : Option String

-- the table `ps8_command_receipts`, with the primary key of `user_id` and `command_id`
pub record Receipt : Type 0 where
  pub user_id : String
  pub command_id : String
  pub replica_id : String
  pub replica_epoch : ℕ
  pub resource_id : String
  pub digest : String
  pub result_state : ResultState
  pub result_code : ResultCode
  pub previous_version : ℕ
  pub current_version : ℕ

-- the table `ps8_command_change_events`, less its random `event_id`
pub record Event : Type 0 where
  pub user_id : String
  pub command_id : String
  pub resource_id : String
  pub event_ordinal : ℕ
  pub event_type : CommandType
  pub resulting_version : ℕ

pub record Replica : Type 0 where
  pub replica_id : String
  pub user_id : String
  pub credential_digest : String
  pub replica_epoch : ℕ
  pub last_client_observed_ack_at : Option String
  pub acknowledged_sequence : Option ℕ
  pub disabled_at : Option String
  pub previous_credential_digest : Option String
  pub staged_reset_request_id : Option String
  pub last_acknowledged_reset_request_id : Option String

pub record Grant : Type 0 where
  pub resource_id : String
  pub user_id : String
  pub user_active : Bool
  pub workspace_active : Bool
  pub journey_active : Bool
  pub party_active : Bool

pub record Database : Type 0 where
  pub resources : List Resource
  pub receipts : List Receipt
  pub events : List Event
  pub replicas : List Replica
  pub grants : List Grant

pub data ErrorName : Type 0 where
  invalid_replica replica_reset_required command_denied_error idempotency_conflict : ErrorName
  partial_idempotency_match : ErrorName

pub data Body : Type 0 where
  error : ErrorName → Body
  results : List CommandResult → Body

pub record Response : Type 0 where
  pub status : ℕ
  pub body : Body

-- What a transaction throws: a constraint that is violated, or a read of `undefined`.
pub data Thrown : Type 0 where
  duplicate_key type_error : Thrown
