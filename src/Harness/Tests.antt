-- ===== src/Harness/Tests.antt =====
-- A database with one resource, and requests for one command on it.
mod Runs
mod Witnesses
use trax_os.Common.{
  ℕ, String, Bool, true, false, Option, none, some, List, [], ◌∷◌, ◌≡◌, refl, ok, ◌++◌, inl, inr,
}
use trax_os.Common.Text.{code_units}
use trax_os.Common.Json.{Value, field, text_of}
use trax_os.Harness.Protocol.{
  Command, CommandType, update, soft_delete, CommandResult, ResultState, ResultCode,
}
use trax_os.Harness.Database.{
  Resource, Receipt, Event, Replica, Grant, Database, Response, error, results,
}
use trax_os.Harness.Server.{Platform, Caller}
use trax_os.Harness.Envelope.{Envelope}

abbrev pub replica_id : String
replica_id = "3b0d5bd0-5a0c-4c0e-9d5e-000000000001"

abbrev pub resource_id : String
resource_id = "3b0d5bd0-5a0c-4c0e-9d5e-000000000002"

abbrev pub incarnation_id : String
incarnation_id = "3b0d5bd0-5a0c-4c0e-9d5e-000000000003"

abbrev pub command_id : String
command_id = "3b0d5bd0-5a0c-4c0e-9d5e-000000000004"

abbrev pub platform : Platform
platform = record {
  hash = λ v. text_of (field v "commandId");
  sha256 = λ s. s;
  bytes = code_units;
  reset_required = λ ack sequence. false;
  now = "2026-05-01T10:00:00Z";
}

abbrev pub caller : Caller
caller = record {
  user_id = "anna";
  binding = record { replica_id = replica_id; replica_epoch = 2 };
  credential = "secret";
}

abbrev pub rename : Command
rename = record {
  command_id = command_id;
  kind = update;
  resource_id = resource_id;
  resource_incarnation_id = incarnation_id;
  expected_record_version = 3;
  payload = some "boat";
}

abbrev pub replica : Replica
replica = record {
  replica_id = replica_id;
  user_id = "anna";
  credential_digest = "secret";
  replica_epoch = 2;
  last_client_observed_ack_at = none;
  acknowledged_sequence = none;
  disabled_at = none;
  previous_credential_digest = none;
  staged_reset_request_id = none;
  last_acknowledged_reset_request_id = none;
}

abbrev pub grant : Grant
grant = record {
  resource_id = resource_id;
  user_id = "anna";
  user_active = true;
  workspace_active = true;
  journey_active = true;
  party_active = true;
}

abbrev pub resource : ℕ → String → Resource
resource version payload = record {
  id = resource_id;
  incarnation_id = incarnation_id;
  version = version;
  deleted_at = none;
  payload = some payload;
}

-- The database with the resource at a version, and the receipts and events of the commands before.
abbrev pub database : Resource → List Receipt → List Event → Database
database r receipts events = record {
  resources = r ∷ [];
  receipts = receipts;
  events = events;
  replicas = replica ∷ [];
  grants = grant ∷ [];
}

abbrev pub receipt : Receipt
receipt = record {
  user_id = "anna";
  command_id = command_id;
  replica_id = replica_id;
  replica_epoch = 2;
  resource_id = resource_id;
  digest = command_id;
  result_state = ResultState.applied;
  result_code = ResultCode.applied;
  previous_version = 3;
  current_version = 4;
}

abbrev pub event : Event
event = record {
  user_id = "anna";
  command_id = command_id;
  resource_id = resource_id;
  event_ordinal = 0;
  event_type = update;
  resulting_version = 4;
}

abbrev pub before : Database
before = database (resource 3 "bus") [] []

abbrev pub after : Database
after = database (resource 4 "boat") (receipt ∷ []) (event ∷ [])

-- Another writer has changed the resource since.
abbrev pub changed_since : Database
changed_since = database (resource 5 "train") (receipt ∷ []) (event ∷ [])

abbrev pub result : ResultCode → ℕ → CommandResult
result code attempt = record {
  command_id = command_id;
  resource_id = resource_id;
  digest = command_id;
  state = ResultState.applied;
  code = code;
  previous_version = 3;
  current_version = 4;
  attempt_number = attempt;
}

abbrev pub answer : Response
answer = record { status = 200; body = results (result ResultCode.applied 1 ∷ []) }

abbrev pub envelope : Envelope
envelope = record {
  replica_id = replica_id;
  replica_epoch = 2;
  local_transaction_id = "17";
  commands = rename ∷ [];
}
