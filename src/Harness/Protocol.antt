-- ===== src/Harness/Protocol.antt =====
-- The commands and results of command-protocol.ts. Versions, epochs and attempts are positive safe
-- integers where the parser has accepted them, and natural numbers here.
use trax_os.Common.{ℕ, String, Option, none, some}
use trax_os.Common.Int.{pos}
use trax_os.Common.Number.{integer}
use trax_os.Common.Json.{Value, null, number, text, object, no_fields, entry}

pub data CommandType : Type 0 where
  update soft_delete : CommandType

pub record Command : Type 0 where
  pub command_id : String
  pub kind : CommandType
  pub resource_id : String
  pub resource_incarnation_id : String
  pub expected_record_version : ℕ
  pub payload : Option String

pub record Binding : Type 0 where
  pub replica_id : String
  pub replica_epoch : ℕ

pub data ResultState : Type 0 where
  applied conflict denied : ResultState

pub data ResultCode : Type 0 where
  applied already_applied optimistic_conflict stale_incarnation command_denied : ResultCode

pub record CommandResult : Type 0 where
  pub command_id : String
  pub resource_id : String
  pub digest : String
  pub state : ResultState
  pub code : ResultCode
  pub previous_version : ℕ
  pub current_version : ℕ
  pub attempt_number : ℕ

abbrev pub type_text : CommandType → String
type_text update = "ps8.resource.update.v1"
type_text soft_delete = "ps8.resource.soft_delete.v1"

abbrev pub nullable_text : Option String → Value
nullable_text none = null
nullable_text (some s) = text s

-- The object whose JSON text is hashed.
abbrev pub normalized : Command → Binding → Value
normalized c b = object (
    entry "replicaId" (text b.replica_id) (
      entry "replicaEpoch" (number (integer (pos b.replica_epoch))) (
        entry "commandId" (text c.command_id) (
          entry "type" (text (type_text c.kind)) (
            entry "resourceId" (text c.resource_id) (
              entry "resourceIncarnationId" (text c.resource_incarnation_id) (
                entry "expectedRecordVersion" (number (integer (pos c.expected_record_version)))
                  (entry "payload" (nullable_text c.payload) no_fields))))))))

-- `hash v` is the SHA-256 digest of the JSON text of `v`, in hexadecimal.
unfoldable pub command_digest : (hash : Value → String) → Command → Binding → String
command_digest hash c b = hash (normalized c b)
