-- ===== src/Harness/Queue.antt =====
-- The queue of commands on a device, of client.ts: `validateQueuedCrud`, and the entry that the
-- insertion of a command into `command_queue` leaves. The texts of the errors are left out.
pub mod Sending
use trax_os.Common.{
  ℕ, String, Bool, true, false, not, ◌&&◌, ◌||◌, Option, none, some, List, [], ◌∷◌, ◌==◌, any, eqb,
  length, Result, ok, err, guard, ◌>>=◌, ◌>>◌, if◌then◌else◌,
}
use trax_os.Common.Int.{pos}
use trax_os.Common.Number.{integer}
use trax_os.Common.Json.{
  Value, Fields, undefined, null, number, text, no_fields, entry, lookup, is_text, text_of,
}
use trax_os.Harness.Protocol.{
  Command, CommandType, Binding, update, soft_delete, type_text, nullable_text,
}
use trax_os.Harness.Envelope.{some_other_key, is_number_one, is_positive_safe}
use trax_os.Harness.Upload.{natural, envelope_value}

-- an entry of a local transaction, as the database's library gives it
pub record CrudEntry : Type 0 where
  pub table : String
  pub op : String
  pub id : Value
  pub op_data : Option Fields

pub data QueueError : Type 0 where
  not_one_command unsupported_crud malformed_columns malformed_values : QueueError
  not_a_positive_version unsupported_type duplicate_resource missing_payload : QueueError
  unexpected_payload : QueueError

abbrev pub required_queue_columns : List String
required_queue_columns =
    "command_type" ∷ "command_version" ∷ "expected_record_version" ∷ "resource_id"
    ∷ "resource_incarnation_id" ∷ "upload_correlation_id" ∷ []

abbrev pub allowed_queue_columns : List String
allowed_queue_columns =
    "command_type" ∷ "command_version" ∷ "expected_record_version" ∷ "resource_id"
    ∷ "resource_incarnation_id" ∷ "upload_correlation_id" ∷ "payload" ∷ []

abbrev pub has_column : Fields → String → Bool
has_column no_fields k = false
has_column (entry j v fields) k = j == k || has_column fields k

unfoldable pub columns_of : Option Fields → Result QueueError Fields
columns_of none = err malformed_columns
columns_of (some fields) =
    if some_other_key (λ k. true) allowed_queue_columns fields
      || any (λ k. not (has_column fields k)) required_queue_columns
    then err malformed_columns
    else ok fields

-- `assertPositiveExpectedRecordVersion`
unfoldable pub positive_expected_version : Value → Result QueueError ℕ
positive_expected_version (number (integer (pos n))) =
    if is_positive_safe n then ok n else err not_a_positive_version
positive_expected_version _ = err not_a_positive_version

unfoldable pub queued_type : String → Result QueueError CommandType
queued_type s =
    let other = if s == type_text soft_delete then ok soft_delete else err unsupported_type in
    if s == type_text update then ok update else other

unfoldable pub queued_payload : CommandType → Value → Result QueueError (Option String)
queued_payload update (text s) = ok (some s)
queued_payload update _ = err missing_payload
queued_payload soft_delete null = ok none
queued_payload soft_delete undefined = ok none
queued_payload soft_delete _ = err unexpected_payload

abbrev pub are_queue_values : Value → Fields → Bool
are_queue_values id fields =
    is_text id
    && is_text (lookup fields "command_type")
    && is_number_one (lookup fields "command_version")
    && is_text (lookup fields "resource_id")
    && is_text (lookup fields "resource_incarnation_id")
    && is_text (lookup fields "upload_correlation_id")

-- `targets` are the resources of the entries before.
unfoldable pub validate_entry : (targets : List String) → CrudEntry → Result QueueError Command
validate_entry targets e = do
  guard (e.table == "command_queue" && e.op == "PUT") unsupported_crud
  fields ← columns_of e.op_data
  guard (are_queue_values e.id fields) malformed_values
  version ← positive_expected_version (lookup fields "expected_record_version")
  kind ← queued_type (text_of (lookup fields "command_type"))
  guard (not (any (λ k. k == text_of (lookup fields "resource_id")) targets)) duplicate_resource
  payload ← queued_payload kind (lookup fields "payload")
  ok (record {
    command_id = text_of e.id;
    kind = kind;
    resource_id = text_of (lookup fields "resource_id");
    resource_incarnation_id = text_of (lookup fields "resource_incarnation_id");
    expected_record_version = version;
    payload = payload;
  })

unfoldable pub validate_entries :
    (targets : List String) → List CrudEntry → Result QueueError (List Command)
validate_entries targets [] = ok []
validate_entries targets (e ∷ es) = do
  c ← validate_entry targets e
  cs ← validate_entries (c.resource_id ∷ targets) es
  ok (c ∷ cs)

unfoldable pub validate_queued_crud : List CrudEntry → Result QueueError (List Command)
validate_queued_crud crud = do guard (eqb (length crud) 1) not_one_command; validate_entries [] crud

-- `type === "ps8.resource.update.v1" ? payload : null`
abbrev pub column_payload : CommandType → Option String → Value
column_payload update payload = nullable_text payload
column_payload soft_delete payload = null

-- the entry of a command that was inserted with a correlation id
unfoldable pub queued_entry : Command → (correlation : String) → CrudEntry
queued_entry c correlation = record {
  table = "command_queue";
  op = "PUT";
  id = text c.command_id;
  op_data = some (
      entry "command_type" (text (type_text c.kind)) (
        entry "command_version" (natural 1) (
          entry "resource_id" (text c.resource_id) (
            entry "resource_incarnation_id" (text c.resource_incarnation_id) (
              entry "expected_record_version" (natural c.expected_record_version) (
                entry "payload" (column_payload c.kind c.payload)
                  (entry "upload_correlation_id" (text correlation) no_fields)))))));
}

-- The body that `uploadData` sends for a transaction of the queue.
unfoldable pub upload_body :
    Binding → (transaction : String) → List CrudEntry → Result QueueError Value
upload_body binding transaction crud = do
  commands ← validate_queued_crud crud
  ok (
      envelope_value (record {
        replica_id = binding.replica_id;
        replica_epoch = binding.replica_epoch;
        local_transaction_id = transaction;
        commands = commands;
      }))
