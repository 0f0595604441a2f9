-- ===== src/Harness/Envelope.antt =====
-- `parseCommandEnvelope` of command-protocol.ts. The texts of the errors are left out, and so is the
-- order of the names in them. The interface's `replicaEpoch` is a positive safe integer.
pub mod Validity
pub mod RoundTrip
use trax_os.Common.{
  ℕ, suc, ◌-◌, ◌^◌, String, Bool, true, false, not, ◌&&◌, ◌||◌, Option, none, some, List, [], ◌∷◌,
  ◌==◌, any, leb, length, Result, ok, err, guard, ◌>>=◌, ◌>>◌, if◌then◌else◌,
}
use trax_os.Common.Int.{ℤ, pos}
use trax_os.Common.Number.{Number, integer}
use trax_os.Common.Text.{code_units}
use trax_os.Common.Json.{
  Value, Values, Fields, undefined, number, text, array, object, no_values, item, no_fields, entry,
  lookup, field,
}
use trax_os.Harness.Format.{is_uuid, is_command_uuid, to_lower}
use trax_os.Harness.Protocol.{Command, CommandType, update, soft_delete, type_text}

pub record Envelope : Type 0 where
  pub replica_id : String
  pub replica_epoch : ℕ
  pub local_transaction_id : String
  pub commands : List Command

pub data ProtocolError : Type 0 where
  not_an_object forbidden_authority unknown_fields unsupported_protocol : ProtocolError
  not_a_bounded_string not_a_uuid not_a_positive_integer not_exactly_one_command : ProtocolError
  unsupported_command_type unexpected_payload duplicate_command duplicate_target : ProtocolError
  response_mismatch identity_mismatch unknown_state unknown_code inconsistent_result : ProtocolError
  not_a_positive_version omitted_results : ProtocolError

abbrev pub authority_fields : List String
authority_fields =
    "actor" ∷ "actorId" ∷ "user" ∷ "userId" ∷ "representedUser" ∷ "representedUserId" ∷ "workspace"
    ∷ "workspaceId" ∷ "workspace_id" ∷ "journey" ∷ "journeyId" ∷ "journey_id" ∷ "party" ∷ "partyId"
    ∷ "party_id" ∷ "audience" ∷ "owner" ∷ "ownerId" ∷ "grant" ∷ "grants" ∷ []

unfoldable pub record_of : Value → Result ProtocolError Fields
record_of (object fields) = ok fields
record_of _ = err not_an_object

-- `Object.keys(value).some(key => !allowed.includes(key) && test(key))`
abbrev pub some_other_key : (String → Bool) → List String → Fields → Bool
some_other_key test allowed no_fields = false
some_other_key test allowed (entry k v fields) =
    not (any (λ a. a == k) allowed) && test k || some_other_key test allowed fields

unfoldable pub exact_keys : List String → Fields → Result ProtocolError (Unit {0})
exact_keys allowed fields = do
  guard (not (some_other_key (λ k. any (λ a. a == k) authority_fields) allowed fields))
      forbidden_authority
  guard (not (some_other_key (λ k. true) allowed fields)) unknown_fields

abbrev pub is_bounded : ℕ → String → Bool
is_bounded maximum s = leb 1 (length (code_units s)) && leb (length (code_units s)) maximum

unfoldable pub bounded_string : ℕ → Value → Result ProtocolError String
bounded_string maximum (text s) = if is_bounded maximum s then ok s else err not_a_bounded_string
bounded_string maximum _ = err not_a_bounded_string

-- `Number.isSafeInteger(n) && n >= 1`
abbrev pub is_positive_safe : ℕ → Bool
is_positive_safe n = leb 1 n && leb n (2 ^ 53 - 1)

unfoldable pub positive_integer : Value → Result ProtocolError ℕ
positive_integer (number (integer (pos n))) =
    if is_positive_safe n then ok n else err not_a_positive_integer
positive_integer _ = err not_a_positive_integer

-- a bounded string of at most 36, lowered
abbrev pub lowered_id : Value → Result ProtocolError String
lowered_id v = bounded_string 36 v >>= λ s. ok (to_lower s)

abbrev pub is_number_one : Value → Bool
is_number_one (number (integer (pos (suc ℕ.zero)))) = true
is_number_one _ = false

unfoldable pub command_type : Value → Result ProtocolError CommandType
command_type (text s) =
    let other =
      if s == type_text soft_delete then ok soft_delete else err unsupported_command_type in
    if s == type_text update then ok update else other
command_type _ = err unsupported_command_type

abbrev pub is_undefined : Value → Bool
is_undefined undefined = true
is_undefined _ = false

unfoldable pub payload_of : CommandType → Value → Result ProtocolError (Option String)
payload_of update v = bounded_string 512 v >>= λ s. ok (some s)
payload_of soft_delete v = guard (is_undefined v) unexpected_payload >> ok none

abbrev pub command_keys : List String
command_keys =
    "commandId" ∷ "type" ∷ "resourceId" ∷ "resourceIncarnationId" ∷ "expectedRecordVersion"
    ∷ "payload" ∷ []

-- `seen` and `targets` are the ids and resources of the commands before.
unfoldable pub parse_command : (seen targets : List String) → Value → Result ProtocolError Command
parse_command seen targets raw = do
  fields ← record_of raw
  exact_keys command_keys fields
  command_id ← lowered_id (lookup fields "commandId")
  resource_id ← lowered_id (lookup fields "resourceId")
  incarnation ← lowered_id (lookup fields "resourceIncarnationId")
  guard (is_command_uuid command_id) not_a_uuid
  guard (is_uuid resource_id) not_a_uuid
  guard (is_uuid incarnation) not_a_uuid
  kind ← command_type (lookup fields "type")
  version ← positive_integer (lookup fields "expectedRecordVersion")
  payload ← payload_of kind (lookup fields "payload")
  guard (not (any (λ k. k == command_id) seen)) duplicate_command
  guard (not (any (λ k. k == resource_id) targets)) duplicate_target
  ok (record {
    command_id = command_id;
    kind = kind;
    resource_id = resource_id;
    resource_incarnation_id = incarnation;
    expected_record_version = version;
    payload = payload;
  })

unfoldable pub parse_commands :
    (seen targets : List String) → Values → Result ProtocolError (List Command)
parse_commands seen targets no_values = ok []
parse_commands seen targets (item raw rest) = do
  c ← parse_command seen targets raw
  cs ← parse_commands (c.command_id ∷ seen) (c.resource_id ∷ targets) rest
  ok (c ∷ cs)

unfoldable pub one_element : Value → Result ProtocolError Values
one_element (array (item v no_values)) = ok (item v no_values)
one_element _ = err not_exactly_one_command

abbrev pub envelope_keys : List String
envelope_keys =
    "spikeProtocol" ∷ "replicaId" ∷ "replicaEpoch" ∷ "localTransactionId" ∷ "commands" ∷ []

unfoldable pub parse_command_envelope : Value → Result ProtocolError Envelope
parse_command_envelope value = do
  input ← record_of value
  exact_keys envelope_keys input
  guard (is_number_one (lookup input "spikeProtocol")) unsupported_protocol
  replica_id ← lowered_id (lookup input "replicaId")
  guard (is_uuid replica_id) not_a_uuid
  epoch ← positive_integer (lookup input "replicaEpoch")
  transaction ← bounded_string 128 (lookup input "localTransactionId")
  raw ← one_element (lookup input "commands")
  commands ← parse_commands [] [] raw
  ok (record {
    replica_id = replica_id;
    replica_epoch = epoch;
    local_transaction_id = transaction;
    commands = commands;
  })
