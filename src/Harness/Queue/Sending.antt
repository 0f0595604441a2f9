-- ===== src/Harness/Queue/Sending.antt =====
-- A command from the insertion into the queue, by `validateQueuedCrud` and `uploadData` of client.ts,
-- to `parseCommandEnvelope` of command-protocol.ts.
use trax_os.Common.{ℕ, String, true, Option, none, some, [], ◌∷◌, ◌≡◌, refl, ok}
use trax_os.Common.Json.{Value}
use trax_os.Harness.Protocol.{Command, CommandType, Binding, update, soft_delete, type_text}
use trax_os.Harness.Envelope.{Envelope, is_positive_safe, parse_command_envelope}
use trax_os.Harness.Envelope.Validity.{IsValidCommand, IsValidEnvelope, has_payload}
use trax_os.Harness.Envelope.RoundTrip.{parse_command_envelope-envelope_value}
use trax_os.Harness.Upload.{natural, envelope_value}
use trax_os.Harness.Queue.{
  columns_of, positive_expected_version, queued_type, queued_payload, column_payload,
  validate_entry, validate_entries, validate_queued_crud, queued_entry, upload_body,
}

queued_type-type_text : (kind : CommandType) → queued_type (type_text kind) ≡ ok kind
unfolding queued_type
queued_type-type_text update = refl
queued_type-type_text soft_delete = refl

queued_payload-column_payload :
    (kind : CommandType) (payload : Option String)
    → has_payload kind payload ≡ true
    → queued_payload kind (column_payload kind payload) ≡ ok payload
unfolding queued_payload
queued_payload-column_payload update (some s) h = refl
queued_payload-column_payload update none h = cc
queued_payload-column_payload soft_delete none h = refl
queued_payload-column_payload soft_delete (some s) h = cc

positive_expected_version-natural :
    (n : ℕ) → is_positive_safe n ≡ true → positive_expected_version (natural n) ≡ ok n
unfolding positive_expected_version
positive_expected_version-natural n h = rw h

validate_entry-queued_entry :
    (c : Command) (correlation : String)
    → is_positive_safe c.expected_record_version ≡ true
    → has_payload c.kind c.payload ≡ true
    → validate_entry [] (queued_entry c correlation) ≡ ok c
unfolding validate_entry queued_entry columns_of
validate_entry-queued_entry c correlation safe h = rw (
  positive_expected_version-natural c.expected_record_version safe,
  queued_type-type_text c.kind,
  queued_payload-column_payload c.kind c.payload h,
)

validate_queued_crud-queued_entry :
    (c : Command) (correlation : String)
    → is_positive_safe c.expected_record_version ≡ true
    → has_payload c.kind c.payload ≡ true
    → validate_queued_crud (queued_entry c correlation ∷ []) ≡ ok (c ∷ [])
unfolding validate_queued_crud validate_entries
validate_queued_crud-queued_entry c correlation safe h =
    rw (validate_entry-queued_entry c correlation safe h)

-- The envelope of one command.
abbrev pub sent : Binding → String → Command → Envelope
sent binding transaction c = record {
  replica_id = binding.replica_id;
  replica_epoch = binding.replica_epoch;
  local_transaction_id = transaction;
  commands = c ∷ [];
}

-- A valid command that is put into the queue of a device reaches the server: the device sends the
-- entry, and the server reads the envelope of that command, with every field as it was.
pub upload_body-parse_command_envelope :
    (binding : Binding) (transaction correlation : String) (c : Command)
    → IsValidCommand c
    → IsValidEnvelope (sent binding transaction c)
    → (body : Value) × (upload_body binding transaction (queued_entry c correlation ∷ []) ≡ ok body)
      × (parse_command_envelope body ≡ ok (sent binding transaction c))
unfolding upload_body
upload_body-parse_command_envelope binding transaction correlation c h k = (
  envelope_value (sent binding transaction c),
  (rw (validate_queued_crud-queued_entry c correlation h.version h.payload)),
  parse_command_envelope-envelope_value (sent binding transaction c) k,
)
