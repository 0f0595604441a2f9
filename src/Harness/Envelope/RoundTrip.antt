-- ===== src/Harness/Envelope/RoundTrip.antt =====
-- What `uploadData` of client.ts sends, read by `parseCommandEnvelope` of command-protocol.ts.
use trax_os.Common.{
  sym, subst, length, ℕ, String, true, Option, none, some, List, [], ◌∷◌, ◌≡◌, refl, ok,
}
use trax_os.Common.Json.{entry, lookup, array, Value, text, item, no_values}
use trax_os.Harness.Format.{is_uuid, is_command_uuid, to_lower}
use trax_os.Harness.Lowering.{
  to_lower-is_uuid, to_lower-is_command_uuid, length-is_uuid, length-is_command_uuid,
}
use trax_os.Harness.Protocol.{Command, CommandType, update, soft_delete, type_text}
use trax_os.Harness.Envelope.{
  code_units, command_keys, is_bounded, is_positive_safe, one_element, record_of, exact_keys,
  payload_of, command_type, positive_integer, bounded_string, Envelope, lowered_id, parse_command,
  parse_commands, parse_command_envelope,
}
use trax_os.Harness.Upload.{payload_field, command_values, natural, command_value, envelope_value}
use trax_os.Harness.Envelope.Validity.{has_payload, IsOne, IsValidCommand, IsValidEnvelope}

lowered_id-plain :
    (s : String) → to_lower s ≡ s → length (code_units s) ≡ 36 → lowered_id (text s) ≡ ok s
unfolding bounded_string
lowered_id-plain s lower size = rw (size, lower)

lowered_id-is_uuid : (s : String) → is_uuid s ≡ true → lowered_id (text s) ≡ ok s
lowered_id-is_uuid s h = lowered_id-plain s (to_lower-is_uuid s h) (length-is_uuid s h)

lowered_id-is_command_uuid : (s : String) → is_command_uuid s ≡ true → lowered_id (text s) ≡ ok s
lowered_id-is_command_uuid s h =
    lowered_id-plain s (to_lower-is_command_uuid s h) (length-is_command_uuid s h)

positive_integer-natural : (n : ℕ) → is_positive_safe n ≡ true → positive_integer (natural n) ≡ ok n
unfolding positive_integer
positive_integer-natural n h = rw h

bounded_string-text :
    (maximum : ℕ) (s : String)
    → is_bounded maximum s ≡ true
    → bounded_string maximum (text s) ≡ ok s
unfolding bounded_string
bounded_string-text maximum s h = rw h

command_type-type_text : (kind : CommandType) → command_type (text (type_text kind)) ≡ ok kind
unfolding command_type
command_type-type_text update = refl
command_type-type_text soft_delete = refl

payload_of-payload_field :
    (kind : CommandType) (payload : Option String)
    → has_payload kind payload ≡ true
    → payload_of kind (lookup (payload_field payload) "payload") ≡ ok payload
unfolding payload_of
payload_of-payload_field update (some s) h = rw (bounded_string-text 512 s h)
payload_of-payload_field soft_delete none h = refl
payload_of-payload_field update none h = cc
payload_of-payload_field soft_delete (some s) h = cc

exact_keys-command :
    (id kind resource incarnation version : Value) (payload : Option String)
    → exact_keys command_keys (
        entry "commandId" id (
          entry "type" kind (
            entry "resourceId" resource (
              entry "resourceIncarnationId" incarnation
                (entry "expectedRecordVersion" version (payload_field payload))))))
      ≡ ok tt
unfolding exact_keys
exact_keys-command id kind resource incarnation version none = refl
exact_keys-command id kind resource incarnation version (some s) = refl

parse_command-command_value :
    (c : Command) → IsValidCommand c → parse_command [] [] (command_value c) ≡ ok c
unfolding parse_command command_value record_of
parse_command-command_value c h = rw (
  exact_keys-command (text c.command_id) (text (type_text c.kind)) (text c.resource_id)
      (text c.resource_incarnation_id) (natural c.expected_record_version) c.payload,
  lowered_id-is_command_uuid c.command_id h.id,
  lowered_id-is_uuid c.resource_id h.resource,
  lowered_id-is_uuid c.resource_incarnation_id h.incarnation,
  h.id,
  h.resource,
  h.incarnation,
  command_type-type_text c.kind,
  positive_integer-natural c.expected_record_version h.version,
  payload_of-payload_field c.kind c.payload h.payload,
)

parse_commands-command_values :
    (cs : List Command) → IsOne cs → parse_commands [] [] (command_values cs) ≡ ok cs
unfolding parse_commands
parse_commands-command_values cs (c, one, h) =
    subst (λ l. parse_commands [] [] (command_values l) ≡ ok l) (sym one) single
  where
    single : parse_commands [] [] (item (command_value c) no_values) ≡ ok (c ∷ [])
    single = rw (parse_command-command_value c h)

one_element-command_values :
    (cs : List Command)
    → IsOne cs
    → one_element (array (command_values cs)) ≡ ok (command_values cs)
unfolding one_element
one_element-command_values cs (c, one, h) =
    subst (λ l. one_element (array (command_values l)) ≡ ok (command_values l)) (sym one) refl

-- The server reads a valid envelope that a client sends as the client wrote it.
pub parse_command_envelope-envelope_value :
    (e : Envelope) → IsValidEnvelope e → parse_command_envelope (envelope_value e) ≡ ok e
unfolding parse_command_envelope envelope_value record_of exact_keys
parse_command_envelope-envelope_value e h = rw (
  lowered_id-is_uuid e.replica_id h.replica,
  h.replica,
  positive_integer-natural e.replica_epoch h.epoch,
  bounded_string-text 128 e.local_transaction_id h.transaction,
  one_element-command_values e.commands h.one,
  parse_commands-command_values e.commands h.one,
)
