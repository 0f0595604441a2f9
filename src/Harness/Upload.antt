-- ===== src/Harness/Upload.antt =====
-- The body of `uploadData` of client.ts. JSON drops a field that is `undefined`; what the server
-- reads of the text is the value that was written.
use trax_os.Common.{ℕ, String, Option, none, some, List, [], ◌∷◌}
use trax_os.Common.Int.{pos}
use trax_os.Common.Number.{integer}
use trax_os.Common.Json.{
  Value, Values, Fields, number, text, array, object, no_values, item, no_fields, entry,
}
use trax_os.Harness.Protocol.{Command, type_text}
use trax_os.Harness.Envelope.{Envelope}

abbrev pub natural : ℕ → Value
natural n = number (integer (pos n))

abbrev pub payload_field : Option String → Fields
payload_field none = no_fields
payload_field (some s) = entry "payload" (text s) no_fields

unfoldable pub command_value : Command → Value
command_value c = object (
    entry "commandId" (text c.command_id) (
      entry "type" (text (type_text c.kind)) (
        entry "resourceId" (text c.resource_id) (
          entry "resourceIncarnationId" (text c.resource_incarnation_id) (
            entry "expectedRecordVersion" (natural c.expected_record_version)
              (payload_field c.payload))))))

abbrev pub command_values : List Command → Values
command_values [] = no_values
command_values (c ∷ cs) = item (command_value c) (command_values cs)

unfoldable pub envelope_value : Envelope → Value
envelope_value e = object (
    entry "spikeProtocol" (natural 1) (
      entry "replicaId" (text e.replica_id) (
        entry "replicaEpoch" (natural e.replica_epoch) (
          entry "localTransactionId" (text e.local_transaction_id)
            (entry "commands" (array (command_values e.commands)) no_fields)))))
