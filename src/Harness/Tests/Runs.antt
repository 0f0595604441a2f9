-- ===== src/Harness/Tests/Runs.antt =====
-- `executeCommands` of command-server.ts and the parser of command-protocol.ts, run on the samples.
use trax_os.Common.{[], ◌∷◌, ok, ◌≡◌, refl}
use trax_os.Harness.Protocol.{command_digest, ResultCode}
use trax_os.Harness.Database.{invalid_replica}
use trax_os.Harness.Server.{
  answered, refused, mismatch, lock_replica, has_active_grants, credential_matches,
  result_from_receipt, insert_receipt,
}
use trax_os.Harness.Rows.{insert_event, some_resource, resource_of, receipt_of}
use trax_os.Harness.Execution.{
  execute_commands, execute_authorized, execute_new, execute_replay, execute_tested, apply_commands,
  check_receipts, answer_replay, replayed_results,
}
use trax_os.Harness.Format.{is_uuid, is_command_uuid, to_lower, upper_letters, lower_letters, fits}
use trax_os.Harness.Reply.{
  result_fields, results_value, known, parse_result, parse_results, parse_command_response,
}
use trax_os.Harness.Upload.{command_value, envelope_value}
use trax_os.Harness.Envelope.{
  parse_command_envelope, record_of, exact_keys, bounded_string, positive_integer, command_type,
  payload_of, parse_command, parse_commands, one_element,
}
use trax_os.Harness.Tests.{
  platform, caller, rename, before, after, changed_since, answer, result, envelope,
}

pub runs_new : execute_commands platform before caller (rename ∷ []) 1 ≡ ok (after, answer)
unfolding execute_commands execute_authorized execute_new execute_tested apply_commands insert_event
    insert_receipt some_resource resource_of lock_replica has_active_grants credential_matches
    command_digest result_from_receipt
runs_new = refl

runs_again :
    execute_commands platform changed_since caller (rename ∷ []) 2
    ≡ answered changed_since 200 (result ResultCode.already_applied 2 ∷ [])
unfolding execute_commands execute_authorized execute_replay check_receipts receipt_of answer_replay
    replayed_results mismatch lock_replica has_active_grants credential_matches command_digest
    result_from_receipt
runs_again = refl

-- Another user is not let in on the replica.
runs_other :
    execute_commands platform after (record caller { user_id = "ben" }) (rename ∷ []) 1
    ≡ refused after 403 invalid_replica
unfolding execute_commands lock_replica credential_matches
runs_other = refl

pub runs_parser : parse_command_envelope (envelope_value envelope) ≡ ok envelope
unfolding parse_command_envelope envelope_value command_value record_of exact_keys bounded_string
    positive_integer command_type payload_of parse_command parse_commands one_element is_uuid
    is_command_uuid to_lower upper_letters lower_letters fits
runs_parser = refl

pub runs_reply :
    parse_command_response platform.hash
      (λ v. "")
      (results_value (result ResultCode.applied 1 ∷ []))
      (rename ∷ [])
      caller.binding
    ≡ ok (result_fields (result ResultCode.applied 1) ∷ [])
unfolding parse_command_response parse_results parse_result record_of exact_keys known
    command_digest results_value
runs_reply = refl
