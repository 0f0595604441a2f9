-- ===== src/Harness/Tests/Witnesses.antt =====
-- The theorems on the samples.
use trax_os.Common.{true, [], ◌∷◌, ok, ◌≡◌, refl, ◌⊎◌, Bool}
use trax_os.Harness.Database.{Receipt, results}
use trax_os.Harness.Server.{
  answered, lock_replica, has_active_grants, credential_matches, result_from_receipt,
}
use trax_os.Harness.Execution.{execute_commands}
use trax_os.Harness.Execution.Admission.{IsAdmitted}
use trax_os.Harness.Execution.Changing.{IsUntouched}
use trax_os.Harness.Execution.Applying.{IsApplied, execute_commands-applies}
use trax_os.Harness.History.{
  IsLater, Reach, here, next, transaction, elsewhere, Reach-IsLater, execute_commands-once,
}
use trax_os.Harness.Format.{is_uuid, is_command_uuid, fits}
use trax_os.Harness.Protocol.{ResultCode, CommandResult}
use trax_os.Harness.Exchange.{execute_commands-accepted}
use trax_os.Harness.Reply.{result_fields, results_value, parse_command_response}
use trax_os.Harness.Reply.Answers.{AreAnswers, parse_command_response-AreAnswers}
use trax_os.Common.Json.{Value}
use trax_os.Harness.Queue.{upload_body, queued_entry}
use trax_os.Harness.Queue.Sending.{sent, upload_body-parse_command_envelope}
use trax_os.Harness.Upload.{envelope_value}
use trax_os.Harness.Envelope.{parse_command_envelope}
use trax_os.Harness.Envelope.Validity.{
  IsValidCommand, IsValidEnvelope, parse_command_envelope-IsValidEnvelope,
}
use trax_os.Harness.Envelope.RoundTrip.{parse_command_envelope-envelope_value}
use trax_os.Harness.Tests.{
  result, platform, caller, rename, replica, before, after, changed_since, answer, envelope,
}
use trax_os.Harness.Tests.Runs.{runs_reply, runs_new, runs_parser}

changed_since-IsAdmitted : IsAdmitted platform changed_since caller (rename ∷ [])
unfolding lock_replica has_active_grants credential_matches
changed_since-IsAdmitted = record {
  row = replica;
  locked = refl;
  current = refl;
  granted = refl;
  found = refl;
}

changed_since-Reach : Reach platform after changed_since
changed_since-Reach = next here (elsewhere refl refl)

execute_commands-once_example :
    (r : Receipt) × (replay : Bool) × (answer.body ≡ results (result_from_receipt r 1 replay ∷ []))
    × (execute_commands platform changed_since caller (rename ∷ []) 2
        ≡ answered changed_since 200 (result_from_receipt r 2 true ∷ []))
execute_commands-once_example =
    execute_commands-once platform caller rename before after changed_since 1 2 answer tt runs_new
      refl changed_since-Reach changed_since-IsAdmitted

Reach-IsLater_example : IsLater before changed_since
Reach-IsLater_example =
    Reach-IsLater platform before changed_since
      (next (next here (transaction caller (rename ∷ []) 1 answer runs_new)) (elsewhere refl refl))

execute_commands-applies_example :
    IsUntouched before after
    ⊎ (IsAdmitted platform before caller (rename ∷ [])
        × IsApplied platform caller rename before after)
execute_commands-applies_example =
    execute_commands-applies platform caller rename before after 1 answer runs_new

parse_command_envelope-IsValidEnvelope_example : IsValidEnvelope envelope
parse_command_envelope-IsValidEnvelope_example =
    parse_command_envelope-IsValidEnvelope (envelope_value envelope) envelope runs_parser

rename-IsValidCommand : IsValidCommand rename
unfolding is_uuid is_command_uuid fits
rename-IsValidCommand = record {
  id = refl;
  resource = refl;
  incarnation = refl;
  version = refl;
  payload = refl;
}

envelope-IsValidEnvelope : IsValidEnvelope envelope
unfolding is_uuid fits
envelope-IsValidEnvelope = record {
  replica = refl;
  epoch = refl;
  transaction = refl;
  one = (rename, refl, rename-IsValidCommand);
}

parse_command_envelope-envelope_value_example :
    parse_command_envelope (envelope_value envelope) ≡ ok envelope
parse_command_envelope-envelope_value_example =
    parse_command_envelope-envelope_value envelope envelope-IsValidEnvelope

parse_command_response-AreAnswers_example :
    AreAnswers platform.hash
      (λ v. "")
      caller.binding
      (rename ∷ [])
      (result_fields (result ResultCode.applied 1) ∷ [])
parse_command_response-AreAnswers_example =
    parse_command_response-AreAnswers platform.hash (λ v. "") caller.binding
      (results_value (result ResultCode.applied 1 ∷ [])) (rename ∷ [])
      (result_fields (result ResultCode.applied 1) ∷ []) runs_reply

execute_commands-accepted_example :
    (r : CommandResult) × (answer.body ≡ results (r ∷ []))
    × (parse_command_response platform.hash
          (λ v. "")
          (results_value (r ∷ []))
          (rename ∷ [])
          caller.binding
        ≡ ok (result_fields r ∷ []))
execute_commands-accepted_example =
    execute_commands-accepted platform caller rename (λ v. "") before after 1 answer runs_new refl
      tt (record { expected = refl; after = refl; resources = (refl, tt) }) refl

upload_body-parse_command_envelope_example :
    (body : Value) × (upload_body caller.binding "17" (queued_entry rename "k1" ∷ []) ≡ ok body)
    × (parse_command_envelope body ≡ ok (sent caller.binding "17" rename))
upload_body-parse_command_envelope_example =
    upload_body-parse_command_envelope caller.binding "17" "k1" rename rename-IsValidCommand
      envelope-IsValidEnvelope
