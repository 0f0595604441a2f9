-- ===== src/Harness/Uploading.antt =====
-- `uploadData` of client.ts and what it calls: the first transaction of the device's queue is sent,
-- and with the answer the results of its commands are stored and the transaction is completed, or
-- an error is thrown. The queue is PowerSync's, with `next` for getNextCrudTransaction and
-- `complete` for complete(); an answer is given for every body that is sent. The fault injection of
-- the tests, and with it the hold before the completion, is left out.
mod Storing
mod Exhaustion
mod Tests
use trax_os.Common.{
  ℕ, String, Bool, true, false, ◌&&◌, ◌||◌, Option, none, some, List, [], ◌∷◌, map, ◌==◌, eqb, leb,
  Result, ok, err, if◌then◌else◌, ◌>>=◌, guard, ◌>>◌, not,
}
use mathlib.Core.Option
use trax_os.Common.Int.{ℤ, pos}
use trax_os.Common.Number.{integer}
use trax_os.Common.Json.{Value, Fields, number, text, lookup, field, is_text, text_of}
use trax_os.Harness.Protocol.{Command, Binding, command_digest}
use trax_os.Harness.Envelope.{ProtocolError}
use trax_os.Harness.Upload.{envelope_value}
use trax_os.Harness.Reply.{is_this, parse_command_response}
use trax_os.Harness.Queue.{CrudEntry, QueueError, validate_queued_crud}
use trax_os.Harness.LocalState.{
  TerminalResult, ApplicationState, StateError, max_failures, persist_results,
  mark_results_sdk_completed, record_transient_failure,
}

pub record Transaction : Type 0 where
  pub transaction_id : String
  pub crud : List CrudEntry

-- what `fetch` gives: nothing in time, or a status with a body that is JSON or is none
pub data Answer : Type 0 where
  unreachable : Answer
  answered : (status : ℕ) (body : Option Value) → Answer

pub record Device (Q : Type 0) : Type 0 where
  pub state : ApplicationState
  pub queue : Q
  pub session : Option Binding
  pub reset_required : Bool

pub data UploadError : Type 0 where
  invalid_queue : QueueError → UploadError
  invalid_answer : ProtocolError → UploadError
  invalid_state : StateError → UploadError
  no_session no_answer needs_reset malformed_answer not_denied result_not_bound : UploadError
  retryable rejected : (status : ℕ) → UploadError

abbrev pub is_retryable_upload_status : ℕ → Bool
is_retryable_upload_status status = eqb status 429 || leb 500 status

-- `response.ok`
abbrev pub is_ok : ℕ → Bool
is_ok status = leb 200 status && leb status 299

abbrev pub is_idempotency_conflict : ℕ → Value → Bool
is_idempotency_conflict status raw =
    eqb status 409 && is_this "idempotency_conflict" (field raw "error")

abbrev pub natural_of : Value → ℕ
natural_of (number (integer (pos n))) = n
natural_of _ = 0

-- A parsed result as it is stored, where its code and its id are texts.
abbrev pub terminal_result : Fields → TerminalResult
terminal_result r = record {
  command_id = text_of (lookup r "commandId");
  resource_id = text_of (lookup r "resourceId");
  state = text_of (lookup r "state");
  code = text_of (lookup r "code");
  previous_version = natural_of (lookup r "previousVersion");
  current_version = natural_of (lookup r "currentVersion");
  digest = text_of (lookup r "digest");
  attempt_number = natural_of (lookup r "attemptNumber");
}

abbrev pub has_texts : Fields → Bool
has_texts r = is_text (lookup r "code") && is_text (lookup r "commandId")

-- `bound` is what the database's driver makes of a result whose code or id is no text: what it
-- stores, or nothing where it throws.
abbrev pub stored_results :
    (bound : Fields → Option TerminalResult) → List Fields → Option (List TerminalResult)
stored_results bound [] = some []
stored_results bound (r ∷ rs) =
    let rest = stored_results bound rs in
    elim (if has_texts r then some (terminal_result r) else bound r) [
      | none ↦ none
      | some result ↦ Option.map (λ results. result ∷ results) rest
    ]

abbrev pub is_denied : List Fields → Bool
is_denied [] = false
is_denied (r ∷ rs) = is_this "denied" (lookup r "state")

-- the result of a command that fails on the device
abbrev pub failed_result :
    (hash : Value → String) → Command → Binding → (code : String) → (attempt : ℕ) → TerminalResult
failed_result hash c b code attempt = record {
  command_id = c.command_id;
  resource_id = c.resource_id;
  state = "failed";
  code = code;
  previous_version = c.expected_record_version;
  current_version = c.expected_record_version;
  digest = command_digest hash c b;
  attempt_number = attempt;
}

-- the outcome of a call, with what it leaves when it throws too
abbrev pub Outcome : Type 0 → Type 0
Outcome Q = Device Q × Result UploadError (Unit {0})

module _ {Q : Type 0} (next : Q → Option Transaction) (complete : Q → Q) where
  module _ (bytes : TerminalResult → ℕ) where
    unfoldable pub complete_with_results : List TerminalResult → Device Q → Outcome Q
    complete_with_results results d = elim (persist_results bytes results d.state) [
      | err e ↦ (d, err (invalid_state e))
      | ok st ↦ elim (mark_results_sdk_completed (map (λ r. r.command_id) results) st) [
        | err e ↦ (record d { state = st; queue = complete d.queue }, err (invalid_state e))
        | ok st' ↦ (record d { state = st'; queue = complete d.queue }, ok tt)
      ]
    ]

    module _ (hash other : Value → String) (bound : Fields → Option TerminalResult) where
      unfoldable pub transient_failure : Command → Binding → UploadError → Device Q → Outcome Q
      transient_failure c b thrown d = elim (record_transient_failure c.command_id d.state) [
        | err e ↦ (d, err (invalid_state e))
        | ok (st, failures) ↦
            if leb max_failures failures
            then complete_with_results (failed_result hash c b "retry_exhausted" failures ∷ [])
                (record d { state = st })
            else (record d { state = st }, err thrown)
      ]

      -- the results of an answer, stored
      unfoldable pub complete_parsed : List Fields → Device Q → Outcome Q
      complete_parsed rs d = elim (stored_results bound rs) [
        | none ↦ (d, err result_not_bound)
        | some results ↦ complete_with_results results d
      ]

      unfoldable pub read_answer :
          List Command → Command → Binding → (status : ℕ) → Value → Device Q → Outcome Q
      read_answer commands c b status raw d =
          if eqb status 403
          then elim (parse_command_response hash other raw commands b) [
            | err e ↦ (d, err (invalid_answer e))
            | ok rs ↦ if is_denied rs then complete_parsed rs d else (d, err not_denied)
          ]
          else if is_idempotency_conflict status raw
          then complete_with_results (failed_result hash c b "idempotency_conflict" 1 ∷ []) d
          else if is_ok status
          then elim (parse_command_response hash other raw commands b) [
            | err e ↦ (d, err (invalid_answer e))
            | ok rs ↦ complete_parsed rs d
          ]
          else (d, err (rejected status))

      unfoldable pub take_answer : List Command → Command → Binding → Answer → Device Q → Outcome Q
      take_answer commands c b unreachable d = transient_failure c b no_answer d
      take_answer commands c b (answered status body) d =
          if eqb status 428
          then (record d { reset_required = true }, err needs_reset)
          else if is_retryable_upload_status status
          then transient_failure c b (retryable status) d
          else elim body [
            | none ↦ (d, err malformed_answer)
            | some raw ↦ read_answer commands c b status raw d
          ]

      -- The validation leaves one command.
      unfoldable pub send_commands :
          Transaction → List Command → Binding → (Value → Answer) → Device Q → Outcome Q
      send_commands t [] b answer d = (d, ok tt)
      send_commands t (c ∷ cs) b answer d =
          take_answer (c ∷ cs) c b
            (answer (
              envelope_value (record {
                replica_id = b.replica_id;
                replica_epoch = b.replica_epoch;
                local_transaction_id = t.transaction_id;
                commands = c ∷ cs;
              })))
            d

      unfoldable pub upload_transaction : Transaction → (Value → Answer) → Device Q → Outcome Q
      upload_transaction t answer d = elim (validate_queued_crud t.crud) [
        | err e ↦ (d, err (invalid_queue e))
        | ok commands ↦ elim d.session [
          | none ↦ (d, err no_session)
          | some b ↦ send_commands t commands b answer d
        ]
      ]

      unfoldable pub upload_data : (Value → Answer) → Device Q → Outcome Q
      upload_data answer d = elim (next d.queue) [
        | none ↦ (d, ok tt)
        | some t ↦ upload_transaction t answer d
      ]

      -- calls one after the other, whatever they throw
      abbrev pub uploads : List (Value → Answer) → Device Q → Device Q
      uploads [] d = d
      uploads (answer ∷ answers) d = uploads answers (upload_data answer d).0
