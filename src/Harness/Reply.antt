-- ===== src/Harness/Reply.antt =====
-- `parseCommandResponse` of command-protocol.ts, and the body of an answer with results that
-- `executeCommands` of command-server.ts gives. The texts of the errors are left out. The parser
-- returns the records it was given; `other v` is `String(v)` of a value that is no text.
pub mod Expecting
pub mod Answers
pub mod Accepted
use trax_os.Common.{
  ℕ, suc, String, Bool, true, false, not, ◌&&◌, ◌||◌, Option, none, some, List, [], ◌∷◌, ◌==◌, any,
  map, filter, eqb, length, Result, ok, err, guard, ◌>>=◌, ◌>>◌, if◌then◌else◌,
}
use trax_os.Common.Int.{pos}
use trax_os.Common.Number.{integer}
use trax_os.Common.JsMap
use trax_os.Common.Json.{
  number, Value, Values, Fields, text, array, object, no_values, item, no_fields, entry, lookup,
  elements, is_array,
}
use trax_os.Harness.Protocol.{
  Command, Binding, CommandResult, ResultState, ResultCode, conflict, denied, already_applied,
  optimistic_conflict, stale_incarnation, command_denied, command_digest,
}
use trax_os.Harness.Envelope.{
  ProtocolError, response_mismatch, identity_mismatch, unknown_state, unknown_code,
  inconsistent_result, not_a_positive_version, omitted_results, record_of, exact_keys,
  is_number_one, is_positive_safe,
}
use trax_os.Harness.Upload.{natural}

abbrev pub state_text : ResultState → String
state_text ResultState.applied = "applied"
state_text conflict = "conflict"
state_text denied = "denied"

abbrev pub code_text : ResultCode → String
code_text ResultCode.applied = "applied"
code_text already_applied = "already_applied"
code_text optimistic_conflict = "optimistic_conflict"
code_text stale_incarnation = "stale_incarnation"
code_text command_denied = "command_denied"

abbrev pub result_fields : CommandResult → Fields
result_fields r = entry "commandId" (text r.command_id) (
    entry "resourceId" (text r.resource_id) (
      entry "digest" (text r.digest) (
        entry "state" (text (state_text r.state)) (
          entry "code" (text (code_text r.code)) (
            entry "previousVersion" (natural r.previous_version) (
              entry "currentVersion" (natural r.current_version)
                (entry "attemptNumber" (natural r.attempt_number) no_fields)))))))

abbrev pub result_values : List CommandResult → Values
result_values [] = no_values
result_values (r ∷ rs) = item (object (result_fields r)) (result_values rs)

unfoldable pub results_value : List CommandResult → Value
results_value rs =
    object
      (entry "spikeProtocol" (natural 1) (entry "results" (array (result_values rs)) no_fields))

-- `new Map(commands.map(c => [c.commandId, c]))`, less the ids that were deleted
abbrev pub expected : List Command → String → Option Command
expected cs = JsMap.get (map (λ c. (c.command_id, c)) cs)

abbrev pub forget : String → List Command → List Command
forget k cs = filter (λ c. not (c.command_id == k)) cs

abbrev pub is_this : String → Value → Bool
is_this s (text t) = t == s
is_this s _ = false

abbrev pub positive_version : Value → Bool
positive_version (number (integer (pos n))) = is_positive_safe n
positive_version _ = false

unfoldable pub known : Option Command → Result ProtocolError Command
known none = err identity_mismatch
known (some c) = ok c

abbrev pub state_names : List String
state_names = "applied" ∷ "conflict" ∷ "denied" ∷ []

abbrev pub code_names : List String
code_names =
    "applied" ∷ "already_applied" ∷ "optimistic_conflict" ∷ "stale_incarnation" ∷ "command_denied"
    ∷ []

-- the state that goes with a code
abbrev pub expected_state : Value → String
expected_state code =
    if is_this "optimistic_conflict" code || is_this "stale_incarnation" code
    then "conflict"
    else if is_this "command_denied" code
    then "denied"
    else "applied"

abbrev pub result_keys : List String
result_keys =
    "commandId" ∷ "resourceId" ∷ "digest" ∷ "state" ∷ "code" ∷ "previousVersion" ∷ "currentVersion"
    ∷ "attemptNumber" ∷ []

module _ (hash : Value → String) (other : Value → String) where
  abbrev pub string_of : Value → String
  string_of (text s) = s
  string_of v = other v

  -- one result, with the commands that are still expected
  unfoldable pub parse_result :
      Binding → List Command → Value → Result ProtocolError (Fields × List Command)
  parse_result binding cs raw = do
    result ← record_of raw
    exact_keys result_keys result
    c ← known (expected cs (string_of (lookup result "commandId")))
    guard (is_this c.resource_id (lookup result "resourceId")) identity_mismatch
    guard (is_this (command_digest hash c binding) (lookup result "digest")) identity_mismatch
    guard (any (λ s. is_this s (lookup result "state")) state_names) unknown_state
    guard (any (λ s. s == string_of (lookup result "code")) code_names) unknown_code
    guard (is_this (expected_state (lookup result "code")) (lookup result "state"))
        inconsistent_result
    guard (positive_version (lookup result "previousVersion")) not_a_positive_version
    guard (positive_version (lookup result "currentVersion")) not_a_positive_version
    guard (positive_version (lookup result "attemptNumber")) not_a_positive_version
    ok (result, forget c.command_id cs)

  unfoldable pub parse_results :
      Binding → List Command → Values → Result ProtocolError (List Fields × List Command)
  parse_results binding cs no_values = ok ([], cs)
  parse_results binding cs (item raw raws) = do
    first ← parse_result binding cs raw
    rest ← parse_results binding first.1 raws
    ok (first.0 ∷ rest.0, rest.1)

  abbrev pub value_count : Values → ℕ
  value_count no_values = 0
  value_count (item v vs) = suc (value_count vs)

  unfoldable pub parse_command_response :
      Value → List Command → Binding → Result ProtocolError (List Fields)
  parse_command_response value commands binding = do
    input ← record_of value
    exact_keys ("spikeProtocol" ∷ "results" ∷ []) input
    guard
        (is_number_one (lookup input "spikeProtocol")
          && is_array (lookup input "results")
          && eqb (value_count (elements (lookup input "results"))) (length commands))
        response_mismatch
    parsed ← parse_results binding commands (elements (lookup input "results"))
    guard (eqb (length parsed.1) 0) omitted_results
    ok parsed.0
