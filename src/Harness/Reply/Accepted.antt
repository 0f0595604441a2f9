-- ===== src/Harness/Reply/Accepted.antt =====
-- The answers of `executeCommands` of command-server.ts, read by `parseCommandResponse` of
-- command-protocol.ts.
use trax_os.Common.{eq_refl, String, Bool, true, some, [], ◌∷◌, ◌==◌, ◌≡◌, refl, any, ok, arith}
use trax_os.Common.Json.{object, Value, text}
use trax_os.Harness.Protocol.{
  Command, Binding, CommandResult, ResultState, ResultCode, command_digest,
}
use trax_os.Harness.Envelope.{exact_keys, record_of, is_positive_safe}
use trax_os.Harness.Reply.{
  known, forget, expected, state_text, code_text, state_names, code_names, is_this, expected_state,
  result_fields, results_value, parse_result, parse_results, parse_command_response,
}

abbrev pub is_consistent : ResultState → ResultCode → Bool
is_consistent state code =
    is_this (expected_state (text (code_text code))) (text (state_text state))

any-state_text :
    (state : ResultState) → any (λ s. is_this s (text (state_text state))) state_names ≡ true
any-state_text ResultState.applied = refl
any-state_text ResultState.conflict = refl
any-state_text ResultState.denied = refl

any-code_text : (code : ResultCode) → any (λ s. s == code_text code) code_names ≡ true
any-code_text ResultCode.applied = refl
any-code_text ResultCode.already_applied = refl
any-code_text ResultCode.optimistic_conflict = refl
any-code_text ResultCode.stale_incarnation = refl
any-code_text ResultCode.command_denied = refl

module _ (hash : Value → String) (binding : Binding) (c : Command) where
  -- The result that a server gives for the command.
  pub record IsResult (r : CommandResult) : Type 0 where
    pub id : r.command_id ≡ c.command_id
    pub resource : r.resource_id ≡ c.resource_id
    pub digest : r.digest ≡ command_digest hash c binding
    pub consistent : is_consistent r.state r.code ≡ true
    pub previous : is_positive_safe r.previous_version ≡ true
    pub current : is_positive_safe r.current_version ≡ true
    pub attempt : is_positive_safe r.attempt_number ≡ true

  expected_self : expected (c ∷ []) c.command_id ≡ some c
  expected_self = ground (arith, eq_refl c.command_id)

  forget_self : forget c.command_id (c ∷ []) ≡ []
  forget_self = ground (arith, eq_refl c.command_id)

  module _ (other : Value → String) where
    parse_result-result_fields :
        (r : CommandResult)
        → IsResult r
        → parse_result hash other binding (c ∷ []) (object (result_fields r))
          ≡ ok (result_fields r, [])
    unfolding parse_result record_of exact_keys known
    parse_result-result_fields r h = rw (
      h.id,
      expected_self,
      h.resource,
      eq_refl c.resource_id,
      h.digest,
      eq_refl (command_digest hash c binding),
      any-state_text r.state,
      any-code_text r.code,
      h.consistent,
      h.previous,
      h.current,
      h.attempt,
      forget_self,
    )

    pub parse_command_response-results_value :
        (r : CommandResult)
        → IsResult r
        → parse_command_response hash other (results_value (r ∷ [])) (c ∷ []) binding
          ≡ ok (result_fields r ∷ [])
    unfolding parse_command_response parse_results record_of exact_keys results_value
    parse_command_response-results_value r h = rw (parse_result-result_fields r h)
