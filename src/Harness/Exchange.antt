-- ===== src/Harness/Exchange.antt =====
-- The answer of `executeCommands` of command-server.ts with status 200, sent to the client and read
-- by `parseCommandResponse` of command-protocol.ts.
use trax_os.Common.{ℕ, String, Bool, true, false, [], ◌∷◌, ◌≡◌, All, ok, arith, eq_iff}
use trax_os.Common.Json.{Value}
use trax_os.Harness.Protocol.{command_digest, Command, CommandResult, ResultState, ResultCode}
use trax_os.Harness.Database.{Receipt, Database, Response, results}
use trax_os.Harness.Server.{Platform, Caller, replayed, result_from_receipt, mismatch}
use trax_os.Harness.Execution.{execute_commands}
use trax_os.Harness.Execution.Storing.{IsReportable, IsSafe}
use trax_os.Harness.Execution.Retry.{command_of_row, IsAnswered-of_success}
use trax_os.Harness.Envelope.{is_positive_safe}
use trax_os.Harness.Reply.{result_fields, results_value, parse_command_response}
use trax_os.Harness.Reply.Accepted.{is_consistent, IsResult, parse_command_response-results_value}

is_consistent-replayed :
    (state : ResultState) (replay : Bool) (code : ResultCode)
    → is_consistent state code ≡ true
    → is_consistent state (replayed replay code) ≡ true
is_consistent-replayed state false code h = h
is_consistent-replayed state true ResultCode.applied h = h
is_consistent-replayed state true ResultCode.already_applied h = h
is_consistent-replayed state true ResultCode.optimistic_conflict h = h
is_consistent-replayed state true ResultCode.stale_incarnation h = h
is_consistent-replayed state true ResultCode.command_denied h = h

module _ (platform : Platform) (caller : Caller) (c : Command) where
  IsResult-result_from_receipt :
      (r : Receipt) (attempt : ℕ) (replay : Bool)
      → r.command_id ≡ c.command_id
      → mismatch platform caller c r ≡ false
      → IsReportable r
      → is_positive_safe attempt ≡ true
      → IsResult platform.hash caller.binding c (result_from_receipt r attempt replay)
  unfolding result_from_receipt mismatch
  IsResult-result_from_receipt r attempt replay id h k safe = record {
    id = id;
    resource = ground (arith, eq_iff r.resource_id c.resource_id);
    digest = ground (arith, eq_iff r.digest (command_digest platform.hash c caller.binding));
    consistent = is_consistent-replayed r.result_state replay r.result_code k.consistent;
    previous = k.previous;
    current = k.current;
    attempt = safe;
  }

  -- What the server answers with status 200 to one command, the client accepts as the answer to it:
  -- if before the call every stored receipt has a state that goes with its code and versions that
  -- are positive safe integers, and so are the versions of the resources, the version that the
  -- command expects, the one after it, and the attempt.
  pub execute_commands-accepted :
      (other : Value → String) (db db' : Database) (attempt : ℕ) (response : Response)
      → execute_commands platform db caller (c ∷ []) attempt ≡ ok (db', response)
      → response.status ≡ 200
      → All IsReportable db.receipts
      → IsSafe c db
      → is_positive_safe attempt ≡ true
      → (result : CommandResult) × (response.body ≡ results (result ∷ []))
        × (parse_command_response platform.hash other
              (results_value (result ∷ []))
              (c ∷ [])
              caller.binding
            ≡ ok (result_fields result ∷ []))
  execute_commands-accepted other db db' attempt response e success known safe good =
      let h = IsAnswered-of_success platform caller c db db' attempt response e success in
      let r = h.receipt in
      (
        result_from_receipt r attempt h.replay,
        h.body,
        parse_command_response-results_value platform.hash caller.binding c other _ (
            IsResult-result_from_receipt r attempt h.replay
              (command_of_row platform caller c db' r h.rows) h.matches (h.reportable known safe)
              good),
      )
