-- ===== src/Harness/LocalState/Tests.antt =====
-- A device with one command under way, its result, and the theorems on them.
use trax_os.Common.{arith, ℕ, String, false, some, [], ◌∷◌, ◌≡◌, refl, ok}
use trax_os.Harness.LocalState.{
  TerminalResult, Overlay, ApplicationState, persist_results, persist_result, persist_new,
  insert_result, has_result, acknowledge_result, result_row, add_overlays, insert_overlay,
  record_transient_failure, record_failure,
}
use trax_os.Harness.LocalState.Capacity.{IsWithin, persist_results-IsWithin}
use trax_os.Harness.LocalState.Invariant.{IsSound}
use trax_os.Harness.LocalState.Steps.{persist, add, fail, here, next, Reach-IsSound}
use trax_os.Harness.LocalState.Replay.{IsReplay, persist_result-again}

abbrev bytes : TerminalResult → ℕ
bytes r = 300

abbrev overlay : Overlay
overlay = record {
  id = "c1";
  resource_id = "r1";
  resource_incarnation_id = "i1";
  command_type = "ps8.resource.update.v1";
  payload = some "boat";
  expected_record_version = 3;
  serialized_bytes = 512;
  actual_serialized_bytes = 150;
}

abbrev done : String → ℕ → TerminalResult
done code attempt = record {
  command_id = "c1";
  resource_id = "r1";
  state = "applied";
  code = code;
  previous_version = 3;
  current_version = 4;
  digest = "d1";
  attempt_number = attempt;
}

abbrev start : ApplicationState
start = record { results = []; overlays = []; attempts = [] }

abbrev waiting : ApplicationState
waiting = record { results = []; overlays = overlay ∷ []; attempts = [] }

abbrev failed : ApplicationState
failed = record waiting { attempts = record { id = "c1"; failure_count = 1 } ∷ [] }

abbrev finished : ApplicationState
finished = record start { results = result_row (done "applied" 2) 512 300 ∷ [] }

runs_add : add_overlays [] (overlay ∷ []) start ≡ ok waiting
unfolding add_overlays insert_overlay has_result
runs_add = refl

runs_fail : record_transient_failure "c1" waiting ≡ ok (failed, 1)
unfolding record_transient_failure record_failure
runs_fail = refl

runs_persist : persist_results bytes (done "applied" 2 ∷ []) failed ≡ ok finished
unfolding persist_results persist_result persist_new insert_result has_result
runs_persist = refl

runs_persist_one : persist_result bytes (done "applied" 2) failed ≡ ok finished
unfolding persist_result persist_new insert_result has_result
runs_persist_one = refl

-- A result is not acknowledged before the queue has let the command go.
runs_acknowledge : acknowledge_result "c1" finished ≡ (finished, false)
unfolding acknowledge_result
runs_acknowledge = refl

start-IsSound : IsSound start
start-IsSound = record { results = tt; overlays = tt; apart = tt; failures = tt }

Reach-IsSound_example : IsSound finished
Reach-IsSound_example = Reach-IsSound bytes start finished start-IsSound (
    next (next (next here (add (overlay ∷ []) runs_add)) (fail "c1" 1 runs_fail))
      (persist (done "applied" 2 ∷ []) runs_persist))

failed-IsWithin : IsWithin failed
failed-IsWithin = record { count = omega arith; bytes = omega arith }

persist_results-IsWithin_example : IsWithin finished
persist_results-IsWithin_example =
    persist_results-IsWithin bytes (done "applied" 2 ∷ []) failed finished failed-IsWithin
      runs_persist

done-IsReplay : IsReplay (done "applied" 2) (done "already_applied" 3)
done-IsReplay = record { id = refl; same = refl }

persist_result-again_example :
    persist_result bytes (done "already_applied" 3) finished ≡ ok finished
persist_result-again_example =
    persist_result-again bytes (done "applied" 2) (done "already_applied" 3) failed finished
      runs_persist_one done-IsReplay
