-- ===== src/Harness/LocalState/Steps.antt =====
-- The life of `ApplicationState` of client.ts: its methods in any order.
use trax_os.Common.{ℕ, String, List, [], ◌≡◌, ok, WhenOk-eq-ok}
use trax_os.Harness.LocalState.{
  TerminalResult, Overlay, ApplicationState, persist_results, mark_results_sdk_completed,
  add_overlays, remove_overlays, clear_overlays, acknowledge_result, record_transient_failure,
  clear_transient_failure,
}
use trax_os.Harness.LocalState.Invariant.{IsSound, persist_results-IsSound}
use trax_os.Harness.LocalState.Methods.{
  mark-IsSound, add_overlays-IsSound, remove_overlays-IsSound, clear_overlays-IsSound,
  acknowledge_result-IsSound, record_transient_failure-IsSound, clear_transient_failure-IsSound,
}

module _ (bytes : TerminalResult → ℕ) where
  pub data Step (st : ApplicationState) : ApplicationState → Type 0 where
    persist :
        {st' : ApplicationState} (rs : List TerminalResult)
        → persist_results bytes rs st ≡ ok st'
        → Step st st'
    mark :
        {st' : ApplicationState} (ks : List String)
        → mark_results_sdk_completed ks st ≡ ok st'
        → Step st st'
    add :
        {st' : ApplicationState} (os : List Overlay) → add_overlays [] os st ≡ ok st' → Step st st'
    remove : (ks : List String) → Step st (remove_overlays ks st)
    clear : Step st (clear_overlays st)
    acknowledge : (k : String) → Step st (acknowledge_result k st).0
    fail :
        {st' : ApplicationState} (k : String) (count : ℕ)
        → record_transient_failure k st ≡ ok (st', count)
        → Step st st'
    succeed : (k : String) → Step st (clear_transient_failure k st)

  pub data Reach (st : ApplicationState) : ApplicationState → Type 0 where
    here : Reach st st
    next : {st' st'' : ApplicationState} → Reach st st' → Step st' st'' → Reach st st''

  Step-IsSound : (st st' : ApplicationState) → Step st st' → IsSound st → IsSound st'
  Step-IsSound st st' (persist rs e) h =
      WhenOk-eq-ok IsSound _ (persist_results-IsSound bytes rs st h) e
  Step-IsSound st st' (mark ks e) h = WhenOk-eq-ok IsSound _ (mark-IsSound ks st h) e
  Step-IsSound st st' (add os e) h = WhenOk-eq-ok IsSound _ (add_overlays-IsSound [] os st h) e
  Step-IsSound st _ (remove ks) h = remove_overlays-IsSound ks st h
  Step-IsSound st _ clear h = clear_overlays-IsSound st h
  Step-IsSound st _ (acknowledge k) h = acknowledge_result-IsSound k st h
  Step-IsSound st st' (fail k count e) h =
      WhenOk-eq-ok (λ x. IsSound x.0) _ (record_transient_failure-IsSound k st h) e
  Step-IsSound st _ (succeed k) h = clear_transient_failure-IsSound k st h

  -- From a state in which no id is twice in a table, none is in both the results and the overlays,
  -- and every count of failures is from 1 to 5, every sequence of the methods leads to such a state.
  pub Reach-IsSound : (st st' : ApplicationState) → IsSound st → Reach st st' → IsSound st'
  Reach-IsSound st st' h here = h
  Reach-IsSound st st'' h (next {st'} steps step) =
      Step-IsSound st' st'' step (Reach-IsSound st st' h steps)
