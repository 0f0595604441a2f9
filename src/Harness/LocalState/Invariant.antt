-- ===== src/Harness/LocalState/Invariant.antt =====
-- The ids of `ApplicationState` of client.ts, which every method keeps apart.
use trax_os.Common.{
  ℕ, ◌≤◌, String, false, not, ◌&&◌, Option, none, some, List, [], ◌∷◌, ◌++◌, ◌==◌, ◌≡◌, ◌≢◌, ◌∙◌,
  find?, leb, ok, guard, ◌>>◌, arith, WhenOk, WhenOk-bind, WhenOk-guard, WhenOk-eq-ok, eq_iff, All,
  All-filter, DistinctBy, DistinctBy-filter, DistinctBy-append, any-append, Bool-cases, inl, inr,
}
use trax_os.Harness.LocalState.{
  reservation, assert_room, result_row, TerminalResult, ResultRow, Overlay, ApplicationState,
  has_result, compatible, command_result_id_conflict, without_overlay, settled, insert_result,
  persist_new, persist_result, persist_results,
}

-- No id is twice in a table, none is in both the results and the overlays, and a command has failed
-- from 1 to 5 times.
pub record IsSound (st : ApplicationState) : Type 0 where
  pub results : DistinctBy (λ r. r.id) st.results
  pub overlays : DistinctBy (λ o. o.id) st.overlays
  pub apart : All (λ o. has_result st.results o.id ≡ false) st.overlays
  pub failures : All (λ a. (1 ≤ a.failure_count) × (a.failure_count ≤ 5)) st.attempts

All-ne : (k : String) (rs : List ResultRow) → has_result rs k ≡ false → All (λ r. r.id ≢ k) rs
unfolding has_result
All-ne k [] h = tt
All-ne k (r ∷ rs) h = ((λ e. ground (arith, eq_iff r.id k)), All-ne k rs (ground arith))

settled-IsSound : (k : String) (st : ApplicationState) → IsSound st → IsSound (settled k st)
settled-IsSound k st h = record {
  results = h.results;
  overlays = DistinctBy-filter (λ o. o.id) _ st.overlays h.overlays;
  apart = All-filter _ _ st.overlays h.apart;
  failures = All-filter _ _ st.attempts h.failures;
}

-- A row is put in for the overlay of its id.
apart-inserted :
    (row : ResultRow) (rs : List ResultRow) (os : List Overlay)
    → All (λ o. has_result rs o.id ≡ false) os
    → All (λ o. has_result (rs ++ row ∷ []) o.id ≡ false) (without_overlay row.id os)
unfolding has_result
apart-inserted row rs [] h = tt
apart-inserted row rs (o ∷ os) (e, h) = elim (Bool-cases (o.id == row.id)) [
  | inl here ↦ rw here (apart-inserted row rs os h)
  | inr there ↦ rw there (
    any-append _ rs (row ∷ []) ∙ ground (arith, eq_iff row.id o.id, eq_iff o.id row.id),
    apart-inserted row rs os h,
  )
]

insert_result-IsSound :
    (row : ResultRow) (st : ApplicationState)
    → IsSound st
    → WhenOk (λ st'. IsSound (settled row.id st')) (insert_result row st)
unfolding insert_result
insert_result-IsSound row st h = WhenOk-guard _ (not (has_result st.results row.id)) _ _ (λ new.
    WhenOk-guard _ (leb 1 row.serialized_bytes && leb 1 row.actual_serialized_bytes) _ _ (λ _.
      record {
        results =
            DistinctBy-append (λ r. r.id) st.results row (All-ne row.id st.results (ground arith))
              h.results;
        overlays = DistinctBy-filter (λ o. o.id) _ st.overlays h.overlays;
        apart = apart-inserted row st.results st.overlays h.apart;
        failures = All-filter _ _ st.attempts h.failures;
      }))

module _ (bytes : TerminalResult → ℕ) where
  persist_new-IsSound :
      (prior : Option Overlay) (r : TerminalResult) (st : ApplicationState)
      → IsSound st
      → WhenOk IsSound (persist_new bytes prior r st)
  unfolding persist_new
  persist_new-IsSound prior r st h =
      WhenOk-bind IsSound (reservation prior (bytes r)) _ (λ reserved _.
        WhenOk-guard IsSound (leb (bytes r) reserved) _ _ (λ _.
          WhenOk-bind IsSound (assert_room prior st reserved) _ (λ _ _.
            WhenOk-bind IsSound (insert_result (result_row r reserved (bytes r)) st) _
              (λ st' inserted.
                WhenOk-eq-ok (λ s. IsSound (settled r.command_id s)) _
                  (insert_result-IsSound (result_row r reserved (bytes r)) st h) inserted))))

  persist_result-IsSound :
      (r : TerminalResult) (st : ApplicationState)
      → IsSound st
      → WhenOk IsSound (persist_result bytes r st)
  unfolding persist_result
  persist_result-IsSound r st h =
      elim (find? (λ row. row.id == r.command_id) st.results)
        as (λ o. WhenOk IsSound (elim o [
          | none ↦ persist_new bytes (find? (λ o. o.id == r.command_id) st.overlays) r st
          | some row ↦
              guard (compatible row r) command_result_id_conflict >> ok (settled r.command_id st)
        ])) [
          | none ↦ persist_new-IsSound _ r st h
          | some row ↦
              WhenOk-guard IsSound (compatible row r) _ _ (λ _. settled-IsSound r.command_id st h)
        ]

  pub persist_results-IsSound :
      (rs : List TerminalResult) (st : ApplicationState)
      → IsSound st
      → WhenOk IsSound (persist_results bytes rs st)
  unfolding persist_results
  persist_results-IsSound [] st h = h
  persist_results-IsSound (r ∷ rs) st h =
      WhenOk-bind IsSound (persist_result bytes r st) _ (λ st' e.
        persist_results-IsSound rs st' (WhenOk-eq-ok IsSound _ (persist_result-IsSound r st h) e))
