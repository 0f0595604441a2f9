-- ===== src/Harness/Uploading/Storing.antt =====
-- The end of a transaction by `completeWithResults` of client.ts, for one result of a command that has
-- an overlay and no result yet.
use trax_os.Common.{
  ℕ, true, ◌||◌, Option, none, some, List, [], ◌∷◌, ◌++◌, ◌≡◌, refl, ◌∙◌, ◌==◌, leb, find?, any,
  any-append, map, ok, arith, eq_refl, Bool-cases, inl, inr,
}
use trax_os.Common.Finding.{any-find?-none}
use trax_os.Harness.LocalState.{
  TerminalResult, ResultRow, Overlay, ApplicationState, has_result, settled, result_row, completed,
  insert_result, persist_new, persist_result, persist_results, mark_results_sdk_completed,
}
use trax_os.Harness.Uploading.{Transaction, Device, complete_with_results}

-- The row of a result that was stored and completed.
abbrev pub final_row : TerminalResult → Overlay → ℕ → ResultRow
final_row r o actual = record (result_row r o.serialized_bytes actual) { sdk_completed = true }

-- The tables after a result of a command was stored and completed, with nothing left of the command.
abbrev pub stored : TerminalResult → Overlay → ℕ → ApplicationState → ApplicationState
stored r o actual st =
    let st' =
      settled r.command_id
        (record st { results = st.results ++ result_row r o.serialized_bytes actual ∷ [] }) in
    record st' { results = map (completed r.command_id) st'.results }

module _ (bytes : TerminalResult → ℕ) (r : TerminalResult) (o : Overlay) (st : ApplicationState)
    (absent : find? (λ row. row.id == r.command_id) st.results ≡ none)
    (there : find? (λ p. p.id == r.command_id) st.overlays ≡ some o)
    (fits : leb (bytes r) o.serialized_bytes ≡ true) (some_bytes : leb 1 (bytes r) ≡ true) where
  inserted : ApplicationState
  inserted = record st { results = st.results ++ result_row r o.serialized_bytes (bytes r) ∷ [] }

  insert_result-inserted :
      insert_result (result_row r o.serialized_bytes (bytes r)) st ≡ ok inserted
  unfolding insert_result has_result inserted
  insert_result-inserted =
      let new = any-find?-none (λ row. row.id == r.command_id) st.results absent in
      let some_reserved : leb 1 o.serialized_bytes ≡ true = ground arith in
      rw (new, some_reserved, some_bytes) refl

  persist_new-settled : persist_new bytes (some o) r st ≡ ok (settled r.command_id inserted)
  unfolding persist_new
  persist_new-settled = rw (fits, insert_result-inserted) refl

  persist_result-settled : persist_result bytes r st ≡ ok (settled r.command_id inserted)
  unfolding persist_result
  persist_result-settled = rw (persist_result, absent, there) persist_new-settled

  persist_results-settled : persist_results bytes (r ∷ []) st ≡ ok (settled r.command_id inserted)
  unfolding persist_results
  persist_results-settled = rw persist_result-settled refl

  present_last :
      (any (λ row. row.id == r.command_id) st.results
        || any (λ row. row.id == r.command_id) (result_row r o.serialized_bytes (bytes r) ∷ []))
      ≡ true
  present_last =
      rw (any-find?-none (λ row. row.id == r.command_id) st.results absent, eq_refl r.command_id)
        refl

  mark_results-stored :
      mark_results_sdk_completed (r.command_id ∷ []) (settled r.command_id inserted)
      ≡ ok (stored r o (bytes r) st)
  unfolding mark_results_sdk_completed has_result inserted
  mark_results-stored =
      let present : any (λ row. row.id == r.command_id)
            (st.results ++ result_row r o.serialized_bytes (bytes r) ∷ [])
          ≡ true =
        any-append (λ row. row.id == r.command_id) st.results
          (result_row r o.serialized_bytes (bytes r) ∷ [])
        ∙ present_last in
      rw present refl

pub find?-stored :
    (r : TerminalResult) (o : Overlay) (actual : ℕ) (rows : List ResultRow)
    → find? (λ row. row.id == r.command_id) rows ≡ none
    → find?
        (λ row. row.id == r.command_id)
        (map (completed r.command_id) (rows ++ result_row r o.serialized_bytes actual ∷ []))
      ≡ some (final_row r o actual)
find?-stored r o actual [] e = rw (eq_refl r.command_id, eq_refl r.command_id) refl
find?-stored r o actual (row ∷ rows) e = elim (Bool-cases (row.id == r.command_id)) [
  | inl here ↦ (let no : some row ≡ none = rw here at e in cc)
  | inr there ↦ rw (there, there) (find?-stored r o actual rows (rw there at e))
]

module _ {Q : Type 0} (next : Q → Option Transaction) (complete : Q → Q)
    (bytes : TerminalResult → ℕ) where
  -- A result of a command with an overlay that has room for it is stored, and the transaction is
  -- taken from the queue.
  pub complete_with_results-one :
      (r : TerminalResult) (o : Overlay) (d : Device Q)
      → find? (λ row. row.id == r.command_id) d.state.results ≡ none
      → find? (λ p. p.id == r.command_id) d.state.overlays ≡ some o
      → leb (bytes r) o.serialized_bytes ≡ true
      → leb 1 (bytes r) ≡ true
      → complete_with_results next complete bytes (r ∷ []) d
        ≡ (record d { state = stored r o (bytes r) d.state; queue = complete d.queue }, ok tt)
  unfolding complete_with_results
  complete_with_results-one r o d absent there fits some_bytes =
      rw
        (
          complete_with_results,
          persist_results-settled bytes r o d.state absent there fits some_bytes,
          mark_results-stored bytes r o d.state absent there fits some_bytes,
        )
        refl
