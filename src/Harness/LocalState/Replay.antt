-- ===== src/Harness/LocalState/Replay.antt =====
-- A result that comes again to `persistResults` of client.ts.
use trax_os.Common.{
  ap, ◌∙◌, leb, Result, ℕ, String, Bool, true, Option, none, some, List, [], ◌∷◌, ◌++◌, ◌==◌, ◌≡◌,
  refl, sym, ap₂, subst, find?, filter, ok, guard, ◌>>◌, arith, WhenOk, WhenOk-bind, WhenOk-guard,
  WhenOk-eq-ok, eq_iff, eq_refl, Bool-cases, inl, inr,
}
use trax_os.Harness.LocalState.{
  StateError, normalized_code, TerminalResult, ResultRow, Overlay, ApplicationState, compatible,
  command_result_id_conflict, settled, result_row, insert_result, persist_new, persist_result,
  reservation, assert_room,
}
use trax_os.Harness.LocalState.Capacity.{insert_result-eq-ok}

-- The second result has the id, the resource, the state, the versions and the digest of the first,
-- and its code, up to `already_applied` for `applied`.
pub record IsReplay (r s : TerminalResult) : Type 0 where
  pub id : s.command_id ≡ r.command_id
  pub same : compatible (result_row r 0 0) s ≡ true

filter-filter : {A : Type 0} (p : A → Bool) (xs : List A) → filter p (filter p xs) ≡ filter p xs
filter-filter p [] = refl
filter-filter p (x ∷ xs) = ground (arith, filter-filter p xs)

settled-settled : (k : String) (st : ApplicationState) → settled k (settled k st) ≡ settled k st
settled-settled k st =
    ap₂ (λ os as'. record st { overlays = os; attempts = as' }) (filter-filter _ st.overlays)
      (filter-filter _ st.attempts)

find?-append :
    (k : String) (rs : List ResultRow) (row : ResultRow)
    → find? (λ r. r.id == k) rs ≡ none
    → row.id ≡ k
    → find? (λ r. r.id == k) (rs ++ row ∷ []) ≡ some row
find?-append k [] row e same = ground (arith, eq_iff row.id k)
find?-append k (r ∷ rs) row e same = elim (Bool-cases (r.id == k)) [
  | inl here ↦ (let e' : some r ≡ none = rw here at e in cc)
  | inr there ↦ rw there (find?-append k rs row (rw there at e) same)
]

eq_trans : (a b c : String) → (a == b) ≡ true → (b == c) ≡ true → (a == c) ≡ true
eq_trans a b c h k = ground (arith, eq_iff a b, eq_iff b c, eq_iff a c)

compatible_trans :
    (row : ResultRow) (r s : TerminalResult)
    → compatible row r ≡ true
    → compatible (result_row r 0 0) s ≡ true
    → compatible row s ≡ true
compatible_trans row r s h k = ground (
  arith,
  eq_trans row.resource_id r.resource_id s.resource_id,
  eq_trans row.state r.state s.state,
  eq_trans (normalized_code row.result_code) (normalized_code r.code) (normalized_code s.code),
  eq_trans row.digest r.digest s.digest,
)

compatible_self : (r : TerminalResult) (a b : ℕ) → compatible (result_row r a b) r ≡ true
compatible_self r a b = ground (
  arith,
  eq_refl r.resource_id,
  eq_refl r.state,
  eq_refl (normalized_code r.code),
  eq_refl r.digest,
)

-- The outcome is stored, and nothing else is left of the command.
record IsPersisted (r : TerminalResult) (st : ApplicationState) : Type 0 where
  pub row : ResultRow
  pub found : find? (λ q. q.id == r.command_id) st.results ≡ some row
  pub matches : compatible row r ≡ true
  pub alone : settled r.command_id st ≡ st

module _ (bytes : TerminalResult → ℕ) where
  persist_new-IsPersisted :
      (prior : Option Overlay) (r : TerminalResult) (st : ApplicationState)
      → find? (λ q. q.id == r.command_id) st.results ≡ none
      → WhenOk (IsPersisted r) (persist_new bytes prior r st)
  unfolding persist_new
  persist_new-IsPersisted prior r st e =
      WhenOk-bind (IsPersisted r) (reservation prior (bytes r)) _ (λ reserved _.
        WhenOk-guard (IsPersisted r) (leb (bytes r) reserved) _ _ (λ _.
          WhenOk-bind (IsPersisted r) (assert_room prior st reserved) _ (λ _ _.
            let row = result_row r reserved (bytes r) in
            WhenOk-bind (IsPersisted r) (insert_result row st) _ (λ st' inserted.
              subst (λ s. IsPersisted r (settled r.command_id s))
                (sym (WhenOk-eq-ok _ _ (insert_result-eq-ok row st) inserted))
                (persisted r st row e (compatible_self r reserved (bytes r)) refl)))))
    where
      persisted :
          (r : TerminalResult) (st : ApplicationState) (row : ResultRow)
          → find? (λ q. q.id == r.command_id) st.results ≡ none
          → compatible row r ≡ true
          → row.id ≡ r.command_id
          → IsPersisted r (settled r.command_id (record st { results = st.results ++ row ∷ [] }))
      persisted r st row e m i = record {
        row = row;
        found = find?-append r.command_id st.results row e i;
        matches = m;
        alone = settled-settled r.command_id (record st { results = st.results ++ row ∷ [] });
      }

  persist_result-IsPersisted :
      (r : TerminalResult) (st : ApplicationState)
      → WhenOk (IsPersisted r) (persist_result bytes r st)
  unfolding persist_result
  persist_result-IsPersisted r st = cases (find? (λ row. row.id == r.command_id) st.results) refl
    where
      cases :
          (o : Option ResultRow)
          → find? (λ row. row.id == r.command_id) st.results ≡ o
          → WhenOk (IsPersisted r) (elim o as (λ _. Result StateError ApplicationState) [
            | none ↦ persist_new bytes (find? (λ o. o.id == r.command_id) st.overlays) r st
            | some row ↦
                guard (compatible row r) command_result_id_conflict >> ok (settled r.command_id st)
          ])
      cases none e = persist_new-IsPersisted _ r st e
      cases (some row) e = WhenOk-guard (IsPersisted r) (compatible row r) _ _ (λ m. record {
        row = row;
        found = e;
        matches = m;
        alone = settled-settled r.command_id st;
      })

  persist_result-found :
      (s : TerminalResult) (st : ApplicationState) (row : ResultRow)
      → find? (λ q. q.id == s.command_id) st.results ≡ some row
      → compatible row s ≡ true
      → persist_result bytes s st ≡ ok (settled s.command_id st)
  unfolding persist_result
  persist_result-found s st row found matches = rw (persist_result, found, matches)

  -- Once the result of a command has been persisted, persisting it again changes nothing, under any
  -- attempt number and also with `already_applied` in place of `applied`.
  pub persist_result-again :
      (r s : TerminalResult) (st st' : ApplicationState)
      → persist_result bytes r st ≡ ok st'
      → IsReplay r s
      → persist_result bytes s st' ≡ ok st'
  persist_result-again r s st st' e h =
      again (WhenOk-eq-ok (IsPersisted r) _ (persist_result-IsPersisted r st) e)
    where
      again : IsPersisted r st' → persist_result bytes s st' ≡ ok st'
      again k =
          persist_result-found s st' k.row
            (subst (λ i. find? (λ q. q.id == i) st'.results ≡ some k.row) (sym h.id) k.found)
            (compatible_trans k.row r s k.matches h.same)
          ∙ ap (λ i. ok (settled i st')) h.id
          ∙ ap ok k.alone
