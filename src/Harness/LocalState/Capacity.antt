-- ===== src/Harness/LocalState/Capacity.antt =====
-- The limits of `spikeCapacityLimits` of client.ts, which `persistResults` keeps.
use trax_os.Common.{
  ◌&&◌, subst, sym, guard-eq-ok, bind-eq-ok, ap, inl, inr, Bool-cases, guard, ◌>>◌, inr, inl,
  Bool-cases, ℕ, suc, ◌+◌, ◌≤◌, String, not, Option, none, some, List, [], ◌∷◌, ◌++◌, ◌==◌, ◌≡◌,
  refl, find?, length, leb, ok, arith, WhenOk, WhenOk-bind, WhenOk-guard, WhenOk-eq-ok,
}
use trax_os.Harness.LocalState.{
  is_safe, has_result, invalid_accounting, command_capacity_exceeded, compatible,
  command_result_id_conflict, TerminalResult, ResultRow, Overlay, ApplicationState, usage_count,
  usage_bytes, overlay_bytes, result_bytes, without_overlay, settled, insert_result, persist_new,
  persist_result, persist_results, result_row, assert_outstanding_capacity,
  reserved_outstanding_bytes, max_outstanding, max_outstanding_bytes,
}

pub record IsWithin (st : ApplicationState) : Type 0 where
  pub count : usage_count st ≤ max_outstanding
  pub bytes : usage_bytes st ≤ max_outstanding_bytes

length-without_overlay :
    (k : String) (os : List Overlay) → length (without_overlay k os) ≤ length os
length-without_overlay k [] = omega arith
length-without_overlay k (o ∷ os) = ground (arith, length-without_overlay k os)

overlay_bytes-without_overlay :
    (k : String) (os : List Overlay) → overlay_bytes (without_overlay k os) ≤ overlay_bytes os
overlay_bytes-without_overlay k [] = omega arith
overlay_bytes-without_overlay k (o ∷ os) = ground (arith, overlay_bytes-without_overlay k os)

-- An overlay that is found leaves with its bytes.
length-found :
    (k : String) (os : List Overlay) (o : Overlay)
    → find? (λ p. p.id == k) os ≡ some o
    → suc (length (without_overlay k os)) ≤ length os
length-found k [] o e = cc
length-found k (p ∷ os) o e = elim (Bool-cases (p.id == k)) [
  | inl here ↦ rw here (ground (arith, length-without_overlay k os))
  | inr there ↦
      let e' : find? (λ q. q.id == k) os ≡ some o = rw there at e in
      rw there (ground (arith, length-found k os o e'))
]

overlay_bytes-found :
    (k : String) (os : List Overlay) (o : Overlay)
    → find? (λ p. p.id == k) os ≡ some o
    → o.serialized_bytes + overlay_bytes (without_overlay k os) ≤ overlay_bytes os
overlay_bytes-found k [] o e = cc
overlay_bytes-found k (p ∷ os) o e = elim (Bool-cases (p.id == k)) [
  | inl here ↦
      let e' : some p ≡ some o = rw here at e in
      let same : p ≡ o = cc in
      let bytes : p.serialized_bytes ≡ o.serialized_bytes = ap (λ q. q.serialized_bytes) same in
      rw here (ground (arith, overlay_bytes-without_overlay k os))
  | inr there ↦
      let e' : find? (λ q. q.id == k) os ≡ some o = rw there at e in
      rw there (ground (arith, overlay_bytes-found k os o e'))
]

result_bytes-append :
    (rs : List ResultRow) (r : ResultRow)
    → result_bytes (rs ++ r ∷ []) ≡ result_bytes rs + r.serialized_bytes
result_bytes-append [] r = omega arith
result_bytes-append (q ∷ rs) r = ground (arith, result_bytes-append rs r)

length-append_one : (rs : List ResultRow) (r : ResultRow) → length (rs ++ r ∷ []) ≡ suc (length rs)
length-append_one [] r = refl
length-append_one (q ∷ rs) r = ground (arith, length-append_one rs r)

settled-IsWithin : (k : String) (st : ApplicationState) → IsWithin st → IsWithin (settled k st)
settled-IsWithin k st h =
    let h0 = h.count in
    let h1 = h.bytes in
    record {
      count = ground (arith, length-without_overlay k st.overlays);
      bytes = ground (arith, overlay_bytes-without_overlay k st.overlays);
    }

-- A row put in for an overlay of as many bytes, and a row for which there is room.
replaced-IsWithin :
    (k : String) (st : ApplicationState) (row : ResultRow) (o : Overlay)
    → find? (λ p. p.id == k) st.overlays ≡ some o
    → row.serialized_bytes ≡ o.serialized_bytes
    → IsWithin st
    → IsWithin (settled k (record st { results = st.results ++ row ∷ [] }))
replaced-IsWithin k st row o e same h =
    let h0 = h.count in
    let h1 = h.bytes in
    let l = length-found k st.overlays o e in
    let b = overlay_bytes-found k st.overlays o e in
    let l' = length-append_one st.results row in
    let b' = result_bytes-append st.results row in
    record { count = omega arith; bytes = omega arith }

added-IsWithin :
    (k : String) (st : ApplicationState) (row : ResultRow)
    → suc (usage_count st) ≤ max_outstanding
    → usage_bytes st + row.serialized_bytes ≤ max_outstanding_bytes
    → IsWithin (settled k (record st { results = st.results ++ row ∷ [] }))
added-IsWithin k st row h0 h1 =
    let l = length-without_overlay k st.overlays in
    let b = overlay_bytes-without_overlay k st.overlays in
    let l' = length-append_one st.results row in
    let b' = result_bytes-append st.results row in
    record { count = omega arith; bytes = omega arith }

assert_outstanding_capacity-holds :
    (count bytes added : ℕ) {u : Unit {0}}
    → assert_outstanding_capacity count bytes added ≡ ok u
    → (suc count ≤ max_outstanding) × (bytes + added ≤ max_outstanding_bytes)
unfolding assert_outstanding_capacity
assert_outstanding_capacity-holds count bytes added e =
    let (u, _, e1) =
      bind-eq-ok
        (guard (is_safe count && is_safe bytes && is_safe added && leb 1 added) invalid_accounting)
        _ e in
    let (v, first, second) =
      bind-eq-ok (guard (leb (suc count) max_outstanding) command_capacity_exceeded) _ e1 in
    let a = guard-eq-ok _ _ first in let b = guard-eq-ok _ _ second in (ground arith, ground arith)

pub insert_result-eq-ok :
    (row : ResultRow) (st : ApplicationState)
    → WhenOk (λ st'. st' ≡ record st { results = st.results ++ row ∷ [] }) (insert_result row st)
unfolding insert_result
insert_result-eq-ok row st = WhenOk-guard _ (not (has_result st.results row.id)) _ _ (λ _.
    WhenOk-guard _ (leb 1 row.serialized_bytes && leb 1 row.actual_serialized_bytes) _ _
      (λ _. refl))

module _ (bytes : TerminalResult → ℕ) where
  persist_new-IsWithin :
      (prior : Option Overlay) (r : TerminalResult) (st : ApplicationState)
      → find? (λ o. o.id == r.command_id) st.overlays ≡ prior
      → IsWithin st
      → WhenOk IsWithin (persist_new bytes prior r st)
  unfolding persist_new
  persist_new-IsWithin (some o) r st e h =
      WhenOk-guard IsWithin (leb (bytes r) o.serialized_bytes) _ _ (λ _.
        WhenOk-bind IsWithin (insert_result (result_row r o.serialized_bytes (bytes r)) st) _
          (λ st' inserted.
            subst (λ s. IsWithin (settled r.command_id s))
              (sym (WhenOk-eq-ok _ _ (insert_result-eq-ok _ st) inserted))
              (replaced-IsWithin r.command_id st _ o e refl h)))
  persist_new-IsWithin none r st e h =
      WhenOk-bind IsWithin (reserved_outstanding_bytes (bytes r)) _ (λ reserved _.
        WhenOk-guard IsWithin (leb (bytes r) reserved) _ _ (λ _.
          WhenOk-bind IsWithin
            (assert_outstanding_capacity (usage_count st) (usage_bytes st) reserved) _
            (λ _ room.
              WhenOk-bind IsWithin (insert_result (result_row r reserved (bytes r)) st) _
                (λ st' inserted.
                  let space =
                    assert_outstanding_capacity-holds (usage_count st) (usage_bytes st) reserved
                      room in
                  subst (λ s. IsWithin (settled r.command_id s))
                    (sym (WhenOk-eq-ok _ _ (insert_result-eq-ok _ st) inserted))
                    (added-IsWithin r.command_id st _ space.0 space.1)))))

  persist_result-IsWithin :
      (r : TerminalResult) (st : ApplicationState)
      → IsWithin st
      → WhenOk IsWithin (persist_result bytes r st)
  unfolding persist_result
  persist_result-IsWithin r st h =
      elim (find? (λ row. row.id == r.command_id) st.results)
        as (λ o. WhenOk IsWithin (elim o [
          | none ↦ persist_new bytes (find? (λ o. o.id == r.command_id) st.overlays) r st
          | some row ↦
              guard (compatible row r) command_result_id_conflict >> ok (settled r.command_id st)
        ])) [
          | none ↦ persist_new-IsWithin _ r st refl h
          | some row ↦
              WhenOk-guard IsWithin (compatible row r) _ _ (λ _. settled-IsWithin r.command_id st h)
        ]

  WhenOk-persist_results :
      (rs : List TerminalResult) (st : ApplicationState)
      → IsWithin st
      → WhenOk IsWithin (persist_results bytes rs st)
  unfolding persist_results
  WhenOk-persist_results [] st h = h
  WhenOk-persist_results (r ∷ rs) st h =
      WhenOk-bind IsWithin (persist_result bytes r st) _ (λ st' e.
        WhenOk-persist_results rs st' (WhenOk-eq-ok IsWithin _ (persist_result-IsWithin r st h) e))

  -- If results and overlays are at most 64 and take at most 65536 bytes, so it is when
  -- `persistResults` has returned.
  pub persist_results-IsWithin :
      (rs : List TerminalResult) (st st' : ApplicationState)
      → IsWithin st
      → persist_results bytes rs st ≡ ok st'
      → IsWithin st'
  persist_results-IsWithin rs st st' h e =
      WhenOk-eq-ok IsWithin _ (WhenOk-persist_results rs st h) e
