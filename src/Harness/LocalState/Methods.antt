-- ===== src/Harness/LocalState/Methods.antt =====
-- The methods of `ApplicationState` of client.ts other than `persistResults` keep the ids apart.
use trax_os.Common.{
  All-append, suc, ◌≤◌, String, Bool, false, not, ◌&&◌, ◌||◌, List, [], ◌∷◌, ◌==◌, ◌≡◌, ◌≢◌, refl,
  ◌∙◌, filter, any, map, leb, arith, WhenOk, WhenOk-bind, WhenOk-guard, WhenOk-eq-ok, eq_iff, All,
  All-filter, All-mono, DistinctBy-filter, DistinctBy-append, DistinctBy-map, Bool-cases, inl, inr,
}
use trax_os.Harness.LocalState.{
  ResultRow, Overlay, Attempts, ApplicationState, has_result, completed, without_overlay,
  mark_results_sdk_completed, insert_overlay, add_overlays, remove_overlays, clear_overlays,
  acknowledge_result, record_failure, record_transient_failure, clear_transient_failure,
}
use trax_os.Harness.LocalState.Invariant.{IsSound}

completed-id : (k : String) (r : ResultRow) → (completed k r).id ≡ r.id
completed-id k r = elim (Bool-cases (r.id == k)) [
  | inl here ↦ rw here refl
  | inr there ↦ rw there refl
]

has_result-completed :
    (k j : String) (rs : List ResultRow) → has_result (map (completed k) rs) j ≡ has_result rs j
unfolding has_result
has_result-completed k j [] = refl
has_result-completed k j (r ∷ rs) = rw (completed-id k r, has_result-completed k j rs)

pub mark-IsSound :
    (ks : List String) (st : ApplicationState)
    → IsSound st
    → WhenOk IsSound (mark_results_sdk_completed ks st)
unfolding mark_results_sdk_completed
mark-IsSound [] st h = h
mark-IsSound (k ∷ ks) st h = WhenOk-guard IsSound (has_result st.results k) _ _ (λ _.
    mark-IsSound ks (record st { results = map (completed k) st.results })
      (record {
        results = DistinctBy-map (λ r. r.id) (completed k) (completed-id k) st.results h.results;
        overlays = h.overlays;
        apart =
            All-mono _ _ (λ o e. has_result-completed k o.id st.results ∙ e) st.overlays h.apart;
        failures = h.failures;
      }))

overlays_ne :
    (k : String) (os : List Overlay) → any (λ p. p.id == k) os ≡ false → All (λ o. o.id ≢ k) os
overlays_ne k [] h = tt
overlays_ne k (o ∷ os) h = ((λ e. ground (arith, eq_iff o.id k)), overlays_ne k os (ground arith))

insert_overlay-IsSound :
    (o : Overlay) (st : ApplicationState)
    → has_result st.results o.id ≡ false
    → IsSound st
    → WhenOk IsSound (insert_overlay o st)
unfolding insert_overlay
insert_overlay-IsSound o st free h =
    WhenOk-guard IsSound (not (any (λ p. p.id == o.id) st.overlays)) _ _ (λ new.
      WhenOk-guard IsSound (leb 1 o.serialized_bytes && leb 1 o.actual_serialized_bytes) _ _ (λ _.
        record {
          results = h.results;
          overlays =
              DistinctBy-append (λ p. p.id) st.overlays o
                (overlays_ne o.id st.overlays (ground arith)) h.overlays;
          apart = All-append _ st.overlays (o ∷ []) h.apart (free, tt);
          failures = h.failures;
        }))

pub add_overlays-IsSound :
    (ids : List String) (os : List Overlay) (st : ApplicationState)
    → IsSound st
    → WhenOk IsSound (add_overlays ids os st)
unfolding add_overlays
add_overlays-IsSound ids [] st h = h
add_overlays-IsSound ids (o ∷ os) st h =
    WhenOk-guard IsSound (not (any (λ k. k == o.id) ids || has_result st.results o.id)) _ _ (λ free.
      WhenOk-bind IsSound (insert_overlay o st) _ (λ st' inserted.
        add_overlays-IsSound (o.id ∷ ids) os st'
          (WhenOk-eq-ok IsSound _ (insert_overlay-IsSound o st (ground arith) h) inserted)))

pub remove_overlays-IsSound :
    (ks : List String) (st : ApplicationState) → IsSound st → IsSound (remove_overlays ks st)
unfolding remove_overlays
remove_overlays-IsSound [] st h = h
remove_overlays-IsSound (k ∷ ks) st h =
    remove_overlays-IsSound ks (record st { overlays = without_overlay k st.overlays })
      (record {
        results = h.results;
        overlays = DistinctBy-filter (λ o. o.id) _ st.overlays h.overlays;
        apart = All-filter _ _ st.overlays h.apart;
        failures = h.failures;
      })

pub clear_overlays-IsSound : (st : ApplicationState) → IsSound st → IsSound (clear_overlays st)
unfolding clear_overlays
clear_overlays-IsSound st h = record {
  results = h.results;
  overlays = tt;
  apart = tt;
  failures = tt;
}

has_result-filter :
    (p : ResultRow → Bool) (k : String) (rs : List ResultRow)
    → has_result rs k ≡ false
    → has_result (filter p rs) k ≡ false
unfolding has_result
has_result-filter p k [] h = refl
has_result-filter p k (r ∷ rs) h = ground (arith, has_result-filter p k rs)

pub acknowledge_result-IsSound :
    (k : String) (st : ApplicationState) → IsSound st → IsSound (acknowledge_result k st).0
unfolding acknowledge_result
acknowledge_result-IsSound k st h = record {
  results = DistinctBy-filter (λ r. r.id) _ st.results h.results;
  overlays = h.overlays;
  apart = All-mono _ _ (λ o e. has_result-filter _ o.id st.results e) st.overlays h.apart;
  failures = h.failures;
}

abbrev AreCounted : List Attempts → Type 0
AreCounted = All (λ a. (1 ≤ a.failure_count) × (a.failure_count ≤ 5))

record_failure-AreCounted :
    (k : String) (rows : List Attempts)
    → AreCounted rows
    → WhenOk (λ x. AreCounted x.0) (record_failure k rows)
unfolding record_failure
record_failure-AreCounted k [] h = ((omega arith, omega arith), tt)
record_failure-AreCounted k (a ∷ rows) (b, h) = elim (Bool-cases (a.id == k)) [
  | inl here ↦ rw here (
      WhenOk-guard (λ x. AreCounted x.0) (leb (suc a.failure_count) 5) _ _
        (λ room. ((omega arith, ground arith), h)))
  | inr there ↦ rw there (
      WhenOk-bind (λ x. AreCounted x.0) (record_failure k rows) _
        (λ x e. (b, WhenOk-eq-ok (λ x. AreCounted x.0) _ (record_failure-AreCounted k rows h) e)))
]

pub record_transient_failure-IsSound :
    (k : String) (st : ApplicationState)
    → IsSound st
    → WhenOk (λ x. IsSound x.0) (record_transient_failure k st)
unfolding record_transient_failure
record_transient_failure-IsSound k st h =
    WhenOk-bind (λ x. IsSound x.0) (record_failure k st.attempts) _
      (λ x e. record {
        results = h.results;
        overlays = h.overlays;
        apart = h.apart;
        failures =
            WhenOk-eq-ok (λ x. AreCounted x.0) _
              (record_failure-AreCounted k st.attempts h.failures) e;
      })

pub clear_transient_failure-IsSound :
    (k : String) (st : ApplicationState) → IsSound st → IsSound (clear_transient_failure k st)
unfolding clear_transient_failure
clear_transient_failure-IsSound k st h = record {
  results = h.results;
  overlays = h.overlays;
  apart = h.apart;
  failures = All-filter _ _ st.attempts h.failures;
}
