-- ===== src/Harness/RateWindow/Bound.antt =====
-- The limit of `consumeCommandRateWindow` of command-server.ts.
use trax_os.Common.{
  ◌∙◌, ℕ, suc, ◌+◌, ◌≤◌, ◌<◌, false, some, List, [], ◌∷◌, ◌≡◌, refl, sym, ap, subst, ◌⊎◌, All, ltb,
  arith, Bool-cases, Option-cases, inl, inr,
}
use trax_os.Common.Finding.{find?-map}
use trax_os.Harness.Database.{Database}
use trax_os.Harness.Server.{Platform, Caller, lock_replica, replica_is_stale}
use trax_os.Harness.RateWindow.{
  counted_or, RateWindow, max_per_minute, minute, is_over, counted, window_of, count_request,
  RateOutcome, consume_command_rate_window, one_if, accepted_count, counted_or,
}

module _ (platform : Platform) (db : Database) (caller : Caller) where
  -- The window with one more request.
  abbrev once_more : RateWindow → RateWindow
  once_more w = record w {
    replica_epoch = caller.binding.replica_epoch;
    request_count = suc w.request_count;
  }

  counted-within :
      (t : ℕ) (w : RateWindow)
      → is_over t caller.binding.replica_epoch w ≡ false
      → counted t caller.binding.replica_epoch w ≡ once_more w
  counted-within t w h = rw h

  -- A request in a window of the caller's replica and epoch: it is turned away, or it is counted.
  abbrev Counts : RateWindow → List RateWindow → ℕ → List RateWindow × RateOutcome → Type 0
  Counts w windows t x =
      ((one_if platform db caller x.1 ≡ 0) × (x.0 ≡ windows))
      ⊎ ((one_if platform db caller x.1 ≡ 1)
          × (w.request_count < max_per_minute)
          × (window_of caller.binding.replica_id x.0 ≡ some (once_more w)))

  count_request-found :
      (t : ℕ) (windows : List RateWindow) (w : RateWindow)
      → window_of caller.binding.replica_id windows ≡ some w
      → is_over t caller.binding.replica_epoch w ≡ false
      → Counts w windows t (counted_or windows (count_request t caller.binding windows))
  unfolding count_request
  count_request-found t windows w found within =
      elim (Bool-cases (ltb w.request_count max_per_minute)) [
        | inl room ↦
            let kept =
              find?-map (λ v. v.replica_id) (counted t caller.binding.replica_epoch)
                caller.binding.replica_id windows w (λ v. refl) found
              ∙ ap some (counted-within t w within) in
            rw (count_request, found, within, room) (inr (refl, ground arith, kept))
        | inr full ↦ rw (count_request, found, within, full) (inl (refl, refl))
      ]

  consume-Counts :
      (t : ℕ) (windows : List RateWindow) (w : RateWindow)
      → window_of caller.binding.replica_id windows ≡ some w
      → is_over t caller.binding.replica_epoch w ≡ false
      → Counts w windows t (consume_command_rate_window platform t db caller windows)
  unfolding consume_command_rate_window
  consume-Counts t windows w found within = elim (Option-cases (lock_replica platform db caller)) [
    | inl absent ↦ rw (consume_command_rate_window, absent) (inl (refl, refl))
    | inr (row, locked) ↦ elim (Bool-cases (replica_is_stale platform row)) [
      | inl stale ↦ rw (consume_command_rate_window, locked, stale) (inl (refl, refl))
      | inr current ↦
          rw (consume_command_rate_window, locked, current)
            (count_request-found t windows w found within)
    ]
  ]

  -- In a window of the caller's replica and epoch that has at most 64 requests, at most so many more
  -- are accepted before its minute is over that they are 64 together.
  pub accepted_count-IsWithin :
      (ts : List ℕ) (windows : List RateWindow) (w : RateWindow)
      → window_of caller.binding.replica_id windows ≡ some w
      → w.replica_epoch ≡ caller.binding.replica_epoch
      → w.request_count ≤ max_per_minute
      → All (λ t. t < w.window_started_at + minute) ts
      → accepted_count platform db caller ts windows + w.request_count ≤ max_per_minute
  accepted_count-IsWithin [] windows w found epoch bound within = omega arith
  accepted_count-IsWithin (t ∷ ts) windows w found epoch bound (now, within) =
      let over : is_over t caller.binding.replica_epoch w ≡ false = ground arith in
      elim (consume-Counts t windows w found over) [
        | inl (nothing, same) ↦
            let rest = accepted_count-IsWithin ts windows w found epoch bound within in
            let rest' =
              subst
                (λ ws. accepted_count platform db caller ts ws + w.request_count ≤ max_per_minute)
                (sym same) rest in
            omega arith
        | inr (one, room, more) ↦
            let rest =
              accepted_count-IsWithin ts
                (consume_command_rate_window platform t db caller windows).0 (once_more w) more refl
                (omega arith) within in
            omega arith
      ]
