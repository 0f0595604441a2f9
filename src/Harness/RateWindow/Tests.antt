-- ===== src/Harness/RateWindow/Tests.antt =====
-- Requests of the sample's replica within a minute.
use trax_os.Common.{arith, ℕ, ◌+◌, ◌≤◌, [], ◌∷◌, ◌≡◌, refl}
use trax_os.Harness.Server.{lock_replica, credential_matches}
use trax_os.Harness.Tests.{platform, caller, replica_id, before}
use trax_os.Harness.RateWindow.{
  RateWindow, max_per_minute, rate_accepted, rate_limited, count_request,
  consume_command_rate_window, accepted_count,
}
use trax_os.Harness.RateWindow.Bound.{accepted_count-IsWithin}

abbrev window : ℕ → ℕ → RateWindow
window started count = record {
  replica_id = replica_id;
  replica_epoch = 2;
  window_started_at = started;
  request_count = count;
}

runs_limited :
    consume_command_rate_window platform 1500 before caller (window 1000 64 ∷ [])
    ≡ (window 1000 64 ∷ [], rate_limited)
unfolding consume_command_rate_window count_request lock_replica credential_matches
runs_limited = refl

runs_over :
    consume_command_rate_window platform 61000 before caller (window 1000 64 ∷ [])
    ≡ (window 61000 1 ∷ [], rate_accepted)
unfolding consume_command_rate_window count_request lock_replica credential_matches
runs_over = refl

accepted_count-IsWithin_example :
    accepted_count platform before caller (1500 ∷ 1600 ∷ 1700 ∷ []) (window 1000 62 ∷ []) + 62
    ≤ max_per_minute
accepted_count-IsWithin_example =
    accepted_count-IsWithin platform before caller (1500 ∷ 1600 ∷ 1700 ∷ []) (window 1000 62 ∷ [])
      (window 1000 62) refl refl (omega arith) (omega arith, (omega arith, (omega arith, tt)))
