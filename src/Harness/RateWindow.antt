-- ===== src/Harness/RateWindow.antt =====
-- `consumeCommandRateWindow` of command-server.ts, on the table `ps8_command_rate_windows`. Times
-- are in milliseconds.
pub mod Bound
mod Tests
use trax_os.Common.{
  ℕ, zero, suc, ◌+◌, ◌≤◌, ◌<◌, String, Bool, true, false, not, ◌&&◌, ◌||◌, Option, none, some, List,
  [], ◌∷◌, ◌++◌, ◌==◌, ◌≡◌, refl, sym, subst, All, eqb, leb, ltb, map, find?, arith, Bool-cases,
  inl, inr, if◌then◌else◌,
}
use trax_os.Harness.Protocol.{Binding}
use trax_os.Harness.Database.{Database}
use trax_os.Harness.Server.{Platform, Caller, lock_replica, replica_is_stale}

pub record RateWindow : Type 0 where
  pub replica_id : String
  pub replica_epoch : ℕ
  pub window_started_at : ℕ
  pub request_count : ℕ

abbrev pub max_per_minute : ℕ
max_per_minute = 64

abbrev pub minute : ℕ
minute = 60000

-- the first two tests of the statement
abbrev pub is_over : ℕ → ℕ → RateWindow → Bool
is_over now epoch w = not (eqb w.replica_epoch epoch) || leb (w.window_started_at + minute) now

abbrev pub counted : ℕ → ℕ → RateWindow → RateWindow
counted now epoch w = record w {
  replica_epoch = epoch;
  window_started_at = if is_over now epoch w then now else w.window_started_at;
  request_count = if is_over now epoch w then 1 else suc w.request_count;
}

abbrev pub window_of : String → List RateWindow → Option RateWindow
window_of k = find? (λ w. w.replica_id == k)

-- the `INSERT … ON CONFLICT … DO UPDATE … WHERE`, which returns no row where the limit is reached
unfoldable pub count_request : ℕ → Binding → List RateWindow → Option (List RateWindow)
count_request now b windows = elim (window_of b.replica_id windows) [
  | none ↦ some (
      windows
      ++ (record {
        replica_id = b.replica_id;
        replica_epoch = b.replica_epoch;
        window_started_at = now;
        request_count = 1;
      })
        ∷ [])
  | some w ↦
      if is_over now b.replica_epoch w || ltb w.request_count max_per_minute
      then some (
          map (λ v. if v.replica_id == b.replica_id then counted now b.replica_epoch v else v)
            windows)
      else none
]

pub data RateOutcome : Type 0 where
  rate_accepted rate_invalid rate_stale rate_limited : RateOutcome

abbrev pub counted_or : List RateWindow → Option (List RateWindow) → List RateWindow × RateOutcome
counted_or windows none = (windows, rate_limited)
counted_or windows (some windows') = (windows', rate_accepted)

unfoldable pub consume_command_rate_window :
    Platform → ℕ → Database → Caller → List RateWindow → List RateWindow × RateOutcome
consume_command_rate_window platform now db caller windows =
    elim (lock_replica platform db caller) [
      | none ↦ (windows, rate_invalid)
      | some row ↦
          let answer = counted_or windows (count_request now caller.binding windows) in
          if replica_is_stale platform row then (windows, rate_stale) else answer
    ]

-- How many of the requests at some times are accepted, one after the other.
module _ (platform : Platform) (db : Database) (caller : Caller) where
  abbrev pub one_if : RateOutcome → ℕ
  one_if rate_accepted = 1
  one_if _ = 0

  abbrev pub accepted_count : List ℕ → List RateWindow → ℕ
  accepted_count [] windows = 0
  accepted_count (t ∷ ts) windows =
      let x = consume_command_rate_window platform t db caller windows in
      one_if x.1 + accepted_count ts x.0
