-- ===== src/Harness/Limits.antt =====
-- What command-server.ts keeps in memory to limit its requests: the keys retained for tests, in the
-- order of a `Map` or `Set`, and the slots of concurrent requests. `released` has the flag of every
-- slot that was given.
pub mod Bounds
mod Tests
use trax_os.Common.{
  ℕ, zero, suc, ◌-◌, String, Bool, true, false, not, ◌&&◌, Option, none, some, List, [], ◌∷◌, ◌++◌,
  ◌==◌, leb, any, filter, map, length, if◌then◌else◌,
}

abbrev pub max_retained_keys : ℕ
max_retained_keys = 1024

abbrev pub max_concurrent : ℕ
max_concurrent = 4

abbrev pub has_attempt : String → List (String × ℕ) → Bool
has_attempt k = any (λ e. e.0 == k)

-- `delete(oldest)`, if there is one and it is not empty
abbrev pub drop_oldest : List (String × ℕ) → List (String × ℕ)
drop_oldest [] = []
drop_oldest ((k, n) ∷ entries) = if k == "" then (k, n) ∷ entries else entries

abbrev pub make_room : String → List (String × ℕ) → List (String × ℕ)
make_room k entries =
    if not (has_attempt k entries) && leb max_retained_keys (length entries)
    then drop_oldest entries
    else entries

-- `set(key, (get(key) ?? 0) + 1)`, with the number
abbrev pub count_up : String → List (String × ℕ) → List (String × ℕ) × ℕ
count_up k [] = ((k, 1) ∷ [], 1)
count_up k ((j, n) ∷ entries) =
    let later = count_up k entries in
    if j == k then ((j, suc n) ∷ entries, suc n) else ((j, n) ∷ later.0, later.1)

-- `recordTestAttempt`
unfoldable pub record_test_attempt : String → List (String × ℕ) → List (String × ℕ) × ℕ
record_test_attempt k entries = count_up k (make_room k entries)

pub record Slots : Type 0 where
  pub concurrent : ℕ
  pub released : List Bool

-- `acquireCommandSlot`
unfoldable pub acquire_command_slot : Slots → Option Slots
acquire_command_slot s =
    if leb max_concurrent s.concurrent
    then none
    else some (record { concurrent = suc s.concurrent; released = s.released ++ false ∷ [] })

-- the function that it returns, of the slot with a number
abbrev pub release_at : ℕ → List Bool → List Bool
release_at i [] = []
release_at zero (b ∷ bs) = true ∷ bs
release_at (suc i) (b ∷ bs) = b ∷ release_at i bs

abbrev pub is_held : ℕ → List Bool → Bool
is_held i [] = false
is_held zero (b ∷ bs) = not b
is_held (suc i) (b ∷ bs) = is_held i bs

unfoldable pub release_slot : ℕ → Slots → Slots
release_slot i s =
    if is_held i s.released
    then record { concurrent = s.concurrent - 1; released = release_at i s.released }
    else s
