-- ===== src/Harness/Limits/Tests.antt =====
-- Slots that are taken and given back, and recorded attempts.
use trax_os.Common.{arith, ◌≤◌, true, false, some, [], ◌∷◌, ◌≡◌, refl, length}
use trax_os.Harness.Limits.{
  Slots, acquire_command_slot, release_slot, record_test_attempt, max_retained_keys,
}
use trax_os.Harness.Limits.Bounds.{
  acquire, release, here, next, IsCounted, SlotReach-IsCounted, record_attempts,
  length-record_attempts,
}

abbrev idle : Slots
idle = record { concurrent = 0; released = [] }

abbrev busy : Slots
busy = record { concurrent = 1; released = false ∷ [] }

abbrev free_again : Slots
free_again = record { concurrent = 0; released = true ∷ [] }

runs_acquire : acquire_command_slot idle ≡ some busy
unfolding acquire_command_slot
runs_acquire = refl

-- Given back twice, a slot is free once.
runs_release : release_slot 0 (release_slot 0 busy) ≡ free_again
unfolding release_slot
runs_release = refl

runs_attempts : record_attempts ("a" ∷ "b" ∷ "a" ∷ []) [] ≡ ("a", 2) ∷ ("b", 1) ∷ []
unfolding record_test_attempt
runs_attempts = refl

idle-IsCounted : IsCounted idle
idle-IsCounted = record { exact = refl; bound = omega arith }

SlotReach-IsCounted_example : IsCounted (release_slot 0 busy)
SlotReach-IsCounted_example =
    SlotReach-IsCounted idle (release_slot 0 busy) idle-IsCounted
      (next (next here (acquire runs_acquire)) (release 0))

length-record_attempts_example :
    length (record_attempts ("a" ∷ "b" ∷ "a" ∷ []) []) ≤ max_retained_keys
length-record_attempts_example =
    length-record_attempts ("a" ∷ "b" ∷ "a" ∷ []) (refl, (refl, (refl, tt)))
