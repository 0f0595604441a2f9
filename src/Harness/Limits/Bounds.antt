-- ===== src/Harness/Limits/Bounds.antt =====
-- The limits that command-server.ts keeps.
use trax_os.Common.{
  ◌&&◌, not, subst, sym, ◌∙◌, ◌-◌, if◌then◌else◌, ap, ℕ, zero, suc, ◌≤◌, String, Bool, true, false,
  some, List, [], ◌∷◌, ◌++◌, ◌==◌, ◌≡◌, refl, All, length, leb, arith, Bool-cases, inl, inr,
}
use trax_os.Harness.Limits.{
  make_room, max_retained_keys, max_concurrent, has_attempt, drop_oldest, count_up,
  record_test_attempt, Slots, acquire_command_slot, release_at, is_held, release_slot,
}

abbrev pub AreFull : List (String × ℕ) → Type 0
AreFull = All (λ e. (e.0 == "") ≡ false)

length-count_up :
    (k : String) (entries : List (String × ℕ))
    → length (count_up k entries).0 ≤ suc (length entries)
length-count_up k [] = omega arith
length-count_up k ((j, n) ∷ entries) = ground (arith, length-count_up k entries)

length-count_up_known :
    (k : String) (entries : List (String × ℕ))
    → has_attempt k entries ≡ true
    → length (count_up k entries).0 ≡ length entries
length-count_up_known k [] h = cc
length-count_up_known k ((j, n) ∷ entries) h = ground (arith, length-count_up_known k entries)

drop_oldest-length :
    (entries : List (String × ℕ))
    → AreFull entries
    → length (drop_oldest entries) ≡ length entries - 1
drop_oldest-length [] h = refl
drop_oldest-length ((k, n) ∷ entries) (e, h) = ground arith

record_test_attempt-length :
    (k : String) (entries : List (String × ℕ))
    → AreFull entries
    → length entries ≤ max_retained_keys
    → length (record_test_attempt k entries).0 ≤ max_retained_keys
unfolding record_test_attempt
record_test_attempt-length k entries keys h = elim (Bool-cases (has_attempt k entries)) [
  | inl known ↦ let same = length-count_up_known k entries known in rw known (omega arith)
  | inr new ↦ elim (Bool-cases (leb max_retained_keys (length entries))) [
    | inl full ↦
        let shorter = drop_oldest-length entries keys in
        let longer = length-count_up k (drop_oldest entries) in rw (new, full) (omega arith)
    | inr room ↦
        let longer = length-count_up k entries in
        let below : length entries ≤ 1023 = ground arith in rw (new, room) (omega arith)
  ]
]

AreFull-count_up :
    (k : String) (entries : List (String × ℕ))
    → (k == "") ≡ false
    → AreFull entries
    → AreFull (count_up k entries).0
AreFull-count_up k [] e h = (e, tt)
AreFull-count_up k ((j, n) ∷ entries) e (f, h) = elim (Bool-cases (j == k)) [
  | inl same ↦ rw same (f, h)
  | inr other ↦ rw other (f, AreFull-count_up k entries e h)
]

AreFull-drop_oldest :
    (entries : List (String × ℕ)) → AreFull entries → AreFull (drop_oldest entries)
AreFull-drop_oldest [] h = tt
AreFull-drop_oldest ((k, n) ∷ entries) (e, h) = rw e h

AreFull-make_room :
    (k : String) (entries : List (String × ℕ)) → AreFull entries → AreFull (make_room k entries)
AreFull-make_room k entries h =
    elim (Bool-cases (not (has_attempt k entries) && leb max_retained_keys (length entries))) [
      | inl full ↦ rw full (AreFull-drop_oldest entries h)
      | inr room ↦ rw room h
    ]

-- `recordTestAttempt` for every key of a list
abbrev pub record_attempts : List String → List (String × ℕ) → List (String × ℕ)
record_attempts [] entries = entries
record_attempts (k ∷ ks) entries = record_attempts ks (record_test_attempt k entries).0

record_attempts-length_from :
    (ks : List String) (entries : List (String × ℕ))
    → All (λ k. (k == "") ≡ false) ks
    → AreFull entries
    → length entries ≤ max_retained_keys
    → length (record_attempts ks entries) ≤ max_retained_keys
unfolding record_test_attempt
record_attempts-length_from [] entries h keys bound = bound
record_attempts-length_from (k ∷ ks) entries (e, h) keys bound =
    record_attempts-length_from ks (record_test_attempt k entries).0 h
      (AreFull-count_up k (make_room k entries) e (AreFull-make_room k entries keys))
      (record_test_attempt-length k entries keys bound)

-- However many attempts `recordTestAttempt` records, under keys that are not empty, it retains at
-- most 1024 keys.
pub length-record_attempts :
    (ks : List String)
    → All (λ k. (k == "") ≡ false) ks
    → length (record_attempts ks []) ≤ max_retained_keys
length-record_attempts ks h = record_attempts-length_from ks [] h tt (omega arith)

abbrev pub held_count : List Bool → ℕ
held_count [] = 0
held_count (b ∷ bs) = let rest = held_count bs in if b then rest else suc rest

pub data SlotStep (s : Slots) : Slots → Type 0 where
  acquire : {s' : Slots} → acquire_command_slot s ≡ some s' → SlotStep s s'
  release : (i : ℕ) → SlotStep s (release_slot i s)

pub data SlotReach (s : Slots) : Slots → Type 0 where
  here : SlotReach s s
  next : {s' s'' : Slots} → SlotReach s s' → SlotStep s' s'' → SlotReach s s''

-- The count is that of the slots that are held, and at most 4.
pub record IsCounted (s : Slots) : Type 0 where
  pub exact : s.concurrent ≡ held_count s.released
  pub bound : s.concurrent ≤ max_concurrent

held_count-append : (bs : List Bool) → held_count (bs ++ false ∷ []) ≡ suc (held_count bs)
held_count-append [] = refl
held_count-append (b ∷ bs) = ground (arith, held_count-append bs)

held_count-release_at :
    (i : ℕ) (bs : List Bool)
    → is_held i bs ≡ true
    → suc (held_count (release_at i bs)) ≡ held_count bs
held_count-release_at i [] h = cc
held_count-release_at zero (b ∷ bs) h = ground arith
held_count-release_at (suc i) (b ∷ bs) h = ground (arith, held_count-release_at i bs)

acquire-IsCounted : (s s' : Slots) → IsCounted s → acquire_command_slot s ≡ some s' → IsCounted s'
unfolding acquire_command_slot
acquire-IsCounted s s' h e = elim (Bool-cases (leb max_concurrent s.concurrent)) [
  | inl full ↦ (let e' = rw full at e in cc)
  | inr free ↦
      let e' = rw free at e in
      let same : record { concurrent = suc s.concurrent; released = s.released ++ false ∷ [] }
          ≡ s' =
        cc in
      subst IsCounted same (record {
        exact = ap suc h.exact ∙ sym (held_count-append s.released);
        bound = ground arith;
      })
]

release-IsCounted : (i : ℕ) (s : Slots) → IsCounted s → IsCounted (release_slot i s)
unfolding release_slot
release-IsCounted i s h = elim (Bool-cases (is_held i s.released)) [
  | inl held ↦
      let fewer = held_count-release_at i s.released held in
      let exact = h.exact in
      let bound = h.bound in
      rw (release_slot, held) (record { exact = omega arith; bound = omega arith })
  | inr free ↦ rw (release_slot, free) h
]

-- However often and in whatever order slots are taken and released, also twice, the count is that of
-- the slots that are held, and at most 4.
pub SlotReach-IsCounted : (s s' : Slots) → IsCounted s → SlotReach s s' → IsCounted s'
SlotReach-IsCounted s s' h here = h
SlotReach-IsCounted s s'' h (next {s'} steps (acquire e)) =
    acquire-IsCounted s' s'' (SlotReach-IsCounted s s' h steps) e
SlotReach-IsCounted s _ h (next {s'} steps (release i)) =
    release-IsCounted i s' (SlotReach-IsCounted s s' h steps)
