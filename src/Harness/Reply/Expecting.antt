-- ===== src/Harness/Reply/Expecting.antt =====
-- The commands that `parseCommandResponse` of command-protocol.ts still expects.
use trax_os.Common.{
  if◌then◌else◌, ◌||◌, Option-cases, ◌∙◌, sym, subst, eq_iff, ◌≢◌, String, Bool, true, false,
  Option, none, some, List, [], ◌∷◌, ◌==◌, ◌≡◌, refl, any, arith, ok, Bool-cases, inl, inr,
}
use trax_os.Harness.Protocol.{Command}
use trax_os.Harness.Reply.{known, expected, forget}

expected-forget_self : (k : String) (cs : List Command) → expected (forget k cs) k ≡ none
expected-forget_self k [] = refl
expected-forget_self k (d ∷ cs) = ground (arith, expected-forget_self k cs)

expected-forget_other :
    (k j : String) (cs : List Command) → j ≢ k → expected (forget k cs) j ≡ expected cs j
expected-forget_other k j [] h = refl
expected-forget_other k j (d ∷ cs) h =
    ground (arith, expected-forget_other k j cs h, eq_iff d.command_id k, eq_iff d.command_id j)

-- An id that is still expected was expected before.
pub expected-forget :
    (k j : String) (cs : List Command) {c : Command}
    → expected (forget k cs) j ≡ some c
    → expected cs j ≡ some c
expected-forget k j cs {c} e = elim (Bool-cases (j == k)) [
  | inl same ↦
      let eq : j ≡ k = ground (arith, eq_iff j k) in
      let gone = expected-forget_self k cs in
      let e' = subst (λ i. expected (forget k cs) i ≡ some c) eq e in cc
  | inr apart ↦
      let ne : j ≢ k = λ eq. ground (arith, eq_iff j k) in sym (expected-forget_other k j cs ne) ∙ e
]

pub or_step :
    (a b c d : Bool) → (a || b) ≡ true → (b ≡ true → (c || d) ≡ true) → ((a || c) || d) ≡ true
or_step true b c d h k = refl
or_step false b c d h k = k h

abbrev pub has_id : String → List Command → Bool
has_id k = any (λ c. c.command_id == k)

-- A command is forgotten only by its id.
pub has_id-forget :
    (j k : String) (cs : List Command)
    → has_id k cs ≡ true
    → (j == k || has_id k (forget j cs)) ≡ true
has_id-forget j k [] h = cc
has_id-forget j k (d ∷ cs) h =
    ground (arith, has_id-forget j k cs, eq_iff d.command_id k, eq_iff d.command_id j, eq_iff j k)

pub known-eq-ok : (o : Option Command) {c : Command} → known o ≡ ok c → o ≡ some c
unfolding known
known-eq-ok none e = cc
known-eq-ok (some c) e = cc

pub expected-has_id :
    (j : String) (cs : List Command) {c : Command} → expected cs j ≡ some c → c.command_id ≡ j
expected-has_id j [] e = cc
expected-has_id j (d ∷ cs) {c} e = elim (Option-cases (expected cs j)) [
  | inl absent ↦
      let e' : (if d.command_id == j then some d else none) ≡ some c = rw absent at e in
      ground (arith, eq_iff d.command_id j)
  | inr (v, found) ↦
      let e' : some v ≡ some c = rw found at e in
      let same : v ≡ c = cc in subst (λ x. x.command_id ≡ j) same (expected-has_id j cs found)
]
