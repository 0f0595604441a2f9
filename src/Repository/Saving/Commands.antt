-- ===== src/Repository/Saving/Commands.antt =====
-- Update commands that are made again after a failure.
use trax_os.Common.{
  String, true, false, Option, none, some, List, [], ◌∷◌, ◌≡◌, refl, sym, ◌∙◌, ◌==◌, if◌then◌else◌,
  All, eq_refl,
}
use trax_os.Common.{ok}
use trax_os.Common.JsMap
use trax_os.Common.Int.{ℤ}
use trax_os.Common.Json.{Value, object, text, entry}
use trax_os.Journeys.Domain.{Journey}
use trax_os.Repository.Errors.{CallError}
use trax_os.Repository.Plan.{Call, request, journey_update}
use trax_os.Repository.Actions.{Pending, JourneyRepository, Client, Run, return}
use trax_os.Repository.Saving.{
  command_fields, update_payload, new_command_id, command_id_for, update_command, perform_all,
}
use trax_os.Repository.Saving.Keeping.{Hides, perform_all-Keeps}

-- The calls other than an update of the journey `k`.
abbrev pub IsApart : String → Call → Type 0
IsApart k (request q) = Unit
IsApart k (journey_update old new) = (new.id == k) ≡ false

pending_of : String → JourneyRepository → Option Pending
pending_of k r = JsMap.get r.pending k

IsApart-Hides : (k : String) (cs : List Call) → All (IsApart k) cs → All (Hides (pending_of k)) cs
unfolding pending_of
IsApart-Hides k [] h = tt
IsApart-Hides k (request q ∷ cs) (a, h) = (tt, IsApart-Hides k cs h)
IsApart-Hides k (journey_update old new ∷ cs) (a, h) =
    ((λ r p. JsMap.get-append_other new.id k p r.pending a), IsApart-Hides k cs h)

module _ {S : Type 0} (server : Client S) (json : Value → String) where
  -- The body of a command, and the pending update that goes with it.
  command_of : ℤ → Value → String → Value
  command_of v payload c = object (entry "command_id" (text c) (command_fields v payload))

  signature_of : (old new : Journey) → ℤ → String
  signature_of old new v = json (object (command_fields v (update_payload old new)))

  command_id_for-returns :
      (p : Option Pending) (signature : String) (r : JourneyRepository) (s : S)
      → (c : String) × (s' : S) × (command_id_for server p signature r s
          ≡ record { repository = r; world = s'; result = ok c })
  command_id_for-returns none signature r s = (_, _, refl)
  command_id_for-returns (some p) signature r s =
      elim (p.signature == signature)
        as (λ b.
          (c : String) × (s' : S) × ((if b then return (ok p.command_id) else new_command_id server)
              r s
            ≡ record { repository = r; world = s'; result = ok c })) [
              | true ↦ (_, _, refl)
              | false ↦ (_, _, refl)
            ]

  -- An update puts by the id of the command that it returns.
  IsPutBy : (old new : Journey) → ℤ → Run CallError S Value → Type 0
  IsPutBy old new v run =
      (c : String) × (run.result ≡ ok (command_of v (update_payload old new) c))
      × (pending_of new.id run.repository
          ≡ some (record { command_id = c; signature = signature_of old new v }))

  update_command-IsPutBy :
      (old new : Journey) (v : ℤ) (r : JourneyRepository) (s : S)
      → IsPutBy old new v (update_command server json old new v r s)
  unfolding update_command IsPutBy command_of signature_of pending_of
  update_command-IsPutBy old new v r s =
      let signature = signature_of old new v in
      let (c, s', e) = command_id_for-returns (JsMap.get r.pending new.id) signature r s in
      (c, rw e refl, rw e (JsMap.get-append_self new.id _ r.pending))

  -- A pending update with the same signature is used again.
  update_command-reuse :
      (old new : Journey) (v : ℤ) (c : String) (r : JourneyRepository) (s : S)
      → pending_of new.id r ≡ some (record { command_id = c; signature = signature_of old new v })
      → let run = update_command server json old new v r s in
        (run.result ≡ ok (command_of v (update_payload old new) c)) × (run.world ≡ s)
  unfolding update_command command_of signature_of pending_of
  update_command-reuse old new v c r s h =
      rw (h, command_id_for, eq_refl (json (object (command_fields v (update_payload old new)))))
        (refl, refl)

  -- The update of a journey that is made again, after any other calls whatever they return, sends
  -- the body that it sent before, with the command id that it had, and draws no new id, provided
  -- that no call in between updates the journey.
  pub update_command-again :
      (old new : Journey) (v : ℤ) (r : JourneyRepository) (s : S) (cs : List Call) (w : S)
      → All (IsApart new.id) cs
      → let first = update_command server json old new v r s in
        let between = perform_all server json cs first.repository w in
        let again = update_command server json old new v between.repository between.world in
        (again.result ≡ first.result) × (again.world ≡ between.world)
  unfolding IsPutBy
  update_command-again old new v r s cs w h =
      let first = update_command server json old new v r s in
      let between = perform_all server json cs first.repository w in
      let (c, e, kept) = update_command-IsPutBy old new v r s in
      let still =
        perform_all-Keeps (pending_of new.id) server json cs (IsApart-Hides new.id cs h)
          first.repository w
        ∙ kept in
      let (body, drawn) = update_command-reuse old new v c between.repository between.world still in
      (body ∙ sym e, drawn)
