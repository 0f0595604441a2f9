-- ===== src/Repository/Saving/Keeping.antt =====
-- What the actions of http-journey-repository.ts leave as it was.
use trax_os.Common.{
  String, List, [], ◌∷◌, ◌≡◌, refl, ◌∙◌, Option, none, some, true, false, ◌==◌, if◌then◌else◌,
}
use trax_os.Common.{Result, ok, err}
use trax_os.Common.JsMap
use trax_os.Common.Json.{object, Value}
use trax_os.Journeys.Domain.{Journey}
use trax_os.Repository.Errors.{CallError}
use trax_os.Repository.Plan.{Call, request, journey_update}
use trax_os.Repository.Requests.{Request}
use trax_os.Repository.Rows.{segment_from, packing_from}
use trax_os.Common.{All}
use trax_os.Repository.Actions.{
  Pending, JourneyRepository, Client, Action, return, continue, ◌>>=◌, call,
}
use trax_os.Repository.Saving.{
  update_payload, command_fields, rows, items_of, command_fields, update_payload, send,
  load_details, new_command_id, command_id_for, update_command, perform, perform_all, rethrown,
}
use trax_os.Common.{◌++◌}
use trax_os.Common.Int.{ℤ}

-- The view `see` of the repository stays as it was, whatever the action returns.
abbrev pub Keeps : {E S A X : Type 0} → (JourneyRepository → X) → Action E S A → Type 0
Keeps {S = S} see m = (r : JourneyRepository) (s : S) → see (m r s).repository ≡ see r

-- the repository with one more pending update
abbrev pub with_pending : JourneyRepository → String → Pending → JourneyRepository
with_pending r k p = record r { pending = r.pending ++ (k, p) ∷ [] }

-- the calls whose pending update does not show in a view
abbrev pub Hides : {X : Type 0} → (JourneyRepository → X) → Call → Type 0
Hides see (request q) = Unit
Hides see (journey_update old new) =
    (r : JourneyRepository) (p : Pending) → see (with_pending r new.id p) ≡ see r

module _ {X : Type 0} (see : JourneyRepository → X) where
  module _ {E S : Type 0} where
    pub continue-Keeps :
        {A B : Type 0} (x : Result E A) (f : A → Action E S B)
        → ((a : A) → Keeps see (f a))
        → Keeps see (continue x f)
    continue-Keeps (ok a) f h r s = h a r s
    continue-Keeps (err e) f h r s = refl

    pub bind-Keeps :
        {A B : Type 0} (m : Action E S A) (f : A → Action E S B)
        → Keeps see m
        → ((a : A) → Keeps see (f a))
        → Keeps see (m >>= f)
    bind-Keeps m f k h r s =
        let run = m r s in continue-Keeps run.result f h run.repository run.world ∙ k r s

  module _ {S : Type 0} (server : Client S) where
    pub send-Keeps : (q : Request) → Keeps see (send server q)
    send-Keeps q r s = refl

    pub load_details-Keeps : (js : List Journey) → Keeps see (load_details server js)
    unfolding load_details
    load_details-Keeps [] = λ r s. refl
    load_details-Keeps (j ∷ js) =
        bind-Keeps (send server (Request.list_segments j.id)) _
          (send-Keeps (Request.list_segments j.id))
          λ a.
            bind-Keeps (send server (Request.list_packing j.id)) _
              (send-Keeps (Request.list_packing j.id))
              λ b. continue-Keeps (rethrown (rows segment_from (items_of a))) _ λ segments.
                continue-Keeps (rethrown (rows packing_from (items_of b))) _ λ packing.
                  bind-Keeps (load_details server js) _ (load_details-Keeps js)
                    λ details. λ r s. refl

    module _ (json : Value → String) where
      pub with_id-Keeps :
          {A : Type 0} (p : Option Pending) (signature : String) (f : String → Action CallError S A)
          (r : JourneyRepository) (s : S)
          → ((c : String) (s' : S) → see (f c r s').repository ≡ see r)
          → see ((command_id_for server p signature >>= f) r s).repository ≡ see r
      with_id-Keeps none signature f r s h = h _ _
      with_id-Keeps (some p) signature f r s h =
          elim (p.signature == signature)
            as (λ b.
              see
                (((if b then return (ok p.command_id) else new_command_id server) >>= f) r
                  s).repository
              ≡ see r) [ true ↦ h _ _ | false ↦ h _ _ ]

      update_command-Keeps :
          (old new : Journey) (v : ℤ)
          → Hides see (journey_update old new)
          → Keeps see (update_command server json old new v)
      unfolding update_command
      update_command-Keeps old new v h r s =
          let signature = json (object (command_fields v (update_payload old new))) in
          with_id-Keeps (JsMap.get r.pending new.id) signature _ r s (λ c s'. h r _)

      perform-Keeps : (c : Call) → Hides see c → Keeps see (perform server json c)
      unfolding perform
      perform-Keeps (request q) h = bind-Keeps (send server q) _ (send-Keeps q) λ a. λ r s. refl
      perform-Keeps (journey_update old new) h =
          bind-Keeps (call (server.command_version "journey.update")) _ (λ r s. refl)
            λ v.
              bind-Keeps (update_command server json old new v) _ (update_command-Keeps old new v h)
                λ body.
                  bind-Keeps (send server (Request.update_journey body)) _
                    (send-Keeps (Request.update_journey body)) λ a. λ r s. refl

      pub perform_all-Keeps :
          (cs : List Call) → All (Hides see) cs → Keeps see (perform_all server json cs)
      unfolding perform_all
      perform_all-Keeps [] h = λ r s. refl
      perform_all-Keeps (c ∷ cs) (h, hs) =
          bind-Keeps (perform server json c) _ (perform-Keeps c h) λ a. perform_all-Keeps cs hs
