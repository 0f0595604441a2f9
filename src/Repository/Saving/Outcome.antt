-- ===== src/Repository/Saving/Outcome.antt =====
-- What load and save leave in the repository, on every answer of the server.
use trax_os.Common.{String, List, [], ◌∷◌, ◌≡◌, refl, ◌∙◌}
use trax_os.Common.{Result, ok, err}
use trax_os.Common.Json.{Value}
use trax_os.Journeys.Domain.{JourneyData}
use trax_os.Repository.Errors.{CallError, RepositoryError}
use trax_os.Repository.Plan.{Call, request, journey_update, save_calls}
use trax_os.Repository.Requests.{Request}
use trax_os.Repository.Rows.{journey_from}
use trax_os.Repository.Saving.Keeping.{
  Keeps, Hides, send-Keeps, load_details-Keeps, perform_all-Keeps,
}
use trax_os.Common.{All}
use trax_os.Repository.Actions.{
  this, JourneyRepository, Client, Run, Action, return, continue, ◌>>=◌, ◌>>◌,
}
use trax_os.Repository.Saving.{
  rows, items_of, send, load_details, load_rows, load, perform_all, save, repository_call, nested,
  mapped, rethrown,
}

-- The loaded data stays as it was.
abbrev KeepsCurrent : {E S A : Type 0} → Action E S A → Type 0
KeepsCurrent m = Keeps (λ r. r.current) m

abbrev IsSettled :
    {E : Type 0} → JourneyRepository → JourneyRepository → Result E JourneyData → Type 0
IsSettled r r' (ok d) = r' ≡ record { current = d; pending = [] }
IsSettled r r' (err e) = r'.current ≡ r.current

-- After a return the repository holds what was returned and no pending update; after an error it
-- holds what it held.
abbrev pub Settles : {E S : Type 0} → JourneyRepository → Run E S JourneyData → Type 0
Settles r run = IsSettled r run.repository run.result

module _ {E S : Type 0} where
  continue-Settles :
      (r₀ : JourneyRepository) {A : Type 0} (x : Result E A) (f : A → Action E S JourneyData)
      (r : JourneyRepository) (s : S)
      → r.current ≡ r₀.current
      → ((a : A) → Settles r₀ (f a r s))
      → Settles r₀ (continue x f r s)
  continue-Settles r₀ (ok a) f r s e h = h a
  continue-Settles r₀ (err x) f r s e h = e

  bind-Settles :
      (r₀ : JourneyRepository) {A : Type 0} (m : Action E S A) (f : A → Action E S JourneyData)
      → KeepsCurrent m
      → ((a : A) (r : JourneyRepository) (s : S) → r.current ≡ r₀.current → Settles r₀ (f a r s))
      → (r : JourneyRepository) (s : S) → r.current ≡ r₀.current
      → Settles r₀ ((m >>= f) r s)
  bind-Settles r₀ m f k h r s e =
      let run = m r s in
      let same = k r s ∙ e in
      continue-Settles r₀ run.result f run.repository run.world same
        (λ a. h a run.repository run.world same)

module _ {S : Type 0} (server : Client S) where
  load_rows-Settles :
      (r₀ r : JourneyRepository) (s : S)
      → r.current ≡ r₀.current
      → Settles r₀ (load_rows server r s)
  unfolding load_rows
  load_rows-Settles r₀ =
      bind-Settles r₀ (send server Request.list_journeys) _
        (send-Keeps (λ r. r.current) server Request.list_journeys)
        λ a.
          bind-Settles r₀ (return (rethrown (rows journey_from (items_of a)))) _ (λ r s. refl)
            λ journeys.
              bind-Settles r₀ (load_details server journeys) _
                (load_details-Keeps (λ r. r.current) server journeys) λ details r s e. refl

  repository_call-Settles :
      (r₀ : JourneyRepository) (m : Action CallError S JourneyData) (r : JourneyRepository) (s : S)
      → Settles r₀ (m r s)
      → Settles r₀ (repository_call m r s)
  repository_call-Settles r₀ m r s h =
      let run = m r s in
      elim run.result
          as (λ x. IsSettled r₀ run.repository x → IsSettled r₀ run.repository (mapped x)) [
            | ok d ↦ λ h. h
            | err e ↦ λ h. h
          ]
        h

  nested-Settles :
      (r₀ : JourneyRepository) (m : Action RepositoryError S JourneyData) (r : JourneyRepository)
      (s : S)
      → Settles r₀ (m r s)
      → Settles r₀ (nested m r s)
  nested-Settles r₀ m r s h =
      let run = m r s in
      elim run.result
          as (λ x. IsSettled r₀ run.repository x → IsSettled r₀ run.repository (rethrown x)) [
            | ok d ↦ λ h. h
            | err e ↦ λ h. h
          ]
        h

  load-Settles :
      (r₀ r : JourneyRepository) (s : S) → r.current ≡ r₀.current → Settles r₀ (load server r s)
  unfolding load
  load-Settles r₀ r s e =
      repository_call-Settles r₀ (load_rows server) r s (load_rows-Settles r₀ r s e)

  module _ (json : Value → String) where
    always-Hides : (cs : List Call) → All (Hides (λ r. r.current)) cs
    always-Hides [] = tt
    always-Hides (request q ∷ cs) = (tt, always-Hides cs)
    always-Hides (journey_update old new ∷ cs) = ((λ r p. refl), always-Hides cs)

    -- After a save that returns, the repository holds the data that it returned and no pending
    -- update; after a save that fails, at whichever request, it holds the data that it held.
    pub save-Settles :
        (next : JourneyData) (r : JourneyRepository) (s : S) → Settles r (save server json next r s)
    unfolding save
    save-Settles next r s =
        repository_call-Settles r
          (this >>= λ before.
            perform_all server json (save_calls json before.current next) >> nested (load server))
          r s
          (bind-Settles r (perform_all server json (save_calls json r.current next))
            (λ _. nested (load server))
            (perform_all-Keeps (λ r. r.current) server json (save_calls json r.current next)
              (always-Hides _))
            (λ a r' s' e. nested-Settles r (load server) r' s' (load-Settles r r' s' e)) r s refl)
