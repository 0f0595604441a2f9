-- ===== src/Repository/Saving.antt =====
-- The methods `load` and `save` of http-journey-repository.ts. `json` is `JSON.stringify`. The
-- requests of a `Promise.all` are made one after the other, in the order of its list.
pub mod Commands
mod Keeping
pub mod Outcome
use trax_os.Common.{
  String, Bool, true, false, Option, none, some, List, [], ◌∷◌, ◌++◌, map, ◌==◌, if◌then◌else◌,
  Result, ok, err,
}
use trax_os.Common.JsMap
use trax_os.Common.Int.{ℤ, pos}
use trax_os.Common.Json.{
  Value, Values, no_values, item, Fields, no_fields, entry, object, text, elements, field,
}
use trax_os.Journeys.Domain.{Journey, JourneySegment, PackingItem, JourneyData}
use trax_os.Journeys.Stored.Encoding.{encode_int}
use trax_os.Repository.Errors.{CallError, repository, RepositoryError, repository_error}
use trax_os.Repository.Rows.{Read, journey_from, segment_from, packing_from}
use trax_os.Repository.Requests.{Request, journey_body, append_fields, status_text, update_payload}
use trax_os.Repository.Plan.{Call, request, journey_update, save_calls}
use trax_os.Repository.Actions.{
  Pending, JourneyRepository, Client, Run, Action, return, ◌>>=◌, ◌>>◌, this, put, call,
}

-- `items.map(rowFrom)`
abbrev pub rows : {A : Type 0} → (Value → Read A) → Values → Read (List A)
rows f no_values = ok []
rows f (item v vs) =
    let rest = rows f vs in
    elim (f v) [ err e ↦ err e | ok a ↦ elim rest [ err e ↦ err e | ok as' ↦ ok (a ∷ as') ] ]

-- what a reading of rows throws, beside what the client throws
abbrev pub rethrown : {A : Type 0} → Read A → Result CallError A
rethrown (ok a) = ok a
rethrown (err e) = err (repository e)

-- The client throws where an answer has another form than the contract says, so there are items.
abbrev pub items_of : Value → Values
items_of answer = elements (field answer "items")

pub record Details : Type 0 where
  pub segments : List JourneySegment
  pub packing : List PackingItem

abbrev pub all_segments : List Details → List JourneySegment
all_segments [] = []
all_segments (d ∷ ds) = d.segments ++ all_segments ds

abbrev pub all_packing : List Details → List PackingItem
all_packing [] = []
all_packing (d ∷ ds) = d.packing ++ all_packing ds

-- the type and the version of a command before its payload
abbrev pub command_fields : ℤ → Value → Fields
command_fields version payload =
    entry "command_type" (text "journey.update")
      (entry "command_version" (encode_int version) (entry "payload" payload no_fields))

module _ {A : Type 0} where
  -- `repositoryCall`
  abbrev pub mapped : Result CallError A → Result RepositoryError A
  mapped (ok a) = ok a
  mapped (err e) = err (repository_error e)

  abbrev pub repository_call : {S : Type 0} → Action CallError S A → Action RepositoryError S A
  repository_call m r s =
      let run = m r s in
      record { repository = run.repository; world = run.world; result = mapped run.result }

  -- a method that is called within another's `repositoryCall`
  abbrev pub nested : {S : Type 0} → Action RepositoryError S A → Action CallError S A
  nested m r s =
      let run = m r s in
      record { repository = run.repository; world = run.world; result = rethrown run.result }

module _ {S : Type 0} (server : Client S) where
  abbrev pub send : Request → Action CallError S Value
  send q = call (server.send q)

  unfoldable pub load_details : List Journey → Action CallError S (List Details)
  load_details [] = return (ok [])
  load_details (j ∷ js) = do
    segment_data ← send (Request.list_segments j.id)
    packing_data ← send (Request.list_packing j.id)
    segments ← return (rethrown (rows segment_from (items_of segment_data)))
    packing ← return (rethrown (rows packing_from (items_of packing_data)))
    details ← load_details js
    return (ok (record { segments = segments; packing = packing } ∷ details))

  unfoldable pub load_rows : Action CallError S JourneyData
  load_rows = do
    answer ← send Request.list_journeys
    journeys ← return (rethrown (rows journey_from (items_of answer)))
    details ← load_details journeys
    let loaded : JourneyData = record {
      journeys = journeys;
      segments = all_segments details;
      packing_items = all_packing details;
    }
    put (record { current = loaded; pending = [] })
    return (ok loaded)

  unfoldable pub load : Action RepositoryError S JourneyData
  load = repository_call load_rows

  -- `crypto.randomUUID()`, or the id of the same command before
  abbrev pub new_command_id : Action CallError S String
  new_command_id r s = let drawn = server.new_id s in return (ok drawn.1) r drawn.0

  abbrev pub command_id_for : Option Pending → (signature : String) → Action CallError S String
  command_id_for none signature = new_command_id
  command_id_for (some p) signature =
      if p.signature == signature then return (ok p.command_id) else new_command_id

  module _ (json : Value → String) where
    -- the body of an update, with its id put by for a retry
    unfoldable pub update_command : (old new : Journey) → (version : ℤ) → Action CallError S Value
    update_command old new version = do
      let payload = update_payload old new
      let signature = json (object (command_fields version payload))
      before ← this
      command_id ← command_id_for (JsMap.get before.pending new.id) signature
      let kept : Pending = record { command_id = command_id; signature = signature }
      put (record before { pending = (before.pending ++ (new.id, kept) ∷ []) })
      return (ok (object (entry "command_id" (text command_id) (command_fields version payload))))

    unfoldable pub perform : Call → Action CallError S (Unit {0})
    perform (request q) = do answer ← send q; return (ok tt)
    perform (journey_update old new) = do
      version ← call (server.command_version "journey.update")
      body ← update_command old new version
      answer ← send (Request.update_journey body)
      return (ok tt)

    unfoldable pub perform_all : List Call → Action CallError S (Unit {0})
    perform_all [] = return (ok tt)
    perform_all (c ∷ cs) = do perform c; perform_all cs

    unfoldable pub save : JourneyData → Action RepositoryError S JourneyData
    save next =
        repository_call
          do before ← this; perform_all (save_calls json before.current next); nested load
