-- ===== src/Harness/Rows.antt =====
-- The rows that `executeCommands` of command-server.ts selects, tests, updates and inserts. The
-- database's triggers are left out.
use trax_os.Common.{
  ℕ, suc, String, Bool, true, false, not, ◌||◌, ◌&&◌, Option, none, some, List, [], ◌∷◌, ◌++◌, ◌==◌,
  eqb, map, any, filter, is_some, Result, ok, err, ◌>>=◌, if◌then◌else◌,
}
use trax_os.Common.JsMap
use trax_os.Harness.Database.{Resource, Receipt, Event, Database, Thrown, duplicate_key, type_error}
use trax_os.Harness.Protocol.{
  Command, update, soft_delete, ResultCode, optimistic_conflict, stale_incarnation,
}
use trax_os.Harness.Server.{Platform, Caller, resource_ids, includes}

-- the rows of the query `resources WHERE id = ANY(ids)`
abbrev pub locked_resources : Database → List Command → List Resource
locked_resources db commands = filter (λ r. includes (resource_ids commands) r.id) db.resources

abbrev pub command_ids : List Command → List String
command_ids = map (λ c. c.command_id)

abbrev pub receipt_rows : Database → Caller → List Command → List Receipt
receipt_rows db caller commands =
    filter (λ r. r.user_id == caller.user_id && includes (command_ids commands) r.command_id)
      db.receipts

-- `byId` and `resources`: what a lookup that finds nothing throws when it is used
abbrev pub defined {ℓ} : {A : Type ℓ} → Option A → Result Thrown A
defined none = err type_error
defined (some a) = ok a

unfoldable pub receipt_of : List Receipt → Command → Result Thrown Receipt
receipt_of rows c = defined (JsMap.get (map (λ r. (r.command_id, r)) rows) c.command_id)

unfoldable pub resource_of : List Resource → Command → Result Thrown Resource
resource_of rows c = defined (JsMap.get (map (λ r. (r.id, r)) rows) c.resource_id)

-- `commands.some(...)` of a test of a command's resource
unfoldable pub some_resource :
    (Command → Resource → Bool) → List Resource → List Command → Result Thrown Bool
some_resource test rows [] = ok false
some_resource test rows (c ∷ cs) = do
  row ← resource_of rows c
  let later = some_resource test rows cs
  if test c row then ok true else later

abbrev pub other_incarnation : Command → Resource → Bool
other_incarnation c row = not (row.incarnation_id == c.resource_incarnation_id)

abbrev pub conflicts : Command → Resource → Bool
conflicts c row = is_some row.deleted_at || not (eqb row.version c.expected_record_version)

abbrev pub new_event : Caller → ℕ → Command → Event
new_event caller ordinal c = record {
  user_id = caller.user_id;
  command_id = c.command_id;
  resource_id = c.resource_id;
  event_ordinal = ordinal;
  event_type = c.kind;
  resulting_version = suc c.expected_record_version;
}

-- an `INSERT` that throws where an event of the command has the ordinal
unfoldable pub insert_event : Event → Database → Result Thrown Database
insert_event e db =
    if any
      (λ f.
        f.user_id == e.user_id
        && f.command_id == e.command_id
        && eqb f.event_ordinal e.event_ordinal)
      db.events
    then err duplicate_key
    else ok (record db { events = db.events ++ e ∷ [] })

abbrev pub conflict_code : Bool → ResultCode
conflict_code stale = if stale then stale_incarnation else optimistic_conflict

module _ (platform : Platform) where
  abbrev pub changed : Command → Resource → Resource
  changed c row = elim c.kind [
    | update ↦ record row { payload = c.payload; version = suc c.expected_record_version }
    | soft_delete ↦ record row {
      deleted_at = some platform.now;
      version = suc c.expected_record_version;
    }
  ]

  abbrev pub update_resource : Command → Database → Database
  update_resource c db = record db {
    resources = map (λ r. if r.id == c.resource_id then changed c r else r) db.resources;
  }
