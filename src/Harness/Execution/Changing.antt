-- ===== src/Harness/Execution/Changing.antt =====
-- What the two loops of `executeCommands` of command-server.ts change of resources and events, for
-- one command.
use trax_os.Common.{
  ℕ, ◌&&◌, ◌==◌, ◌++◌, List, [], ◌∷◌, ◌≡◌, refl, ◌∙◌, any, eqb, ok, err, WhenOk, WhenOk-bind,
  WhenOk-if, WhenOk-eq-ok,
}
use trax_os.Harness.Database.{Resource, Receipt, Database, duplicate_key}
use trax_os.Harness.Protocol.{Command, ResultCode}
use trax_os.Harness.Server.{Platform, Caller, has_key, insert_receipt}
use trax_os.Harness.Rows.{resource_of, insert_event, new_event, update_resource}
use trax_os.Harness.Execution.{store_conflicts, apply_commands}

-- Resources and events are as they were.
pub record IsUntouched (db db' : Database) : Type 0 where
  pub resources : db'.resources ≡ db.resources
  pub events : db'.events ≡ db.events

pub untouched : (db : Database) → IsUntouched db db
untouched db = record { resources = refl; events = refl }

pub insert_receipt-IsUntouched :
    (r : Receipt) (db : Database) → WhenOk (IsUntouched db) (insert_receipt r db)
unfolding insert_receipt
insert_receipt-IsUntouched r db =
    WhenOk-if (IsUntouched db) (any (has_key r) db.receipts) (err duplicate_key)
      (ok (record db { receipts = db.receipts ++ r ∷ [] })) tt
      (record { resources = refl; events = refl })

module _ (platform : Platform) (caller : Caller) (c : Command) where
  pub store_conflicts-IsUntouched :
      (attempt : ℕ) (code : ResultCode) (rows : List Resource) (db : Database)
      → WhenOk
          (λ x. IsUntouched db x.0)
          (store_conflicts platform caller attempt code rows (c ∷ []) db)
  unfolding store_conflicts
  store_conflicts-IsUntouched attempt code rows db =
      WhenOk-bind (λ x. IsUntouched db x.0) (resource_of rows c) _
        λ row _.
          WhenOk-bind (λ x. IsUntouched db x.0) (insert_receipt _ db) _
            λ db' inserted.
              WhenOk-eq-ok (IsUntouched db) _ (insert_receipt-IsUntouched _ db) inserted

  -- The one command is applied.
  pub record IsChanged (db db' : Database) : Type 0 where
    pub resources : db'.resources ≡ (update_resource platform c db).resources
    pub events : db'.events ≡ db.events ++ new_event caller 0 c ∷ []

  insert_event-IsChanged :
      (db : Database)
      → WhenOk (IsChanged db) (insert_event (new_event caller 0 c) (update_resource platform c db))
  unfolding insert_event
  insert_event-IsChanged db =
      WhenOk-if (IsChanged db)
        (any
          (λ f.
            f.user_id == caller.user_id && f.command_id == c.command_id && eqb f.event_ordinal 0)
          db.events)
        (err duplicate_key)
        (ok (record (update_resource platform c db) {
          events = db.events ++ new_event caller 0 c ∷ [];
        }))
        tt (record { resources = refl; events = refl })

  pub apply_commands-IsChanged :
      (attempt : ℕ) (db : Database)
      → WhenOk (λ x. IsChanged db x.0) (apply_commands platform caller attempt 0 (c ∷ []) db)
  unfolding apply_commands
  apply_commands-IsChanged attempt db =
      WhenOk-bind (λ x. IsChanged db x.0) (insert_event _ (update_resource platform c db)) _
        λ db1 event.
          WhenOk-bind (λ x. IsChanged db x.0) (insert_receipt _ db1) _
            λ db2 inserted.
              let changed = WhenOk-eq-ok (IsChanged db) _ (insert_event-IsChanged db) event in
              let kept =
                WhenOk-eq-ok (IsUntouched db1) _ (insert_receipt-IsUntouched _ db1) inserted in
              record {
                resources = kept.resources ∙ changed.resources;
                events = kept.events ∙ changed.events;
              }
