-- ===== src/Harness/Execution/Storing.antt =====
-- What the first run of one command stores: a receipt that matches the command.
use trax_os.Common.{
  subst, Option-cases, some, map, Bool, Option, String, All, ℕ, suc, true, false, ◌&&◌, ◌==◌, ◌++◌,
  List, [], ◌∷◌, ◌≡◌, refl, ap, ◌∙◌, any, eqb, ok, err, WhenOk, WhenOk-bind, WhenOk-if,
  WhenOk-eq-ok, Bool-cases, none, inl, inr, arith, eq_refl,
}
use trax_os.Harness.Database.{Resource, Receipt, Database, duplicate_key}
use trax_os.Harness.Protocol.{
  Command, CommandResult, ResultState, ResultCode, conflict, command_digest,
}
use trax_os.Harness.Server.{
  Platform, Caller, has_key, mismatch, new_receipt, insert_receipt, result_from_receipt,
}
use trax_os.Harness.Envelope.{is_positive_safe}
use trax_os.Harness.Reply.Accepted.{is_consistent}
use trax_os.Common.JsMap
use trax_os.Harness.Rows.{defined, resource_of, insert_event, new_event, update_resource}
use trax_os.Harness.Execution.{conflict_code, store_conflicts, apply_commands}

-- The receipt has a state that goes with its code, and versions that are positive safe integers.
pub record IsReportable (r : Receipt) : Type 0 where
  pub consistent : is_consistent r.result_state r.result_code ≡ true
  pub previous : is_positive_safe r.previous_version ≡ true
  pub current : is_positive_safe r.current_version ≡ true

-- Every version that is stored with a resource is a positive safe integer.
abbrev pub AreSafe : List Resource → Type 0
AreSafe rows = All (λ (row : Resource). is_positive_safe row.version ≡ true) rows

-- So are the version that the command expects, the one after it, and those of all resources.
pub record IsSafe (c : Command) (db : Database) : Type 0 where
  pub expected : is_positive_safe c.expected_record_version ≡ true
  pub after : is_positive_safe (suc c.expected_record_version) ≡ true
  pub resources : AreSafe db.resources

found-safe :
    (rows : List Resource) (k : String) (row : Resource)
    → JsMap.get (map (λ r. (r.id, r)) rows) k ≡ some row
    → AreSafe rows
    → is_positive_safe row.version ≡ true
found-safe [] k row e h = cc
found-safe (r ∷ rows) k row e (safe, h) =
    elim (Option-cases (JsMap.get (map (λ r. (r.id, r)) rows) k)) [
      | inl f ↦ elim (Bool-cases (r.id == k)) [
        | inl same ↦
            let e' : (let o : Option Resource = some r in o) ≡ some row = rw (f, same) at e in
            subst
              (λ (o : Option Resource). elim o [
                | none ↦ Unit
                | some q ↦ is_positive_safe q.version ≡ true
              ])
              e' safe
        | inr other ↦
            let e' : (let o : Option Resource = none in o) ≡ some row = rw (f, other) at e in cc e'
      ]
      | inr (q, f) ↦
          let e' : (let o : Option Resource = some q in o) ≡ some row = rw f at e in
          found-safe rows k row (f ∙ e') h
    ]

defined-eq-ok : {A : Type 0} (o : Option A) (a : A) → defined o ≡ ok a → o ≡ some a
defined-eq-ok none a e = cc
defined-eq-ok (some b) a e = cc

resource_of-safe :
    (rows : List Resource) (c : Command) (row : Resource)
    → resource_of rows c ≡ ok row
    → AreSafe rows
    → is_positive_safe row.version ≡ true
unfolding resource_of
resource_of-safe rows c row e h = found-safe rows c.resource_id row (defined-eq-ok _ row e) h

pub conflict_code-consistent : (stale : Bool) → is_consistent conflict (conflict_code stale) ≡ true
conflict_code-consistent false = refl
conflict_code-consistent true = refl

eqb_refl : (n : ℕ) → eqb n n ≡ true
eqb_refl n = ground arith

module _ (platform : Platform) (caller : Caller) (c : Command) where
  -- An insertion that returns appends the receipt.
  insert_receipt-eq-ok :
      (r : Receipt) (db db' : Database)
      → insert_receipt r db ≡ ok db'
      → db'.receipts ≡ db.receipts ++ r ∷ []
  unfolding insert_receipt
  insert_receipt-eq-ok r db db' e = elim (Bool-cases (any (has_key r) db.receipts)) [
    | inl taken ↦ let e' = rw taken at e in cc e'
    | inr free ↦ let e' = rw free at e in ground arith
  ]

  pub new_receipt-matches :
      (state : ResultState) (code : ResultCode) (previous current : ℕ)
      → mismatch platform caller c (new_receipt platform caller c state code previous current)
        ≡ false
  unfolding mismatch
  new_receipt-matches state code previous current = ground (
    arith,
    eq_refl caller.binding.replica_id,
    eq_refl c.resource_id,
    eq_refl (command_digest platform.hash c caller.binding),
    eqb_refl caller.binding.replica_epoch,
  )

  -- What the first run of a command stores and answers.
  pub record IsStored (db db' : Database) (attempt : ℕ) (rs : List CommandResult) : Type 0 where
    pub state : ResultState
    pub code : ResultCode
    pub previous : ℕ
    pub current : ℕ
    pub receipts :
        db'.receipts ≡ db.receipts ++ new_receipt platform caller c state code previous current ∷ []
    pub reportable :
        IsSafe c db → IsReportable (new_receipt platform caller c state code previous current)
    pub answer :
        rs
        ≡ result_from_receipt
            (new_receipt platform caller c state code previous current)
            attempt
            false
          ∷ []

  insert_event-receipts :
      (ordinal : ℕ) (db : Database)
      → WhenOk (λ d. d.receipts ≡ db.receipts) (insert_event (new_event caller ordinal c) db)
  unfolding insert_event
  insert_event-receipts ordinal db =
      WhenOk-if (λ (d : Database). d.receipts ≡ db.receipts)
        (any
          (λ f.
            f.user_id == caller.user_id
            && f.command_id == c.command_id
            && eqb f.event_ordinal ordinal)
          db.events)
        (err duplicate_key)
        (ok (record db { events = db.events ++ new_event caller ordinal c ∷ [] })) tt refl

  abbrev pub Stored : Database → ℕ → Database × List CommandResult → Type 0
  Stored db attempt x = IsStored db x.0 attempt x.1

  pub store_conflicts-Stored :
      (attempt : ℕ) (code : ResultCode) (rows : List Resource) (db : Database)
      → is_consistent conflict code ≡ true
      → (AreSafe db.resources → AreSafe rows)
      → WhenOk (Stored db attempt) (store_conflicts platform caller attempt code rows (c ∷ []) db)
  unfolding store_conflicts
  store_conflicts-Stored attempt code rows db goes kept =
      WhenOk-bind (Stored db attempt) (resource_of rows c) _ λ row found.
        WhenOk-bind (Stored db attempt) (insert_receipt _ db) _ λ db' inserted. record {
          state = conflict;
          code = code;
          previous = c.expected_record_version;
          current = row.version;
          reportable = λ safe. record {
            consistent = goes;
            previous = safe.expected;
            current = resource_of-safe rows c row found (kept safe.resources);
          };
          receipts = insert_receipt-eq-ok _ db db' inserted;
          answer = refl;
        }

  pub apply_commands-Stored :
      (attempt : ℕ) (db : Database)
      → WhenOk (Stored db attempt) (apply_commands platform caller attempt 0 (c ∷ []) db)
  unfolding apply_commands
  apply_commands-Stored attempt db =
      WhenOk-bind (Stored db attempt) (insert_event _ (update_resource platform c db)) _
        λ db1 event. WhenOk-bind (Stored db attempt) (insert_receipt _ db1) _ λ db2 inserted.
          record {
            state = ResultState.applied;
            code = ResultCode.applied;
            previous = c.expected_record_version;
            current = suc c.expected_record_version;
            reportable = λ safe. record {
              consistent = refl;
              previous = safe.expected;
              current = safe.after;
            };
            receipts =
                insert_receipt-eq-ok _ db1 db2 inserted
                ∙ ap
                    (λ l.
                      l
                      ++ new_receipt platform caller c ResultState.applied ResultCode.applied
                          c.expected_record_version (suc c.expected_record_version)
                        ∷ [])
                    (WhenOk-eq-ok _ _ (insert_event-receipts 0 (update_resource platform c db))
                      event);
            answer = refl;
          }
