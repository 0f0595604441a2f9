-- ===== src/Harness/Execution/Applying.antt =====
-- When `executeCommands` changes a resource.
use trax_os.Common.{
  Bool-cases, ℕ, Bool, true, false, ◌++◌, Option, none, some, List, [], ◌∷◌, ◌≡◌, refl, subst, any,
  eqb, length, ok, WhenOk, WhenOk-bind, WhenOk-if, WhenOk-mono, WhenOk-eq-ok, bind-eq-ok, inl, inr,
  arith, if◌then◌else◌, eq_iff, ◌⊎◌,
}
use trax_os.Harness.Database.{Resource, Receipt, Database, Response}
use trax_os.Harness.Protocol.{Command, CommandResult, denied, command_denied}
use trax_os.Harness.Server.{
  Platform, Caller, has_key, mismatch, denial, execute_denied, record_denial, find_receipt,
  new_receipt,
}
use trax_os.Harness.Rows.{
  locked_resources, receipt_rows, resource_of, new_event, update_resource, some_resource,
  other_incarnation, conflicts,
}
use trax_os.Harness.Execution.Admission.{IsAdmitted, execute_admitted, execute_commands-cases}
use trax_os.Harness.Execution.{
  check_receipts, replayed_results, answer_replay, execute_replay, execute_tested, execute_new,
  execute_commands,
}
use trax_os.Harness.Execution.Changing.{
  IsUntouched, IsChanged, untouched, store_conflicts-IsUntouched, apply_commands-IsChanged,
}

module _ (platform : Platform) (caller : Caller) (c : Command) where
  -- The command's resource is of the named incarnation, is not deleted and has the expected version;
  -- no receipt of the command was stored; the resource is changed, and one event is recorded.
  pub record IsApplied (db db' : Database) : Type 0 where
    pub first : receipt_rows db caller (c ∷ []) ≡ []
    pub row : Resource
    pub found : resource_of (locked_resources db (c ∷ [])) c ≡ ok row
    pub incarnation : row.incarnation_id ≡ c.resource_incarnation_id
    pub alive : row.deleted_at ≡ none
    pub version : row.version ≡ c.expected_record_version
    pub resources : db'.resources ≡ (update_resource platform c db).resources
    pub events : db'.events ≡ db.events ++ new_event caller 0 c ∷ []

  abbrev Outcome : Database → Database → Type 0
  Outcome db db' = IsUntouched db db' ⊎ IsApplied db db'

  -- A test of the one command's resource.
  some_resource-one :
      (test : Command → Resource → Bool) (rows : List Resource) (b : Bool)
      → some_resource test rows (c ∷ []) ≡ ok b
      → (row : Resource) × (resource_of rows c ≡ ok row) × (test c row ≡ b)
  unfolding some_resource
  some_resource-one test rows b e =
      let (row, found, e') = bind-eq-ok (resource_of rows c) _ e in (row, found, ground arith)

  checks_pass :
      (row : Resource)
      → other_incarnation c row ≡ false
      → conflicts c row ≡ false
      → (row.incarnation_id ≡ c.resource_incarnation_id)
        × (row.deleted_at ≡ none)
        × (row.version ≡ c.expected_record_version)
  checks_pass row same free = (
    ground (arith, eq_iff row.incarnation_id c.resource_incarnation_id),
    ground arith,
    ground arith,
  )

  execute_new-Outcome :
      (attempt : ℕ) (db : Database)
      → receipt_rows db caller (c ∷ []) ≡ []
      → WhenOk
          (λ x. Outcome db x.0)
          (execute_new platform db caller (c ∷ []) attempt (locked_resources db (c ∷ [])))
  unfolding execute_new execute_tested
  execute_new-Outcome attempt db first =
      let rows = locked_resources db (c ∷ []) in
      WhenOk-bind (λ x. Outcome db x.0) (some_resource other_incarnation rows (c ∷ [])) _
        λ stale e.
          WhenOk-bind (λ x. Outcome db x.0)
            (if stale then ok false else some_resource conflicts rows (c ∷ [])) _
            λ conflicting f.
              WhenOk-bind (λ x. Outcome db x.0)
                (execute_tested platform db caller (c ∷ []) attempt rows stale conflicting) _
                λ stored g. decided stale conflicting stored e f g
    where
      decided :
          (stale conflicting : Bool) (stored : Database × List CommandResult)
          → some_resource other_incarnation (locked_resources db (c ∷ [])) (c ∷ []) ≡ ok stale
          → (if stale
              then ok false
              else some_resource conflicts (locked_resources db (c ∷ [])) (c ∷ []))
            ≡ ok conflicting
          → execute_tested platform db caller
              (c ∷ [])
              attempt
              (locked_resources db (c ∷ []))
              stale
              conflicting
            ≡ ok stored
          → Outcome db stored.0
      decided true b stored e f g = inl (
          WhenOk-eq-ok (λ x. IsUntouched db x.0) _
            (store_conflicts-IsUntouched platform caller c attempt _ _ db) g)
      decided false true stored e f g = inl (
          WhenOk-eq-ok (λ x. IsUntouched db x.0) _
            (store_conflicts-IsUntouched platform caller c attempt _ _ db) g)
      decided false false stored e f g =
          let (row, found, same) = some_resource-one other_incarnation _ false e in
          let (row', found', free) = some_resource-one conflicts _ false f in
          let equal : row' ≡ row = ground arith in
          let checked = checks_pass row same (subst (λ r. conflicts c r ≡ false) equal free) in
          let changed =
            WhenOk-eq-ok (λ x. IsChanged platform caller c db x.0) _
              (apply_commands-IsChanged platform caller c attempt db) g in
          inr (record {
            first = first;
            row = row;
            found = found;
            incarnation = checked.0;
            alive = checked.1;
            version = checked.2;
            resources = changed.resources;
            events = changed.events;
          })

  answer_replay-IsUntouched :
      (attempt : ℕ) (db : Database) (rows : List Receipt) (same : Bool)
      → WhenOk (λ x. Outcome db x.0) (answer_replay db (c ∷ []) attempt rows same)
  unfolding answer_replay
  answer_replay-IsUntouched attempt db rows false = inl (untouched db)
  answer_replay-IsUntouched attempt db rows true =
      WhenOk-bind (λ x. Outcome db x.0) (replayed_results rows attempt (c ∷ [])) _
        λ rs _. inl (untouched db)

  execute_admitted-Outcome :
      (attempt : ℕ) (db : Database) (rows : List Receipt)
      → receipt_rows db caller (c ∷ []) ≡ rows
      → WhenOk (λ x. Outcome db x.0) (execute_admitted platform db caller (c ∷ []) attempt rows)
  unfolding execute_replay
  execute_admitted-Outcome attempt db [] e = execute_new-Outcome attempt db e
  execute_admitted-Outcome attempt db (r ∷ rows) e =
      WhenOk-if (λ x. Outcome db x.0) (eqb (length (r ∷ rows)) 1) _ _
        (WhenOk-bind (λ x. Outcome db x.0) (check_receipts platform caller (r ∷ rows) (c ∷ [])) _
          λ same _. answer_replay-IsUntouched attempt db (r ∷ rows) same)
        (inl (untouched db))

  record_denial-IsUntouched : (db : Database) → IsUntouched db (record_denial platform db caller c)
  unfolding record_denial
  record_denial-IsUntouched db =
      let r =
        new_receipt platform caller c denied command_denied c.expected_record_version
          c.expected_record_version in
      elim (Bool-cases (any (has_key r) db.receipts)) [
        | inl taken ↦ rw taken (untouched db)
        | inr free ↦ rw free (record { resources = refl; events = refl })
      ]

  denial-IsUntouched :
      (db after : Database) (attempt : ℕ) (o : Option Receipt)
      → IsUntouched db after
      → WhenOk (λ x. IsUntouched db x.0) (denial platform db after attempt caller c o)
  denial-IsUntouched db after attempt none h = untouched db
  denial-IsUntouched db after attempt (some r) h =
      WhenOk-if (λ x. IsUntouched db x.0) (mismatch platform caller c r) _ _ (untouched db) h

  execute_denied-IsUntouched :
      (db : Database) (attempt : ℕ)
      → WhenOk (λ x. IsUntouched db x.0) (execute_denied platform db caller (c ∷ []) attempt)
  unfolding execute_denied
  execute_denied-IsUntouched db attempt =
      let after = record_denial platform db caller c in
      elim (find_receipt db caller c.command_id)
        as (λ o.
          WhenOk (λ x. IsUntouched db x.0)
            (elim o [
              | none ↦
                  denial platform db after attempt caller c (find_receipt after caller c.command_id)
              | some r ↦ denial platform db db attempt caller c (some r)
            ])) [
              | none ↦ denial-IsUntouched db after attempt _ (record_denial-IsUntouched db)
              | some r ↦ denial-IsUntouched db db attempt (some r) (untouched db)
            ]

  -- A request for one command that returns changes no resource and records no event, or it applies
  -- the command: then the command is admitted and new, and its resource is alive, of the named
  -- incarnation and of the expected version.
  pub execute_commands-applies :
      (db db' : Database) (attempt : ℕ) (response : Response)
      → execute_commands platform db caller (c ∷ []) attempt ≡ ok (db', response)
      → IsUntouched db db' ⊎ (IsAdmitted platform db caller (c ∷ []) × IsApplied db db')
  execute_commands-applies db db' attempt response e =
      WhenOk-eq-ok
        (λ x. IsUntouched db x.0 ⊎ (IsAdmitted platform db caller (c ∷ []) × IsApplied db x.0)) _
        (execute_commands-cases platform _ db caller (c ∷ []) attempt
          (λ status name other. inl (untouched db))
          (WhenOk-mono (λ x. IsUntouched db x.0) _ (λ x k. inl k) _
            (execute_denied-IsUntouched db attempt))
          λ h.
            WhenOk-mono (λ x. Outcome db x.0) _
              (λ x k. elim k [ inl u ↦ inl u | inr a ↦ inr (h, a) ]) _
              (execute_admitted-Outcome attempt db _ refl))
        e
