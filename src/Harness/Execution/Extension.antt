-- ===== src/Harness/Execution/Extension.antt =====
-- What a transaction of `executeCommands` leaves in place: it appends receipts and events, and keeps
-- the replicas, the grants and the ids of the resources.
use trax_os.Common.{
  Bool-cases, inl, inr, any, ◌≡◌, ℕ, Bool, List, [], ◌∷◌, Option, none, some, ok, WhenOk,
  WhenOk-eq-ok, WhenOk-eq-ok, WhenOk-bind, WhenOk-if, length, false, true, if◌then◌else◌, ◌||◌, eqb,
}
use trax_os.Harness.Database.{Response, Resource, Receipt, Database}
use trax_os.Harness.Protocol.{Command, denied, command_denied}
use trax_os.Harness.Server.{
  Platform, Caller, has_key, record_denial, denial, execute_denied, find_receipt, mismatch,
  new_receipt,
}
use trax_os.Harness.Rows.{
  receipt_rows, locked_resources, some_resource, other_incarnation, conflicts, conflict_code,
}
use trax_os.Harness.Execution.{
  check_receipts, replayed_results, answer_replay, execute_replay, execute_tested, execute_new,
  execute_commands,
}
use trax_os.Harness.Execution.Admission.{execute_admitted, execute_commands-cases}
use trax_os.Harness.Execution.Appending.{
  IsExtension, IsExtension-refl, appended, store_conflicts-IsExtension, apply_commands-IsExtension,
}

module _ (platform : Platform) where
  denial-IsExtension :
      (db after : Database) (attempt : ℕ) (caller : Caller) (c : Command) (o : Option Receipt)
      → IsExtension db after
      → WhenOk (λ x. IsExtension db x.0) (denial platform db after attempt caller c o)
  denial-IsExtension db after attempt caller c none h = IsExtension-refl db
  denial-IsExtension db after attempt caller c (some r) h =
      WhenOk-if _ (mismatch platform caller c r) _ _ (IsExtension-refl db) h

  record_denial-IsExtension :
      (db : Database) (caller : Caller) (c : Command)
      → IsExtension db (record_denial platform db caller c)
  unfolding record_denial
  record_denial-IsExtension db caller c =
      let r =
        new_receipt platform caller c denied command_denied c.expected_record_version
          c.expected_record_version in
      elim (Bool-cases (any (has_key r) db.receipts)) [
        | inl taken ↦ rw taken (IsExtension-refl db)
        | inr free ↦ rw free (appended r db free)
      ]

  execute_denied-IsExtension :
      (db : Database) (caller : Caller) (cs : List Command) (attempt : ℕ)
      → WhenOk (λ x. IsExtension db x.0) (execute_denied platform db caller cs attempt)
  unfolding execute_denied
  execute_denied-IsExtension db caller [] attempt = tt
  execute_denied-IsExtension db caller (c ∷ cs) attempt =
      let after = record_denial platform db caller c in
      elim (find_receipt db caller c.command_id)
        as (λ o.
          WhenOk (λ x. IsExtension db x.0)
            (elim o [
              | none ↦
                  denial platform db after attempt caller c (find_receipt after caller c.command_id)
              | some r ↦ denial platform db db attempt caller c (some r)
            ])) [
              | none ↦
                  denial-IsExtension db after attempt caller c _
                    (record_denial-IsExtension db caller c)
              | some r ↦ denial-IsExtension db db attempt caller c (some r) (IsExtension-refl db)
            ]

  answer_replay-IsExtension :
      (db : Database) (cs : List Command) (attempt : ℕ) (rows : List Receipt) (same : Bool)
      → WhenOk (λ x. IsExtension db x.0) (answer_replay db cs attempt rows same)
  unfolding answer_replay
  answer_replay-IsExtension db cs attempt rows false = IsExtension-refl db
  answer_replay-IsExtension db cs attempt rows true =
      WhenOk-bind _ (replayed_results rows attempt cs) _ λ rs _. IsExtension-refl db

  execute_replay-IsExtension :
      (db : Database) (caller : Caller) (cs : List Command) (attempt : ℕ) (rows : List Receipt)
      → WhenOk (λ x. IsExtension db x.0) (execute_replay platform db caller cs attempt rows)
  unfolding execute_replay
  execute_replay-IsExtension db caller cs attempt rows =
      WhenOk-if _ (eqb (length rows) (length cs)) _ _
        (WhenOk-bind _ (check_receipts platform caller rows cs) _
          λ same _. answer_replay-IsExtension db cs attempt rows same)
        (IsExtension-refl db)

  execute_new-IsExtension :
      (db : Database) (caller : Caller) (cs : List Command) (attempt : ℕ) (rows : List Resource)
      → WhenOk (λ x. IsExtension db x.0) (execute_new platform db caller cs attempt rows)
  unfolding execute_new execute_tested
  execute_new-IsExtension db caller cs attempt rows =
      WhenOk-bind _ (some_resource other_incarnation rows cs) _ λ stale _.
        WhenOk-bind _ (if stale then ok false else some_resource conflicts rows cs) _
          λ conflicting _.
            WhenOk-bind _ (execute_tested platform db caller cs attempt rows stale conflicting) _
              λ stored e.
                WhenOk-eq-ok (λ x. IsExtension db x.0) _
                  (WhenOk-if _ (stale || conflicting) _ _
                    (store_conflicts-IsExtension platform caller attempt (conflict_code stale) rows
                      cs db)
                    (apply_commands-IsExtension platform caller attempt 0 cs db))
                  e

  execute_admitted-IsExtension :
      (db : Database) (caller : Caller) (cs : List Command) (attempt : ℕ) (rows : List Receipt)
      → WhenOk (λ x. IsExtension db x.0) (execute_admitted platform db caller cs attempt rows)
  execute_admitted-IsExtension db caller cs attempt [] =
      execute_new-IsExtension db caller cs attempt (locked_resources db cs)
  execute_admitted-IsExtension db caller cs attempt (r ∷ rows) =
      execute_replay-IsExtension db caller cs attempt (r ∷ rows)

  -- Whatever a transaction that returns has answered, it has at most appended receipts and events;
  -- the replicas, the grants and the ids of the resources are as they were.
  pub execute_commands-IsExtension :
      (db db' : Database) (caller : Caller) (cs : List Command) (attempt : ℕ) (response : Response)
      → execute_commands platform db caller cs attempt ≡ ok (db', response)
      → IsExtension db db'
  execute_commands-IsExtension db db' caller cs attempt response e =
      WhenOk-eq-ok (λ x. IsExtension db x.0) _
        (execute_commands-cases platform (λ x. IsExtension db x.0) db caller cs attempt
          (λ status name other. IsExtension-refl db)
          (execute_denied-IsExtension db caller cs attempt)
          λ _. execute_admitted-IsExtension db caller cs attempt (receipt_rows db caller cs))
        e
