-- ===== src/Harness/Execution/Admission.antt =====
-- When `executeCommands` gets to the commands' receipts: the replica is the caller's and current,
-- and every resource has an active grant and exists.
use trax_os.Common.{
  ℕ, String, Bool, true, false, Option, none, some, List, [], ◌∷◌, ◌≡◌, refl, sym, ap, ◌∙◌, map,
  filter, length, eqb, ◌≢◌, subst, ok, Result, WhenOk, WhenOk-if, WhenOk-always, WhenOk-eq-ok,
  Bool-cases, inl, inr, arith,
}
use trax_os.Harness.Database.{
  Resource, Receipt, Replica, Database, Response, Thrown, invalid_replica, replica_reset_required,
  command_denied_error, ErrorName, error,
}
use trax_os.Harness.Protocol.{Command}
use trax_os.Harness.Server.{
  Platform, Caller, includes, lock_replica, replica_is_stale, has_active_grants, resource_ids,
  find_receipt, mismatch, denial, record_denial, execute_denied,
}
use trax_os.Harness.Rows.{locked_resources, receipt_rows}
use trax_os.Harness.Execution.{execute_new, execute_replay, execute_authorized, execute_commands}
use trax_os.Harness.Execution.Appending.{IsExtension}

module _ (platform : Platform) where
  pub record IsAdmitted (db : Database) (caller : Caller) (cs : List Command) : Type 0 where
    pub row : Replica
    pub locked : lock_replica platform db caller ≡ some row
    pub current : replica_is_stale platform row ≡ false
    pub granted : has_active_grants db caller (resource_ids cs) ≡ true
    pub found : eqb (length (locked_resources db cs)) (length cs) ≡ true

  -- `executeCommands` from the look at the receipts on
  abbrev pub execute_admitted :
      Database → Caller → List Command → ℕ → List Receipt → Result Thrown (Database × Response)
  execute_admitted db caller cs attempt [] =
      execute_new platform db caller cs attempt (locked_resources db cs)
  execute_admitted db caller cs attempt (r ∷ rows) =
      execute_replay platform db caller cs attempt (r ∷ rows)

  pub execute_commands-admitted :
      (db : Database) (caller : Caller) (cs : List Command) (attempt : ℕ)
      → IsAdmitted db caller cs
      → execute_commands platform db caller cs attempt
        ≡ execute_admitted db caller cs attempt (receipt_rows db caller cs)
  unfolding execute_commands execute_authorized
  execute_commands-admitted db caller cs attempt h =
      rw (execute_commands, h.locked, h.current, h.granted, execute_authorized, h.found)
        (shape (receipt_rows db caller cs))
    where
      shape :
          (rows : List Receipt)
          → (elim rows as (λ _. Result Thrown (Database × Response)) [
            | [] ↦ execute_new platform db caller cs attempt (locked_resources db cs)
            | r ∷ rs ↦ execute_replay platform db caller cs attempt (r ∷ rs)
          ])
            ≡ execute_admitted db caller cs attempt rows
      shape [] = refl
      shape (r ∷ rs) = refl

  abbrev Succeeds : Database → Caller → List Command → Database × Response → Type 0
  Succeeds db caller cs x = x.1.status ≡ 200 → IsAdmitted db caller cs

  denial-Succeeds :
      (db after : Database) (attempt : ℕ) (caller : Caller) (c : Command) (cs : List Command)
      (o : Option Receipt)
      → WhenOk (Succeeds db caller cs) (denial platform db after attempt caller c o)
  denial-Succeeds db after attempt caller c cs none = λ e. absurd (omega arith)
  denial-Succeeds db after attempt caller c cs (some r) =
      WhenOk-if (Succeeds db caller cs) (mismatch platform caller c r) _ _
        (λ e. absurd (omega arith)) (λ e. absurd (omega arith))

  execute_denied-Succeeds :
      (db : Database) (attempt : ℕ) (caller : Caller) (cs ds : List Command)
      → WhenOk (Succeeds db caller ds) (execute_denied platform db caller cs attempt)
  unfolding execute_denied
  execute_denied-Succeeds db attempt caller [] ds = tt
  execute_denied-Succeeds db attempt caller (c ∷ cs) ds =
      let after = record_denial platform db caller c in
      elim (find_receipt db caller c.command_id)
        as (λ o. WhenOk (Succeeds db caller ds) (elim o [
          | none ↦
              denial platform db after attempt caller c (find_receipt after caller c.command_id)
          | some r ↦ denial platform db db attempt caller c (some r)
        ])) [
          | none ↦ denial-Succeeds db after attempt caller c ds _
          | some r ↦ denial-Succeeds db db attempt caller c ds (some r)
        ]

  -- What holds of every refusal, of what the branch without a grant returns and of what admitted
  -- commands return, holds of what `executeCommands` returns.
  pub execute_commands-cases :
      (P : Database × Response → Type 0) (db : Database) (caller : Caller) (cs : List Command)
      (attempt : ℕ)
      → ((status : ℕ) (name : ErrorName)
          → status ≢ 200
          → P (db, record { status = status; body = error name }))
      → WhenOk P (execute_denied platform db caller cs attempt)
      → (IsAdmitted db caller cs
          → WhenOk P (execute_admitted db caller cs attempt (receipt_rows db caller cs)))
      → WhenOk P (execute_commands platform db caller cs attempt)
  unfolding execute_commands execute_authorized
  execute_commands-cases P db caller cs attempt refusal forbid admission =
      go (lock_replica platform db caller) refl
    where
      admitted :
          (row : Replica)
          → lock_replica platform db caller ≡ some row
          → replica_is_stale platform row ≡ false
          → has_active_grants db caller (resource_ids cs) ≡ true
          → WhenOk P (execute_commands platform db caller cs attempt)
      admitted row locked current granted =
          elim (Bool-cases (eqb (length (locked_resources db cs)) (length cs))) [
            | inl e ↦
                let h : IsAdmitted db caller cs = record {
                  row = row;
                  locked = locked;
                  current = current;
                  granted = granted;
                  found = e;
                } in
                subst (WhenOk P) (sym (execute_commands-admitted db caller cs attempt h))
                  (admission h)
            | inr e ↦
                rw (WhenOk, execute_commands, locked, current, granted, execute_authorized, e)
                  (refusal 403 command_denied_error (λ p. omega arith))
          ]

      go :
          (o : Option Replica)
          → lock_replica platform db caller ≡ o
          → WhenOk P (execute_commands platform db caller cs attempt)
      go none e = rw (WhenOk, execute_commands, e) (refusal 403 invalid_replica (λ p. omega arith))
      go (some row) e = elim (Bool-cases (replica_is_stale platform row)) [
        | inl stale ↦
            rw (WhenOk, execute_commands, e, stale)
              (refusal 428 replica_reset_required (λ p. omega arith))
        | inr current ↦ elim (Bool-cases (has_active_grants db caller (resource_ids cs))) [
          | inl granted ↦ admitted row e current granted
          | inr forbidden ↦ rw (execute_commands, e, current, forbidden) forbid
        ]
      ]

  -- An answer with status 200 comes from admitted commands.
  pub IsAdmitted-of_success :
      (db db' : Database) (caller : Caller) (cs : List Command) (attempt : ℕ) (response : Response)
      → execute_commands platform db caller cs attempt ≡ ok (db', response)
      → response.status ≡ 200
      → IsAdmitted db caller cs
  IsAdmitted-of_success db db' caller cs attempt response e =
      WhenOk-eq-ok (Succeeds db caller cs) _
        (execute_commands-cases (Succeeds db caller cs) db caller cs attempt
          (λ status name other same. absurd (other same))
          (execute_denied-Succeeds db attempt caller cs cs)
          λ h. WhenOk-always (Succeeds db caller cs) _ λ x s. h)
        e

  length-filter-map :
      (p : String → Bool) (xs : List Resource)
      → length (filter (λ r. p r.id) xs) ≡ length (filter p (map (λ r. r.id) xs))
  length-filter-map p [] = refl
  length-filter-map p (x ∷ xs) = ground (arith, length-filter-map p xs)

  length-filter_ids :
      (p : String → Bool) (xs ys : List Resource)
      → map (λ r. r.id) xs ≡ map (λ r. r.id) ys
      → length (filter (λ r. p r.id) xs) ≡ length (filter (λ r. p r.id) ys)
  length-filter_ids p xs ys e =
      length-filter-map p xs ∙ (ap (λ l. length (filter p l)) e ∙ sym (length-filter-map p ys))

  -- A transaction keeps what admission depends on.
  pub IsAdmitted-extension :
      (db db' : Database) (caller : Caller) (cs : List Command)
      → IsExtension db db'
      → IsAdmitted db caller cs
      → IsAdmitted db' caller cs
  unfolding lock_replica has_active_grants
  IsAdmitted-extension db db' caller cs x h = record {
    row = h.row;
    locked = rw x.replicas h.locked;
    current = h.current;
    granted = rw x.grants h.granted;
    found =
        rw (length-filter_ids (includes (resource_ids cs)) db'.resources db.resources x.ids)
          h.found;
  }
