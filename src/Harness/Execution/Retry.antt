-- ===== src/Harness/Execution/Retry.antt =====
-- A command that was answered is not run again when it is sent again.
use trax_os.Common.{
  All-filter, All, length, ℕ, Bool, true, false, ◌||◌, ◌&&◌, ◌==◌, ◌++◌, List, [], ◌∷◌, ◌≡◌, refl,
  sym, subst, ap, ◌∙◌, filter, filter-append, eqb, ok, WhenOk, WhenOk-bind, WhenOk-if, WhenOk-eq-ok,
  Bool-cases, inl, inr, arith, if◌then◌else◌, eq_iff, eq_refl,
}
use trax_os.Harness.Database.{
  Resource, Receipt, Database, Response, results, idempotency_conflict, partial_idempotency_match,
}
use trax_os.Harness.Protocol.{Command, CommandResult}
use trax_os.Harness.Server.{
  Platform, Caller, refused, answered, includes, mismatch, new_receipt, result_from_receipt,
}
use trax_os.Harness.Rows.{
  locked_resources, receipt_rows, receipt_of, some_resource, other_incarnation, conflicts,
  conflict_code,
}
use trax_os.Harness.Execution.{
  check_receipts, replayed_results, answer_replay, execute_replay, execute_tested, execute_new,
  execute_commands,
}
use trax_os.Harness.Envelope.{is_positive_safe}
use trax_os.Harness.Execution.Admission.{
  IsAdmitted, execute_admitted, execute_commands-admitted, IsAdmitted-of_success,
}
use trax_os.Harness.Execution.Storing.{
  IsReportable, AreSafe, IsSafe, conflict_code-consistent, IsStored, Stored, new_receipt-matches,
  store_conflicts-Stored, apply_commands-Stored,
}

module _ (platform : Platform) (caller : Caller) (c : Command) where
  -- What an answer to admitted commands is: 200 with one result, whose receipt is stored.
  pub record IsAnswered (db db' : Database) (attempt : ℕ) (response : Response) : Type 0 where
    pub receipt : Receipt
    pub replay : Bool
    pub rows : receipt_rows db' caller (c ∷ []) ≡ receipt ∷ []
    pub matches : mismatch platform caller c receipt ≡ false
    pub reportable : All IsReportable db.receipts → IsSafe c db → IsReportable receipt
    pub body : response.body ≡ results (result_from_receipt receipt attempt replay ∷ [])

  abbrev Answered : Database → ℕ → Database × Response → Type 0
  Answered db attempt x = x.1.status ≡ 200 → IsAnswered db x.0 attempt x.1

  stored-IsAnswered :
      (attempt : ℕ) (db : Database) (x : Database × List CommandResult)
      → receipt_rows db caller (c ∷ []) ≡ []
      → IsStored platform caller c db x.0 attempt x.1
      → IsAnswered db x.0 attempt (record { status = 200; body = results x.1 })
  stored-IsAnswered attempt db x none_yet h =
      let r = new_receipt platform caller c h.state h.code h.previous h.current in
      record {
        receipt = r;
        replay = false;
        rows =
            ap
              (filter
                (λ q. q.user_id == caller.user_id && includes (c.command_id ∷ []) q.command_id))
              h.receipts
            ∙ (filter-append _ db.receipts (r ∷ [])
                ∙ (ap
                      (λ l.
                        l
                        ++ filter
                            (λ q.
                              q.user_id == caller.user_id
                              && includes (c.command_id ∷ []) q.command_id)
                            (r ∷ []))
                      none_yet
                    ∙ ground (arith, eq_refl caller.user_id, eq_refl c.command_id)));
        matches = new_receipt-matches platform caller c h.state h.code h.previous h.current;
        reportable = λ _. h.reportable;
        body = ap results h.answer;
      }

  execute_new-Answered :
      (attempt : ℕ) (db : Database) (rows : List Resource)
      → receipt_rows db caller (c ∷ []) ≡ []
      → (AreSafe db.resources → AreSafe rows)
      → WhenOk (Answered db attempt) (execute_new platform db caller (c ∷ []) attempt rows)
  unfolding execute_new execute_tested
  execute_new-Answered attempt db rows none_yet kept =
      WhenOk-bind _ (some_resource other_incarnation rows (c ∷ [])) _ λ stale _.
        WhenOk-bind _ (if stale then ok false else some_resource conflicts rows (c ∷ [])) _
          λ conflicting _.
            WhenOk-bind _
              (execute_tested platform db caller (c ∷ []) attempt rows stale conflicting) _
              λ stored e. λ success. stored-IsAnswered attempt db stored none_yet (
                WhenOk-eq-ok (Stored platform caller c db attempt) _
                  (WhenOk-if (Stored platform caller c db attempt) (stale || conflicting) _ _
                    (store_conflicts-Stored platform caller c attempt (conflict_code stale) rows db
                      (conflict_code-consistent stale) kept)
                    (apply_commands-Stored platform caller c attempt db))
                  e)

  -- The receipt that is found again, of one row.
  receipt_of-one : (r : Receipt) → r.command_id ≡ c.command_id → receipt_of (r ∷ []) c ≡ ok r
  unfolding receipt_of
  receipt_of-one r e = ground (arith, eq_iff r.command_id c.command_id)

  execute_replay-one :
      (attempt : ℕ) (db : Database) (r : Receipt)
      → r.command_id ≡ c.command_id
      → mismatch platform caller c r ≡ false
      → execute_replay platform db caller (c ∷ []) attempt (r ∷ [])
        ≡ answered db 200 (result_from_receipt r attempt true ∷ [])
  unfolding execute_replay check_receipts answer_replay replayed_results
  execute_replay-one attempt db r same matches =
      rw (receipt_of-one r same, matches) (rw (receipt_of-one r same) refl)

  pub filter-holds :
      (p : Receipt → Bool) (xs : List Receipt) (r : Receipt) (rs : List Receipt)
      → filter p xs ≡ r ∷ rs
      → p r ≡ true
  filter-holds p [] r rs e = cc
  filter-holds p (x ∷ xs) r rs e = ground (arith, filter-holds p xs r rs)

  pub command_of_row :
      (db : Database) (r : Receipt)
      → receipt_rows db caller (c ∷ []) ≡ r ∷ []
      → r.command_id ≡ c.command_id
  command_of_row db r e =
      let ours : (r.user_id == caller.user_id && (c.command_id == r.command_id || false)) ≡ true =
        filter-holds _ db.receipts r [] e in
      ground (arith, eq_iff c.command_id r.command_id)

  execute_replay-other :
      (attempt : ℕ) (db : Database) (r : Receipt)
      → r.command_id ≡ c.command_id
      → mismatch platform caller c r ≡ true
      → execute_replay platform db caller (c ∷ []) attempt (r ∷ [])
        ≡ refused db 409 idempotency_conflict
  unfolding execute_replay check_receipts answer_replay
  execute_replay-other attempt db r same other = rw (receipt_of-one r same, other) refl

  execute_replay-many :
      (attempt : ℕ) (db : Database) (r q : Receipt) (rs : List Receipt)
      → execute_replay platform db caller (c ∷ []) attempt (r ∷ q ∷ rs)
        ≡ refused db 409 partial_idempotency_match
  unfolding execute_replay
  execute_replay-many attempt db r q rs =
      let differ : eqb (length (r ∷ q ∷ rs)) 1 ≡ false = ground arith in rw differ refl

  execute_replay-Answered :
      (attempt : ℕ) (db : Database) (r : Receipt) (rs : List Receipt)
      → receipt_rows db caller (c ∷ []) ≡ r ∷ rs
      → WhenOk (Answered db attempt) (execute_replay platform db caller (c ∷ []) attempt (r ∷ rs))
  execute_replay-Answered attempt db r (q ∷ rs) e =
      subst (WhenOk (Answered db attempt)) (sym (execute_replay-many attempt db r q rs))
        λ s. absurd (omega arith)
  execute_replay-Answered attempt db r [] e =
      let same = command_of_row db r e in
      elim (Bool-cases (mismatch platform caller c r)) [
        | inl other ↦
            subst (WhenOk (Answered db attempt))
              (sym (execute_replay-other attempt db r same other)) λ s. absurd (omega arith)
        | inr matches ↦
            subst (WhenOk (Answered db attempt))
              (sym (execute_replay-one attempt db r same matches))
              λ s. record {
                receipt = r;
                replay = true;
                rows = e;
                matches = matches;
                reportable = λ known _.
                    (subst (All IsReportable) e (All-filter IsReportable _ db.receipts known)).0;
                body = refl;
              }
      ]

  execute_admitted-Answered :
      (attempt : ℕ) (db : Database) (rows : List Receipt)
      → receipt_rows db caller (c ∷ []) ≡ rows
      → WhenOk (Answered db attempt) (execute_admitted platform db caller (c ∷ []) attempt rows)
  execute_admitted-Answered attempt db [] e =
      execute_new-Answered attempt db (locked_resources db (c ∷ [])) e
        (All-filter (λ row. is_positive_safe row.version ≡ true) _ db.resources)
  execute_admitted-Answered attempt db (r ∷ rs) e = execute_replay-Answered attempt db r rs e

  pub IsAnswered-of_success :
      (db db' : Database) (attempt : ℕ) (response : Response)
      → execute_commands platform db caller (c ∷ []) attempt ≡ ok (db', response)
      → response.status ≡ 200
      → IsAnswered db db' attempt response
  IsAnswered-of_success db db' attempt response e success =
      let admitted =
        IsAdmitted-of_success platform db db' caller (c ∷ []) attempt response e success in
      let this : execute_admitted platform db caller (c ∷ []) attempt
            (receipt_rows db caller (c ∷ []))
          ≡ ok (db', response) =
        sym (execute_commands-admitted platform db caller (c ∷ []) attempt admitted) ∙ e in
      WhenOk-eq-ok (Answered db attempt) _ (execute_admitted-Answered attempt db _ refl) this
        success

  -- With its receipt stored, an admitted command is answered from the receipt.
  pub execute_commands-stored :
      (db : Database) (attempt : ℕ) (r : Receipt)
      → IsAdmitted platform db caller (c ∷ [])
      → receipt_rows db caller (c ∷ []) ≡ r ∷ []
      → mismatch platform caller c r ≡ false
      → execute_commands platform db caller (c ∷ []) attempt
        ≡ answered db 200 (result_from_receipt r attempt true ∷ [])
  execute_commands-stored db attempt r admitted rows matches =
      execute_commands-admitted platform db caller (c ∷ []) attempt admitted
      ∙ (ap (execute_admitted platform db caller (c ∷ []) attempt) rows
          ∙ execute_replay-one attempt db r (command_of_row db r rows) matches)
