-- ===== src/Harness/History.antt =====
-- The life of the database: transactions of `executeCommands`, and other writers that change the
-- resources, the replicas and the grants in any way.
use trax_os.Common.{
  ℕ, Bool, true, false, ◌&&◌, ◌||◌, ◌==◌, ◌++◌, List, [], ◌∷◌, ◌≡◌, refl, sym, subst, ◌∙◌, ap, any,
  filter, ok, arith, eq_iff,
}
use mathlib.Core.List.{append-nil}
use trax_os.Harness.Database.{Receipt, Event, Database, Response, results}
use trax_os.Harness.Protocol.{Command}
use trax_os.Harness.Server.{Platform, Caller, answered, has_key, result_from_receipt}
use trax_os.Harness.Execution.{execute_commands}
use trax_os.Harness.Execution.Appending.{AreKeyed, append_trans}
use trax_os.Harness.Execution.Extension.{execute_commands-IsExtension}
use trax_os.Harness.Execution.Admission.{IsAdmitted}
use trax_os.Harness.Execution.Retry.{IsAnswered-of_success, execute_commands-stored}

-- What receipts and events become.
pub record IsLater (db db' : Database) : Type 0 where
  pub receipts : (new : List Receipt) × (db'.receipts ≡ db.receipts ++ new)
  pub events : (new : List Event) × (db'.events ≡ db.events ++ new)
  pub keyed : AreKeyed db.receipts → AreKeyed db'.receipts

module _ (platform : Platform) where
  pub data Step (db db' : Database) : Type 0 where
    transaction :
        (caller : Caller) (commands : List Command) (attempt : ℕ) (response : Response)
        → execute_commands platform db caller commands attempt ≡ ok (db', response)
        → Step db db'
    elsewhere : db'.receipts ≡ db.receipts → db'.events ≡ db.events → Step db db'

  pub data Reach (db : Database) : Database → Type 0 where
    here : Reach db db
    next : {db' db'' : Database} → Reach db db' → Step db' db'' → Reach db db''

  Step-IsLater : (db db' : Database) → Step db db' → IsLater db db'
  Step-IsLater db db' (transaction caller cs attempt response e) =
      let h = execute_commands-IsExtension platform db db' caller cs attempt response e in
      record { receipts = h.receipts; events = h.events; keyed = h.keyed }
  Step-IsLater db db' (elsewhere e f) = record {
    receipts = ([], e ∙ sym (append-nil db.receipts));
    events = ([], f ∙ sym (append-nil db.events));
    keyed = λ h. subst AreKeyed (sym e) h;
  }

  -- Over any history of transactions and other writers, receipts and events are only appended, none
  -- is changed or removed, and no primary key of a receipt is taken twice if none was at first.
  pub Reach-IsLater : (db db' : Database) → Reach db db' → IsLater db db'
  Reach-IsLater db db' here = record {
    receipts = ([], sym (append-nil db.receipts));
    events = ([], sym (append-nil db.events));
    keyed = λ h. h;
  }
  Reach-IsLater db db'' (next {db'} steps step) =
      let h = Reach-IsLater db db' steps in
      let k = Step-IsLater db' db'' step in
      record {
        receipts = append_trans _ _ _ h.receipts k.receipts;
        events = append_trans _ _ _ h.events k.events;
        keyed = λ p. k.keyed (h.keyed p);
      }

  module _ (caller : Caller) (c : Command) where
    abbrev is_ours : Receipt → Bool
    is_ours q = q.user_id == caller.user_id && (c.command_id == q.command_id || false)

    no_second :
        (r : Receipt) (rs : List Receipt)
        → is_ours r ≡ true
        → any (has_key r) rs ≡ false
        → filter is_ours rs ≡ []
    no_second r [] e h = refl
    no_second r (q ∷ rs) e h = ground (
      arith,
      no_second r rs e,
      eq_iff r.user_id caller.user_id,
      eq_iff c.command_id r.command_id,
      eq_iff q.user_id caller.user_id,
      eq_iff c.command_id q.command_id,
      eq_iff q.user_id r.user_id,
      eq_iff q.command_id r.command_id,
    )

    -- A receipt that is found is the only one found later.
    rows_later :
        (xs ys : List Receipt) (r : Receipt)
        → AreKeyed (xs ++ ys)
        → filter is_ours xs ≡ r ∷ []
        → filter is_ours (xs ++ ys) ≡ r ∷ []
    rows_later [] ys r h e = cc
    rows_later (x ∷ xs) ys r (new, h) e =
        let later = no_second x (xs ++ ys) in let rest = rows_later xs ys r h in ground arith

    -- A command that was answered with status 200 is answered from its receipt for ever: in any later
    -- database in which it is admitted, it leaves the database as it is, and the answer is that of the
    -- stored receipt under the new attempt number, with `already_applied` in place of `applied`.
    pub execute_commands-once :
        (db db' later : Database) (attempt again : ℕ) (response : Response)
        → AreKeyed db.receipts
        → execute_commands platform db caller (c ∷ []) attempt ≡ ok (db', response)
        → response.status ≡ 200
        → Reach db' later
        → IsAdmitted platform later caller (c ∷ [])
        → (r : Receipt) × (replay : Bool) × (response.body
            ≡ results (result_from_receipt r attempt replay ∷ []))
          × (execute_commands platform later caller (c ∷ []) again
              ≡ answered later 200 (result_from_receipt r again true ∷ []))
    execute_commands-once db db' later attempt again response keyed e success steps admitted =
        let answer = IsAnswered-of_success platform caller c db db' attempt response e success in
        let extends =
          execute_commands-IsExtension platform db db' caller (c ∷ []) attempt response e in
        let h = Reach-IsLater db' later steps in
        let (new, same) = h.receipts in
        (
          answer.receipt,
          answer.replay,
          answer.body,
          execute_commands-stored platform caller c later again answer.receipt admitted
              (ap (filter is_ours) same
                ∙ rows_later db'.receipts new answer.receipt
                    (subst AreKeyed same (h.keyed (extends.keyed keyed))) answer.rows)
              answer.matches,
        )
