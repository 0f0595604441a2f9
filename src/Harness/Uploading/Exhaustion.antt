-- ===== src/Harness/Uploading/Exhaustion.antt =====
-- A command whose upload keeps failing: `uploadData` of client.ts gives it up after five failures.
use trax_os.Common.{
  ℕ, suc, ◌+◌, ◌<◌, String, true, false, Option, none, some, List, [], ◌∷◌, ◌≡◌, refl, sym, ap,
  subst, ◌∙◌, ◌==◌, eqb, leb, find?, length, All, ok, err, if◌then◌else◌, arith, eq_refl,
  Bool-cases, inl, inr,
}
use trax_os.Common.Json.{Value, Fields}
use trax_os.Harness.Protocol.{Command, Binding}
use trax_os.Harness.Upload.{envelope_value}
use trax_os.Harness.Queue.{validate_queued_crud}
use trax_os.Harness.LocalState.{
  TerminalResult, Overlay, Attempts, max_failures, record_failure, record_transient_failure,
}
use trax_os.Harness.Uploading.Storing.{final_row, find?-stored, complete_with_results-one}
use trax_os.Harness.Uploading.{
  no_session, retryable, Transaction, Answer, unreachable, answered, Device, UploadError,
  is_retryable_upload_status, failed_result, transient_failure, take_answer, send_commands,
  upload_transaction, upload_data, uploads,
}

-- the failures that are counted for a command
abbrev pub failures : String → List Attempts → ℕ
failures k [] = 0
failures k (a ∷ rows) = let later = failures k rows in if a.id == k then a.failure_count else later

-- an answer after which the upload is tried again
abbrev pub IsTransient : Answer → Type 0
IsTransient unreachable = Unit
IsTransient (answered status body) = is_retryable_upload_status status ≡ true

record_failure-failures :
    (k : String) (rows : List Attempts)
    → failures k rows < max_failures
    → (rows' : List Attempts) × (record_failure k rows ≡ ok (rows', suc (failures k rows)))
      × (failures k rows' ≡ suc (failures k rows))
unfolding record_failure
record_failure-failures k [] h = (_, refl, rw (eq_refl k) refl)
record_failure-failures k (a ∷ rows) h = elim (Bool-cases (a.id == k)) [
  | inl here ↦
      let few : a.failure_count < max_failures = rw here at h in
      let room : leb (suc a.failure_count) max_failures ≡ true = ground arith in
      (record a { failure_count = suc a.failure_count } ∷ rows, rw (here, room) refl, rw here refl)
  | inr there ↦
      let (rows', e, f) = record_failure-failures k rows (rw there at h) in
      (a ∷ rows', rw (there, e) refl, rw there f)
]

not_reset : (status : ℕ) → is_retryable_upload_status status ≡ true → eqb status 428 ≡ false
not_reset status h = ground arith

-- A device whose queue starts with a command that has an overlay and no result.
pub record IsWaiting {Q : Type 0} (next : Q → Option Transaction) (c : Command) (b : Binding)
    (o : Overlay) (d : Device Q) : Type 0 where
  pub transaction : Transaction
  pub first : next d.queue ≡ some transaction
  pub valid : validate_queued_crud transaction.crud ≡ ok (c ∷ [])
  pub session : d.session ≡ some b
  pub absent : find? (λ row. row.id == c.command_id) d.state.results ≡ none
  pub there : find? (λ p. p.id == c.command_id) d.state.overlays ≡ some o

module _ {Q : Type 0} (next : Q → Option Transaction) (complete : Q → Q)
    (bytes : TerminalResult → ℕ) (hash other : Value → String)
    (bound : Fields → Option TerminalResult) (c : Command) (b : Binding) (o : Overlay) where
  -- the device with other counts of failures
  abbrev counted : Device Q → List Attempts → Device Q
  counted d rows = record d { state = record d.state { attempts = rows } }

  counted-IsWaiting :
      (d : Device Q) (rows : List Attempts)
      → IsWaiting next c b o d
      → IsWaiting next c b o (counted d rows)
  counted-IsWaiting d rows w = record {
    transaction = w.transaction;
    first = w.first;
    valid = w.valid;
    session = w.session;
    absent = w.absent;
    there = w.there;
  }

  take_answer-transient :
      (a : Answer) (cs : List Command) (d : Device Q)
      → IsTransient a
      → (thrown : UploadError) × (take_answer next complete bytes hash other bound cs c b a d
          ≡ transient_failure next complete bytes hash other bound c b thrown d)
  unfolding take_answer
  take_answer-transient unreachable cs d h = (_, refl)
  take_answer-transient (answered status body) cs d h =
      (retryable status, rw (not_reset status h, h) refl)

  upload_data-transient :
      (answer : Value → Answer) (d : Device Q)
      → ((v : Value) → IsTransient (answer v))
      → IsWaiting next c b o d
      → (thrown : UploadError) × (upload_data next complete bytes hash other bound answer d
          ≡ transient_failure next complete bytes hash other bound c b thrown d)
  unfolding upload_data upload_transaction send_commands
  upload_data-transient answer d h w =
      let body = envelope_value (record {
        replica_id = b.replica_id;
        replica_epoch = b.replica_epoch;
        local_transaction_id = w.transaction.transaction_id;
        commands = c ∷ [];
      }) in
      let (thrown, e) = take_answer-transient (answer body) (c ∷ []) d (h body) in
      let sent : upload_data next complete bytes hash other bound answer d
          ≡ send_commands next complete bytes hash other bound w.transaction (c ∷ []) b answer d =
        rw (upload_data, w.first, upload_transaction, w.valid)
          (ap
            (λ x. elim x [
              | none ↦ (d, err no_session)
              | some b ↦
                  send_commands next complete bytes hash other bound w.transaction (c ∷ []) b answer
                    d
            ])
            w.session) in
      (thrown, sent ∙ e)

  -- The command's transaction is gone from the queue, and a result says that it was given up.
  abbrev pub IsGivenUp : (d d' : Device Q) → Type 0
  IsGivenUp d d' =
      (d'.queue ≡ complete d.queue)
      × (find? (λ row. row.id == c.command_id) d'.state.results
          ≡ some (
              final_row (failed_result hash c b "retry_exhausted" max_failures) o
                (bytes (failed_result hash c b "retry_exhausted" max_failures))))

  transient_failure-again :
      (thrown : UploadError) (d : Device Q) (rows : List Attempts) (n : ℕ)
      → record_failure c.command_id d.state.attempts ≡ ok (rows, suc n)
      → leb max_failures (suc n) ≡ false
      → (transient_failure next complete bytes hash other bound c b thrown d).0 ≡ counted d rows
  unfolding transient_failure record_transient_failure
  transient_failure-again thrown d rows n e few =
      rw (transient_failure, record_transient_failure, e, few) refl

  transient_failure-last :
      (thrown : UploadError) (d : Device Q) (rows : List Attempts)
      → record_failure c.command_id d.state.attempts ≡ ok (rows, max_failures)
      → IsWaiting next c b o d
      → leb (bytes (failed_result hash c b "retry_exhausted" max_failures)) o.serialized_bytes
        ≡ true
      → leb 1 (bytes (failed_result hash c b "retry_exhausted" max_failures)) ≡ true
      → IsGivenUp d (transient_failure next complete bytes hash other bound c b thrown d).0
  unfolding transient_failure record_transient_failure
  transient_failure-last thrown d rows e w fits some_bytes =
      let r = failed_result hash c b "retry_exhausted" max_failures in
      rw
        (
          transient_failure,
          record_transient_failure,
          e,
          complete_with_results-one next complete bytes r o (counted d rows) w.absent w.there fits
              some_bytes,
        )
        (refl, find?-stored r o (bytes r) d.state.results w.absent)

  -- When the first command of the queue has no result yet and an overlay with room for one, fewer
  -- than five failures are counted for it, and the answers that come, as many as are left to five,
  -- are all failures or ask to try again, then the transaction has left the queue, and the result of
  -- the command is stored as failed with `retry_exhausted`, completed.
  pub uploads-IsGivenUp :
      (answers : List (Value → Answer)) (d : Device Q)
      → IsWaiting next c b o d
      → failures c.command_id d.state.attempts < max_failures
      → length answers + failures c.command_id d.state.attempts ≡ max_failures
      → All (λ answer. (v : Value) → IsTransient (answer v)) answers
      → leb (bytes (failed_result hash c b "retry_exhausted" max_failures)) o.serialized_bytes
        ≡ true
      → leb 1 (bytes (failed_result hash c b "retry_exhausted" max_failures)) ≡ true
      → IsGivenUp d (uploads next complete bytes hash other bound answers d)
  uploads-IsGivenUp [] d w h e ts fits some_bytes = absurd (omega (arith, h, e))
  uploads-IsGivenUp (answer ∷ []) d w h e (t, ts) fits some_bytes =
      let (rows, counts, now) = record_failure-failures c.command_id d.state.attempts h in
      let (thrown, same) = upload_data-transient answer d t w in
      let last : suc (failures c.command_id d.state.attempts) ≡ max_failures = omega (arith, e) in
      subst (λ outcome. IsGivenUp d outcome.0) (sym same)
        (transient_failure-last thrown d rows (rw last at counts) w fits some_bytes)
  uploads-IsGivenUp (answer ∷ answer' ∷ answers) d w h e (t, ts) fits some_bytes =
      let (rows, counts, now) = record_failure-failures c.command_id d.state.attempts h in
      let (thrown, same) = upload_data-transient answer d t w in
      let n = failures c.command_id d.state.attempts in
      let fewer : suc n < max_failures = omega (arith, e) in
      let few : leb max_failures (suc n) ≡ false = ground (arith, fewer) in
      let after = transient_failure-again thrown d rows n counts few in
      let soon : failures c.command_id rows < max_failures = rw now fewer in
      let left : length (answer' ∷ answers) + failures c.command_id rows ≡ max_failures =
        omega (arith, e, now) in
      subst
        (λ d'. IsGivenUp d (uploads next complete bytes hash other bound (answer' ∷ answers) d'))
        (sym (ap (λ outcome. outcome.0) same ∙ after))
        (uploads-IsGivenUp (answer' ∷ answers) (counted d rows) (counted-IsWaiting d rows w) soon
          left ts fits some_bytes)
