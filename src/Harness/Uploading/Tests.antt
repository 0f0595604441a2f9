-- ===== src/Harness/Uploading/Tests.antt =====
-- A device that waits to upload a command, and servers that do not take it.
use trax_os.Common.{
  ℕ, String, true, false, Option, none, some, List, [], ◌∷◌, ◌≡◌, refl, err, arith,
}
use trax_os.Common.Json.{Value}
use trax_os.Harness.Protocol.{Command, Binding, update}
use trax_os.Harness.Queue.{
  queued_entry, validate_queued_crud, validate_entries, validate_entry, columns_of,
  positive_expected_version, queued_type, queued_payload,
}
use trax_os.Harness.LocalState.{TerminalResult, Overlay}
use trax_os.Harness.Uploading.{
  Transaction, Answer, unreachable, answered, Device, needs_reset, upload_data, upload_transaction,
  send_commands, take_answer, uploads,
}
use trax_os.Harness.Uploading.Exhaustion.{IsWaiting, IsGivenUp, uploads-IsGivenUp}

abbrev rename : Command
rename = record {
  command_id = "c1";
  kind = update;
  resource_id = "r1";
  resource_incarnation_id = "i1";
  expected_record_version = 3;
  payload = some "boat";
}

abbrev session : Binding
session = record { replica_id = "d1"; replica_epoch = 2 }

abbrev overlay : Overlay
overlay = record {
  id = "c1";
  resource_id = "r1";
  resource_incarnation_id = "i1";
  command_type = "ps8.resource.update.v1";
  payload = some "boat";
  expected_record_version = 3;
  serialized_bytes = 512;
  actual_serialized_bytes = 150;
}

abbrev transaction : Transaction
transaction = record { transaction_id = "17"; crud = queued_entry rename "k1" ∷ [] }

abbrev first : List Transaction → Option Transaction
first [] = none
first (t ∷ ts) = some t

abbrev without_first : List Transaction → List Transaction
without_first [] = []
without_first (t ∷ ts) = ts

abbrev device : Device (List Transaction)
device = record {
  state = record { results = []; overlays = overlay ∷ []; attempts = [] };
  queue = transaction ∷ [];
  session = some session;
  reset_required = false;
}

abbrev bytes : TerminalResult → ℕ
bytes r = 300

abbrev no_text : Value → String
no_text v = ""

abbrev lost : Value → Answer
lost body = unreachable

abbrev busy : Value → Answer
busy body = answered 503 none

device-IsWaiting : IsWaiting first rename session overlay device
unfolding validate_queued_crud validate_entries validate_entry columns_of positive_expected_version
    queued_type queued_payload queued_entry
device-IsWaiting = record {
  transaction = transaction;
  first = refl;
  valid = refl;
  session = refl;
  absent = refl;
  there = refl;
}

-- A refused credential asks for a reset and leaves the queue.
runs_reset :
    upload_data first without_first bytes no_text no_text
      (λ r. none)
      (λ body. answered 428 none)
      device
    ≡ (record device { reset_required = true }, err needs_reset)
unfolding upload_data upload_transaction send_commands take_answer validate_queued_crud
    validate_entries validate_entry columns_of positive_expected_version queued_type queued_payload
    queued_entry
runs_reset = refl

uploads-IsGivenUp_example :
    IsGivenUp first without_first bytes no_text no_text
      (λ r. none)
      rename
      session
      overlay
      device
      (uploads first without_first bytes no_text no_text
        (λ r. none)
        (lost ∷ busy ∷ lost ∷ lost ∷ busy ∷ [])
        device)
uploads-IsGivenUp_example =
    uploads-IsGivenUp first without_first bytes no_text no_text (λ r. none) rename session overlay
      (lost ∷ busy ∷ lost ∷ lost ∷ busy ∷ []) device device-IsWaiting (omega arith) refl
      ((λ v. tt), ((λ v. refl), ((λ v. tt), ((λ v. tt), ((λ v. refl), tt))))) refl refl
