-- ===== src/Repository/Replay/JourneyRows.antt =====
-- What the calls of save in http-journey-repository.ts make of the row of a journey.
use trax_os.Common.{
  String, Bool, true, false, not, ◌||◌, Option, none, some, ◌≡◌, refl, ap, ◌==◌, if◌then◌else◌,
  eq_iff, arith,
}
use trax_os.Common.Json.{Value, Fields, object, entry, no_fields, text, text_of, field}
use trax_os.Journeys.Domain.{Journey}
use trax_os.Repository.Requests.{
  Request, journey_body, journey_changed, same_date, append_fields, status_text, update_payload,
}
use trax_os.Repository.Plan.{Call, request, journey_update}
use trax_os.Repository.Replay.Runs.{written, given_id, without}
use mathlib.Core.Option

-- the fields of a body, and a status
abbrev with_status : Fields → Value → Fields
with_status body status = append_fields body (entry "status" status no_fields)

-- the fields of a journey: those of its body, and its status
abbrev pub journey_fields : Journey → Fields
journey_fields j = with_status (journey_body j false) (text (status_text j.status))

-- the fields that the payload of an update writes
abbrev updated : Value → Fields
updated payload = without "journey_id" (written payload)

-- what a call makes of the row of the journey `k`; a new journey is in planning
abbrev pub journey_step : String → Call → Option Fields → Option Fields
journey_step k (request (Request.delete_journey j)) row = if j == k then none else row
journey_step k (request (Request.create_journey body)) row =
    if given_id body == k then some (with_status (written body) (text "planning")) else row
journey_step k (journey_update old new) row =
    let payload = update_payload old new in
    if text_of (field payload "journey_id") == k
    then Option.map (λ before. updated payload) row
    else row
journey_step k _ row = row

abbrev pub journey_row : Option Journey → Option Fields
journey_row none = none
journey_row (some j) = some (journey_fields j)

pub created_fields : (j : Journey) → written (object (journey_body j true)) ≡ journey_body j false
unfolding journey_body
created_fields j = refl

pub created_id : (j : Journey) → given_id (object (journey_body j true)) ≡ j.id
unfolding journey_body
created_id j = refl

pub updated_id :
    (old new : Journey) → text_of (field (update_payload old new) "journey_id") ≡ new.id
unfolding journey_body
updated_id old new = refl

pub updated_fields : (old new : Journey) → updated (update_payload old new) ≡ journey_fields new
unfolding journey_body
updated_fields old new = refl

same_date-eq : (a b : Option String) → same_date a b ≡ true → a ≡ b
same_date-eq none none e = refl
same_date-eq (some a) (some b) e = ap some ((eq_iff a b).0 e)
same_date-eq none (some b) e = cc
same_date-eq (some a) none e = cc

all_hold :
    (p q r s : Bool)
    → (not p || not q || not r || not s) ≡ false
    → (p ≡ true) × (q ≡ true) × (r ≡ true) × (s ≡ true)
all_hold p q r s e = (ground arith, ground arith, ground arith, ground arith)

pub same_fields :
    (a b : Journey) → journey_changed a b ≡ false → journey_fields a ≡ journey_fields b
unfolding journey_changed journey_body
same_fields a b e =
    let (name, start, end, status) =
      all_hold (a.name == b.name) (same_date a.start_date b.start_date)
        (same_date a.end_date b.end_date) _ e in
    rw
      (
        (eq_iff a.name b.name).0 name,
        same_date-eq a.start_date b.start_date start,
        same_date-eq a.end_date b.end_date end,
        (eq_iff (status_text a.status) (status_text b.status)).0 status,
      )
      refl
