-- ===== src/Repository/Rows/JourneyRow.antt =====
-- The rows that `journeyFrom` of http-journey-repository.ts accepts.
use trax_os.Common.{subst, ◌≡◌, ◌↔◌, refl, ok, bind-eq-ok}
use trax_os.Common.Json.{Value, Fields, text, object, lookup}
use trax_os.Journeys.Stored.Encoding.{encode_date, encode_int, encode_status}
use trax_os.Journeys.Domain.{Journey}
use trax_os.Repository.Rows.{
  required, string, nullable, whole, truth, status, read_journey, journey_from, journey_keys,
}
use trax_os.Repository.Rows.Reading.{
  ok_eq, string-eq-ok, nullable-eq-ok, nullable-encode_date, whole-eq-ok, status-eq-ok,
  status-encode_status, is_undefined-encode_status, has_member-lookup, required-eq-ok,
}

pub record IsJourneyRow (row : Fields) (j : Journey) : Type 0 where
  pub id : lookup row "id" ≡ text j.id
  pub name : lookup row "name" ≡ text j.name
  pub start_date : lookup row "start_date" ≡ encode_date j.start_date
  pub end_date : lookup row "end_date" ≡ encode_date j.end_date
  pub status : lookup row "status" ≡ encode_status j.status
  pub record_version : lookup row "record_version" ≡ encode_int j.record_version
  pub created_at : lookup row "created_at" ≡ text j.created_at
  pub updated_at : lookup row "updated_at" ≡ text j.updated_at

read_journey-IsJourneyRow :
    (row : Fields) {x : Journey} → read_journey row ≡ ok x → IsJourneyRow row x
unfolding read_journey
read_journey-IsJourneyRow row e₀ =
    let (id', e_id, e₁) = bind-eq-ok (string (lookup row "id")) _ e₀ in
    let (name', e_name, e₂) = bind-eq-ok (string (lookup row "name")) _ e₁ in
    let (start_date', e_start_date, e₃) = bind-eq-ok (nullable (lookup row "start_date")) _ e₂ in
    let (end_date', e_end_date, e₄) = bind-eq-ok (nullable (lookup row "end_date")) _ e₃ in
    let (status', e_status, e₅) = bind-eq-ok (status (lookup row "status")) _ e₄ in
    let (record_version', e_record_version, e₆) =
      bind-eq-ok (whole (lookup row "record_version")) _ e₅ in
    let (created_at', e_created_at, e₇) = bind-eq-ok (string (lookup row "created_at")) _ e₆ in
    let (updated_at', e_updated_at, e₈) = bind-eq-ok (string (lookup row "updated_at")) _ e₇ in
    subst (IsJourneyRow row) (ok_eq e₈) (record {
      id = string-eq-ok _ e_id;
      name = string-eq-ok _ e_name;
      start_date = nullable-eq-ok _ e_start_date;
      end_date = nullable-eq-ok _ e_end_date;
      status = status-eq-ok _ e_status;
      record_version = whole-eq-ok _ e_record_version;
      created_at = string-eq-ok _ e_created_at;
      updated_at = string-eq-ok _ e_updated_at;
    })

read_journey-eq-ok : (row : Fields) (j : Journey) → IsJourneyRow row j → read_journey row ≡ ok j
unfolding read_journey string nullable whole truth
read_journey-eq-ok row j h = rw (
  h.id,
  h.name,
  h.start_date,
  nullable-encode_date j.start_date,
  h.end_date,
  nullable-encode_date j.end_date,
  h.status,
  status-encode_status j.status,
  h.record_version,
  h.created_at,
  h.updated_at,
)

required-IsJourneyRow :
    (row : Fields) (j : Journey) → IsJourneyRow row j → required journey_keys (object row) ≡ ok row
unfolding required
required-IsJourneyRow row j h = rw (
  has_member-lookup row "id" _ h.id (refl),
  has_member-lookup row "name" _ h.name (refl),
  has_member-lookup row "status" _ h.status (is_undefined-encode_status j.status),
  has_member-lookup row "record_version" _ h.record_version (refl),
  has_member-lookup row "created_at" _ h.created_at (refl),
  has_member-lookup row "updated_at" _ h.updated_at (refl),
)

-- `journeyFrom` returns exactly for a record whose fields, under their names, are those of what it
-- returns.
pub journey_from_iff :
    (value : Value) (j : Journey)
    → (journey_from value ≡ ok j) ↔ ((row : Fields) × (value ≡ object row) × IsJourneyRow row j)
unfolding journey_from
journey_from_iff value j = (
  λ e.
      let (row, kept, read) = bind-eq-ok (required journey_keys value) read_journey e in
      (row, required-eq-ok journey_keys value kept, read_journey-IsJourneyRow row read),
  λ h. rw (h.1, required-IsJourneyRow h.0 j h.2) (read_journey-eq-ok h.0 j h.2),
)
