-- ===== src/Repository/Rows/SegmentRow.antt =====
-- The rows that `segmentFrom` of http-journey-repository.ts accepts.
use trax_os.Common.{
  eq_iff, ap, true, false, ◌≡◌, ◌↔◌, refl, subst, ok, WhenOk, WhenOk-bind, WhenOk-eq-ok, bind-eq-ok,
  arith, Bool-cases, inl, inr,
}
use trax_os.Common.Json.{Value, Fields, text, object, lookup, has_member}
use trax_os.Journeys.Stored.Encoding.{encode_date, encode_int}
use trax_os.Journeys.Domain.{JourneySegment, SegmentDetails, stay, move}
use trax_os.Repository.Rows.{
  required, string, nullable, whole, truth, read_segment, segment_from, segment_keys, is_stay,
  details_from,
}
use trax_os.Repository.Rows.Reading.{
  ok_eq, string-eq-ok, nullable-eq-ok, nullable-encode_date, whole-eq-ok, has_member-lookup,
  required-eq-ok,
}

-- The fields of a stay, and those of a move, whose kind is any other value.
abbrev pub IsDetails : Fields → SegmentDetails → Type 0
IsDetails row (stay place) =
    (lookup row "kind" ≡ text "stay") × (lookup row "place_name" ≡ text place)
IsDetails row (move origin destination mode) =
    (has_member row "kind" ≡ true)
    × (is_stay (lookup row "kind") ≡ false)
    × (lookup row "origin_name" ≡ text origin)
    × (lookup row "destination_name" ≡ text destination)
    × (lookup row "transport_mode" ≡ text mode)

is_stay-eq-true : (v : Value) → is_stay v ≡ true → v ≡ text "stay"
is_stay-eq-true (text s) e = ap text (ground (arith, eq_iff s "stay"))
is_stay-eq-true _ e = cc

details_from-IsDetails :
    (row : Fields)
    → has_member row "kind" ≡ true
    → WhenOk (IsDetails row) (details_from row (is_stay (lookup row "kind")))
unfolding details_from
details_from-IsDetails row there = elim (Bool-cases (is_stay (lookup row "kind"))) [
  | inl stays ↦ rw stays (
      WhenOk-bind (IsDetails row) (string (lookup row "place_name")) _
        (λ place e. (is_stay-eq-true _ stays, string-eq-ok _ e)))
  | inr moves ↦ rw moves (
      WhenOk-bind (IsDetails row) (string (lookup row "origin_name")) _ (λ origin e.
        WhenOk-bind (IsDetails row) (string (lookup row "destination_name")) _ (λ destination f.
          WhenOk-bind (IsDetails row) (string (lookup row "transport_mode")) _
            (λ mode g. (there, moves, string-eq-ok _ e, string-eq-ok _ f, string-eq-ok _ g)))))
]

details_from-eq-ok :
    (row : Fields) (d : SegmentDetails)
    → IsDetails row d
    → details_from row (is_stay (lookup row "kind")) ≡ ok d
unfolding details_from string
details_from-eq-ok row (stay place) (kind, e) = rw (kind, e)
details_from-eq-ok row (move origin destination mode) (there, moves, e, f, g) = rw (moves, e, f, g)

IsDetails-kind :
    (row : Fields) (d : SegmentDetails) → IsDetails row d → has_member row "kind" ≡ true
IsDetails-kind row (stay place) (kind, e) = has_member-lookup row "kind" _ kind refl
IsDetails-kind row (move origin destination mode) h = h.0

kind_present :
    (row : Fields) {r : Fields}
    → required segment_keys (object row) ≡ ok r
    → has_member row "kind" ≡ true
unfolding required
kind_present row e = elim (Bool-cases (has_member row "kind")) [
  | inl there ↦ there
  | inr missing ↦ ground arith
]

pub record IsSegmentRow (row : Fields) (s : JourneySegment) : Type 0 where
  pub id : lookup row "id" ≡ text s.id
  pub journey_id : lookup row "journey_id" ≡ text s.journey_id
  pub position : lookup row "position" ≡ encode_int s.position
  pub start_date : lookup row "start_date" ≡ encode_date s.start_date
  pub end_date : lookup row "end_date" ≡ encode_date s.end_date
  pub notes : lookup row "notes" ≡ text s.notes
  pub record_version : lookup row "record_version" ≡ encode_int s.record_version
  pub created_at : lookup row "created_at" ≡ text s.created_at
  pub updated_at : lookup row "updated_at" ≡ text s.updated_at
  pub details : IsDetails row s.details

read_segment-IsSegmentRow :
    (row : Fields) {x : JourneySegment}
    → has_member row "kind" ≡ true
    → read_segment row ≡ ok x
    → IsSegmentRow row x
unfolding read_segment
read_segment-IsSegmentRow row there e₀ =
    let (id', e_id, e₁) = bind-eq-ok (string (lookup row "id")) _ e₀ in
    let (journey_id', e_journey_id, e₂) = bind-eq-ok (string (lookup row "journey_id")) _ e₁ in
    let (position', e_position, e₃) = bind-eq-ok (whole (lookup row "position")) _ e₂ in
    let (start_date', e_start_date, e₄) = bind-eq-ok (nullable (lookup row "start_date")) _ e₃ in
    let (end_date', e_end_date, e₅) = bind-eq-ok (nullable (lookup row "end_date")) _ e₄ in
    let (notes', e_notes, e₆) = bind-eq-ok (string (lookup row "notes")) _ e₅ in
    let (record_version', e_record_version, e₇) =
      bind-eq-ok (whole (lookup row "record_version")) _ e₆ in
    let (created_at', e_created_at, e₈) = bind-eq-ok (string (lookup row "created_at")) _ e₇ in
    let (updated_at', e_updated_at, e₉) = bind-eq-ok (string (lookup row "updated_at")) _ e₈ in
    let (details', e_details, eₐ) =
      bind-eq-ok (details_from row (is_stay (lookup row "kind"))) _ e₉ in
    subst (IsSegmentRow row) (ok_eq eₐ) (record {
      id = string-eq-ok _ e_id;
      journey_id = string-eq-ok _ e_journey_id;
      position = whole-eq-ok _ e_position;
      start_date = nullable-eq-ok _ e_start_date;
      end_date = nullable-eq-ok _ e_end_date;
      notes = string-eq-ok _ e_notes;
      record_version = whole-eq-ok _ e_record_version;
      created_at = string-eq-ok _ e_created_at;
      updated_at = string-eq-ok _ e_updated_at;
      details = WhenOk-eq-ok (IsDetails row) _ (details_from-IsDetails row there) e_details;
    })

read_segment-eq-ok :
    (row : Fields) (s : JourneySegment) → IsSegmentRow row s → read_segment row ≡ ok s
unfolding read_segment string nullable whole truth
read_segment-eq-ok row s h = rw (
  h.id,
  h.journey_id,
  h.position,
  h.start_date,
  nullable-encode_date s.start_date,
  h.end_date,
  nullable-encode_date s.end_date,
  h.notes,
  h.record_version,
  h.created_at,
  h.updated_at,
  details_from-eq-ok row s.details h.details,
)

required-IsSegmentRow :
    (row : Fields) (s : JourneySegment)
    → IsSegmentRow row s
    → required segment_keys (object row) ≡ ok row
unfolding required
required-IsSegmentRow row s h = rw (
  has_member-lookup row "id" _ h.id (refl),
  has_member-lookup row "journey_id" _ h.journey_id (refl),
  IsDetails-kind row s.details h.details,
  has_member-lookup row "position" _ h.position (refl),
  has_member-lookup row "record_version" _ h.record_version (refl),
  has_member-lookup row "created_at" _ h.created_at (refl),
  has_member-lookup row "updated_at" _ h.updated_at (refl),
  has_member-lookup row "notes" _ h.notes (refl),
)

-- `segmentFrom` returns exactly for a record whose fields, under their names, are those of what it
-- returns.
pub segment_from_iff :
    (value : Value) (s : JourneySegment)
    → (segment_from value ≡ ok s) ↔ ((row : Fields) × (value ≡ object row) × IsSegmentRow row s)
unfolding segment_from
segment_from_iff value s = (
  λ e.
      let (row, kept, read) = bind-eq-ok (required segment_keys value) read_segment e in
      (
        row,
        required-eq-ok segment_keys value kept,
        read_segment-IsSegmentRow row
            (kind_present row (
              subst (λ v. required segment_keys v ≡ ok row) (required-eq-ok segment_keys value kept)
                kept))
            read,
      ),
  λ h. rw (h.1, required-IsSegmentRow h.0 s h.2) (read_segment-eq-ok h.0 s h.2),
)
