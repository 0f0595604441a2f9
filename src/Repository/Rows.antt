-- ===== src/Repository/Rows.antt =====
-- The rows that the server answers with, read by `journeyFrom`, `segmentFrom` and `packingFrom` of
-- http-journey-repository.ts.
mod Reading
pub mod JourneyRow
pub mod SegmentRow
pub mod PackingRow
use trax_os.Common.{
  String, Bool, true, false, not, Option, none, some, List, [], ◌∷◌, ◌==◌, any, Result, ok, err,
  ◌>>=◌, ◌>>◌, if◌then◌else◌,
}
use trax_os.Common.Int.{ℤ}
use trax_os.Common.Number.{integer}
use trax_os.Common.Json.{Value, Fields, null, boolean, number, text, object, lookup, has_member}
use trax_os.Journeys.Domain.{
  Journey, JourneySegment, PackingItem, SegmentDetails, stay, move, JourneyStatus, planning, active,
  completed, archived, PackingCategory, documents, clothing, toiletries, electronics, other,
}
use trax_os.Repository.Errors.{RepositoryError, invalid_response}

abbrev pub Read : Type 0 → Type 0
Read A = Result RepositoryError A

unfoldable pub required : List String → Value → Read Fields
required keys (object row) =
    if any (λ k. not (has_member row k)) keys then err invalid_response else ok row
required keys _ = err invalid_response

unfoldable pub string : Value → Read String
string (text s) = ok s
string _ = err invalid_response

unfoldable pub nullable : Value → Read (Option String)
nullable null = ok none
nullable (text s) = ok (some s)
nullable _ = err invalid_response

unfoldable pub whole : Value → Read ℤ
whole (number (integer n)) = ok n
whole _ = err invalid_response

unfoldable pub truth : Value → Read Bool
truth (boolean b) = ok b
truth _ = err invalid_response

-- `value === s` for one of some texts
abbrev pub named {ℓ} : {A : Type ℓ} → List (String × A) → String → Result RepositoryError A
named [] s = err invalid_response
named ((t, a) ∷ names) s = let later = named names s in if s == t then ok a else later

abbrev pub statuses : List (String × JourneyStatus)
statuses =
    ("planning", planning)
    ∷ ("active", active)
    ∷ ("completed", completed)
    ∷ ("archived", archived)
    ∷ []

abbrev pub categories : List (String × PackingCategory)
categories =
    ("documents", documents)
    ∷ ("clothing", clothing)
    ∷ ("toiletries", toiletries)
    ∷ ("electronics", electronics)
    ∷ ("other", other)
    ∷ []

unfoldable pub status : Value → Read JourneyStatus
status (text s) = named statuses s
status _ = err invalid_response

unfoldable pub category : Value → Read PackingCategory
category (text s) = named categories s
category _ = err invalid_response

abbrev pub journey_keys : List String
journey_keys = "id" ∷ "name" ∷ "status" ∷ "record_version" ∷ "created_at" ∷ "updated_at" ∷ []

unfoldable pub read_journey : Fields → Read Journey
read_journey row = do
  id ← string (lookup row "id")
  name ← string (lookup row "name")
  start_date ← nullable (lookup row "start_date")
  end_date ← nullable (lookup row "end_date")
  state ← status (lookup row "status")
  record_version ← whole (lookup row "record_version")
  created_at ← string (lookup row "created_at")
  updated_at ← string (lookup row "updated_at")
  ok (record {
    id = id;
    name = name;
    start_date = start_date;
    end_date = end_date;
    status = state;
    record_version = record_version;
    created_at = created_at;
    updated_at = updated_at;
  })

unfoldable pub journey_from : Value → Read Journey
journey_from value = required journey_keys value >>= read_journey

abbrev pub segment_keys : List String
segment_keys =
    "id" ∷ "journey_id" ∷ "kind" ∷ "position" ∷ "record_version" ∷ "created_at" ∷ "updated_at"
    ∷ "notes" ∷ []

abbrev pub is_stay : Value → Bool
is_stay (text s) = s == "stay"
is_stay _ = false

unfoldable pub details_from : Fields → (kind : Bool) → Read SegmentDetails
details_from row true = do place ← string (lookup row "place_name"); ok (stay place)
details_from row false = do
  origin ← string (lookup row "origin_name")
  destination ← string (lookup row "destination_name")
  mode ← string (lookup row "transport_mode")
  ok (move origin destination mode)

unfoldable pub read_segment : Fields → Read JourneySegment
read_segment row = do
  id ← string (lookup row "id")
  journey_id ← string (lookup row "journey_id")
  position ← whole (lookup row "position")
  start_date ← nullable (lookup row "start_date")
  end_date ← nullable (lookup row "end_date")
  notes ← string (lookup row "notes")
  record_version ← whole (lookup row "record_version")
  created_at ← string (lookup row "created_at")
  updated_at ← string (lookup row "updated_at")
  details ← details_from row (is_stay (lookup row "kind"))
  ok (record {
    id = id;
    journey_id = journey_id;
    position = position;
    start_date = start_date;
    end_date = end_date;
    notes = notes;
    record_version = record_version;
    created_at = created_at;
    updated_at = updated_at;
    details = details;
  })

unfoldable pub segment_from : Value → Read JourneySegment
segment_from value = required segment_keys value >>= read_segment

abbrev pub packing_keys : List String
packing_keys =
    "id" ∷ "journey_id" ∷ "label" ∷ "category" ∷ "quantity" ∷ "packed_quantity" ∷ "essential"
    ∷ "record_version" ∷ "created_at" ∷ "updated_at" ∷ []

unfoldable pub read_packing : Fields → Read PackingItem
read_packing row = do
  id ← string (lookup row "id")
  journey_id ← string (lookup row "journey_id")
  label ← string (lookup row "label")
  kind ← category (lookup row "category")
  quantity ← whole (lookup row "quantity")
  packed_quantity ← whole (lookup row "packed_quantity")
  essential ← truth (lookup row "essential")
  record_version ← whole (lookup row "record_version")
  created_at ← string (lookup row "created_at")
  updated_at ← string (lookup row "updated_at")
  ok (record {
    id = id;
    journey_id = journey_id;
    label = label;
    category = kind;
    quantity = quantity;
    packed_quantity = integer packed_quantity;
    essential = essential;
    record_version = record_version;
    created_at = created_at;
    updated_at = updated_at;
  })

unfoldable pub packing_from : Value → Read PackingItem
packing_from value = required packing_keys value >>= read_packing
