-- ===== src/Journeys/Stored/Encoding.antt =====
-- The data as the value that is stored: the fields of each record under the names of the source.
use trax_os.Common.{String, Option, none, some, List, [], ◌∷◌}
use trax_os.Common.Int.{ℤ, pos}
use trax_os.Common.Number.{integer}
use trax_os.Journeys.Domain.{
  Journey, JourneySegment, PackingItem, JourneyData, SegmentDetails, stay, move, JourneyStatus,
  planning, active, completed, archived, PackingCategory, documents, clothing, toiletries,
  electronics, other,
}
use trax_os.Common.Json.{
  Value, Values, Fields, null, boolean, number, text, array, object, no_values, item, no_fields,
  entry,
}

abbrev pub encode_date : Option String → Value
encode_date none = null
encode_date (some s) = text s

abbrev pub encode_int : ℤ → Value
encode_int n = number (integer n)

abbrev pub encode_status : JourneyStatus → Value
encode_status planning = text "planning"
encode_status active = text "active"
encode_status completed = text "completed"
encode_status archived = text "archived"

abbrev pub encode_category : PackingCategory → Value
encode_category documents = text "documents"
encode_category clothing = text "clothing"
encode_category toiletries = text "toiletries"
encode_category electronics = text "electronics"
encode_category other = text "other"

abbrev pub encode_journey : Journey → Value
encode_journey j = object (
    entry "id" (text j.id) (
      entry "name" (text j.name) (
        entry "startDate" (encode_date j.start_date) (
          entry "endDate" (encode_date j.end_date) (
            entry "status" (encode_status j.status) (
              entry "recordVersion" (encode_int j.record_version) (
                entry "createdAt" (text j.created_at)
                  (entry "updatedAt" (text j.updated_at) no_fields))))))))

abbrev pub encode_details : SegmentDetails → Fields
encode_details (stay place) = entry "kind" (text "stay") (entry "placeName" (text place) no_fields)
encode_details (move origin destination mode) = entry "kind" (text "move") (
    entry "originName" (text origin)
      (entry "destinationName" (text destination) (entry "transportMode" (text mode) no_fields)))

abbrev pub encode_segment : JourneySegment → Value
encode_segment s = object (
    entry "id" (text s.id) (
      entry "journeyId" (text s.journey_id) (
        entry "position" (encode_int s.position) (
          entry "startDate" (encode_date s.start_date) (
            entry "endDate" (encode_date s.end_date) (
              entry "notes" (text s.notes) (
                entry "recordVersion" (encode_int s.record_version) (
                  entry "createdAt" (text s.created_at)
                    (entry "updatedAt" (text s.updated_at) (encode_details s.details))))))))))

abbrev pub encode_item : PackingItem → Value
encode_item i = object (
    entry "id" (text i.id) (
      entry "journeyId" (text i.journey_id) (
        entry "label" (text i.label) (
          entry "category" (encode_category i.category) (
            entry "quantity" (encode_int i.quantity) (
              entry "packedQuantity" (number i.packed_quantity) (
                entry "essential" (boolean i.essential) (
                  entry "recordVersion" (encode_int i.record_version) (
                    entry "createdAt" (text i.created_at)
                      (entry "updatedAt" (text i.updated_at) no_fields))))))))))

abbrev pub encode_all {ℓ} : {A : Type ℓ} → (A → Value) → List A → Values
encode_all encode [] = no_values
encode_all encode (x ∷ xs) = item (encode x) (encode_all encode xs)

abbrev pub encode : JourneyData → Value
encode d = object (
    entry "schemaVersion" (encode_int (pos 1)) (
      entry "journeys" (array (encode_all encode_journey d.journeys)) (
        entry "segments" (array (encode_all encode_segment d.segments))
          (entry "packingItems" (array (encode_all encode_item d.packing_items)) no_fields))))
