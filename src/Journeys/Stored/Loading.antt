-- ===== src/Journeys/Stored/Loading.antt =====
-- Well-formed data that is stored is accepted when it is loaded.
use trax_os.Common.{
  String, Bool, true, false, ◌==◌, List, [], ◌∷◌, ◌≡◌, refl, any, All, DistinctBy, arith, ok,
  Bool-cases, inl, inr, All-mono,
}
use trax_os.Common.Int.{ℤ, pos}
use trax_os.Journeys.Domain.{
  Journey, JourneySegment, PackingItem, JourneyData, SegmentDetails, stay, move,
}
use trax_os.Journeys.Invariant.{IsJourney, IsSegment, IsItem, IsWellFormed, IsNamed}
use trax_os.Journeys.Stored.Places.{AreApart, AreApart-numbered}
use trax_os.Common.Json.{field, text_of, Values, no_values, item}
use trax_os.Journeys.Stored.{
  journey_ok, journey_tests, segment_ok, segment_tests, item_ok, item_tests, segments_ok, items_ok,
  details_ok, parse_journey_data, data_ok, data_tests, journeys_ok, ids_after,
}
use trax_os.Journeys.Stored.Encoding.{
  encode_journey, encode_segment, encode_item, encode_all, encode,
}
use trax_os.Journeys.Stored.Parts.{
  int_of-of_between, is_int-of_between, and_of, passes_of, ◌&◌, not_of, nullable-encode,
  dates-encode, has_status, AreNew, AreNew-cons, AreNew-nil, leb_of, has_category, is_taken,
  is_taken-cons, All-trivial,
}

module _ (date_parses : String → Bool) where
  journey_ok-encode :
      (seen : List String) (j : Journey)
      → any (λ s. s == j.id) seen ≡ false
      → IsJourney date_parses j
      → journey_ok date_parses seen (encode_journey j) ≡ true
  unfolding journey_ok
  journey_ok-encode seen j new h = passes_of (journey_tests date_parses seen (encode_journey j)) (
      refl
      & not_of h.id
      & not_of new
      & not_of h.name
      & has_status j.status
      & nullable-encode j.start_date h.start_date
      & nullable-encode j.end_date h.end_date
      & dates-encode j.start_date j.end_date h.order
      & leb_of (pos 1) j.record_version h.version
      & h.created_at
      & h.updated_at
      & tt)

  journeys_ok-encode :
      (seen : List String) (js : List Journey)
      → AreNew (λ j. j.id) seen js
      → DistinctBy (λ j. j.id) js
      → All (IsJourney date_parses) js
      → journeys_ok date_parses seen (encode_all encode_journey js) ≡ true
  unfolding journeys_ok
  journeys_ok-encode seen [] new distinct h = refl
  journeys_ok-encode seen (j ∷ js) (e, new) (apart, distinct) (valid, h) =
      and_of (journey_ok-encode seen j e valid) (
        journeys_ok-encode (j.id ∷ seen) js (AreNew-cons (λ x. x.id) j.id seen js apart new)
          distinct h)

  ids_after-seen :
      (k : String) (seen : List String) (vs : Values)
      → any (λ s. s == k) seen ≡ true
      → any (λ s. s == k) (ids_after date_parses seen vs) ≡ true
  ids_after-seen k seen no_values h = h
  ids_after-seen k seen (item v vs) h =
      ids_after-seen k (text_of (field v "id") ∷ seen) vs (ground arith)

  ids_after-encode :
      (k : String) (seen : List String) (js : List Journey)
      → any (λ j. j.id == k) js ≡ true
      → any (λ s. s == k) (ids_after date_parses seen (encode_all encode_journey js)) ≡ true
  ids_after-encode k seen [] h = cc
  ids_after-encode k seen (j ∷ js) h = elim (Bool-cases (j.id == k)) [
    | inl e ↦ ids_after-seen k (j.id ∷ seen) (encode_all encode_journey js) (ground arith)
    | inr e ↦ ids_after-encode k (j.id ∷ seen) js (ground arith)
  ]

  details_ok-encode :
      (s : JourneySegment) (details : SegmentDetails)
      → IsNamed details
      → details_ok date_parses (encode_segment (record s { details = details })) ≡ true
  unfolding details_ok
  details_ok-encode s (stay place) h = not_of h
  details_ok-encode s (move origin destination mode) (h, k) =
      and_of (and_of (not_of h) (not_of k)) refl

  segment_ok-encode :
      (js seen : List String) (taken : List (String × ℤ)) (s : JourneySegment)
      → any (λ k. k == s.id) seen ≡ false
      → any (λ k. k == s.journey_id) js ≡ true
      → is_taken taken s ≡ false
      → IsSegment date_parses s
      → segment_ok date_parses js seen taken (encode_segment s) ≡ true
  unfolding segment_ok
  segment_ok-encode js seen taken s new owned free h =
      passes_of (segment_tests date_parses js seen taken (encode_segment s)) (
        refl
        & not_of h.id
        & not_of new
        & not_of h.journey_id
        & owned
        & leb_of (pos 0) s.position h.position
        & nullable-encode s.start_date h.start_date
        & nullable-encode s.end_date h.end_date
        & dates-encode s.start_date s.end_date h.order
        & refl
        & leb_of (pos 1) s.record_version h.version
        & h.created_at
        & h.updated_at
        & details_ok-encode s s.details h.names
        & not_of free
        & tt)

  segments_ok-encode :
      (js seen : List String) (taken : List (String × ℤ)) (ss : List JourneySegment)
      → AreNew (λ s. s.id) seen ss
      → DistinctBy (λ s. s.id) ss
      → All (λ s. is_taken taken s ≡ false) ss
      → AreApart ss
      → All (λ s. any (λ k. k == s.journey_id) js ≡ true) ss
      → All (IsSegment date_parses) ss
      → segments_ok date_parses js seen taken (encode_all encode_segment ss) ≡ true
  unfolding segments_ok
  segments_ok-encode js seen taken [] new distinct free apart owned h = refl
  segments_ok-encode js seen taken (s ∷ ss) (e, new) (others, distinct) (f, free) (a, apart)
        (o, owned) (valid, h) =
      and_of (segment_ok-encode js seen taken s e o f valid) (
        segments_ok-encode js (s.id ∷ seen) ((s.journey_id, s.position) ∷ taken) ss
          (AreNew-cons (λ x. x.id) s.id seen ss others new) distinct
          (is_taken-cons s taken ss a free) apart owned h)

  item_ok-encode :
      (js seen : List String) (i : PackingItem)
      → any (λ k. k == i.id) seen ≡ false
      → any (λ k. k == i.journey_id) js ≡ true
      → IsItem date_parses i
      → item_ok date_parses js seen (encode_item i) ≡ true
  unfolding item_ok
  item_ok-encode js seen i new owned h =
      passes_of (item_tests date_parses js seen (encode_item i)) (
        refl
        & not_of h.id
        & not_of new
        & not_of h.journey_id
        & owned
        & not_of h.label
        & has_category i.category
        & refl
        & is_int-of_between (pos 0) i.quantity i.packed_quantity h.packed
        & leb_of (pos 1) i.quantity h.quantity_min
        & leb_of i.quantity (pos 99) h.quantity_max
        & (int_of-of_between (pos 0) i.quantity i.packed_quantity h.packed).0
        & (int_of-of_between (pos 0) i.quantity i.packed_quantity h.packed).1
        & refl
        & leb_of (pos 1) i.record_version h.version
        & h.created_at
        & h.updated_at
        & tt)

  items_ok-encode :
      (js seen : List String) (items : List PackingItem)
      → AreNew (λ i. i.id) seen items
      → DistinctBy (λ i. i.id) items
      → All (λ i. any (λ k. k == i.journey_id) js ≡ true) items
      → All (IsItem date_parses) items
      → items_ok date_parses js seen (encode_all encode_item items) ≡ true
  unfolding items_ok
  items_ok-encode js seen [] new distinct owned h = refl
  items_ok-encode js seen (i ∷ items) (e, new) (others, distinct) (o, owned) (valid, h) =
      and_of (item_ok-encode js seen i e o valid) (
        items_ok-encode js (i.id ∷ seen) items (AreNew-cons (λ x. x.id) i.id seen items others new)
          distinct owned h)

  -- Well-formed data in its stored form is accepted, and loaded as it was stored.
  pub parse_journey_data-encode :
      (d : JourneyData)
      → IsWellFormed date_parses d
      → parse_journey_data date_parses (encode d) ≡ ok (encode d)
  unfolding parse_journey_data
  parse_journey_data-encode d h =
      let owner = λ (k : String). ids_after-encode k [] d.journeys in
      let accepted : data_ok date_parses (encode d) ≡ true =
        passes_of (data_tests date_parses (encode d)) (
          refl
          & refl
          & refl
          & refl
          & refl
          & journeys_ok-encode [] d.journeys (AreNew-nil (λ j. j.id) d.journeys) h.journeys.distinct
              h.journeys.each
          & segments_ok-encode _ [] [] d.segments (AreNew-nil (λ s. s.id) d.segments)
              h.segments.distinct (All-trivial d.segments) (AreApart-numbered d.segments h.numbered)
              (All-mono _ _ (λ s e. owner s.journey_id e) d.segments h.segments.owned)
              h.segments.each
          & items_ok-encode _ [] d.packing_items (AreNew-nil (λ i. i.id) d.packing_items)
              h.items.distinct
              (All-mono _ _ (λ i e. owner i.journey_id e) d.packing_items h.items.owned)
              h.items.each
          & tt) in
      rw accepted refl
