-- ===== src/Journeys/Order/Saving.antt =====
-- `saveSegment` puts a new id behind the order of its journey, and leaves the order to an edit.

use mathlib.Core.List.{append-nil}
use trax_os.Common.{
  eq_refl, ap₂, String, Bool, true, false, not, ◌≡◌, ◌≢◌, refl, ap, ◌∙◌, List, [], ◌∷◌, ◌++◌, ◌==◌,
  ◌&&◌, Option, none, some, All-mono, All-filter, arith, eq_iff, filter-append, eq_refl, ap₂, map,
  length, ok, WhenOk, WhenOk-guard, WhenOk-eq-ok, is_some,
}
use trax_os.Common.Sort.{sort-append_numbered, sort, sort-map}
use trax_os.Common.Text.{is_blank}
use trax_os.Journeys.Domain.{
  JourneySegment, JourneyData, SegmentInput, segments_for_journey, validate_segment,
}
use trax_os.Journeys.Service.{
  Runtime, operation, item_not_found, touch_journey, journey_exists, is_given, find_segment,
  saved_segment, store_segment, save_segment, WhenOk-assert_journey_exists, WhenOk-assert_valid,
}
use trax_os.Journeys.Positions.Renumber.{of_journey}
use trax_os.Journeys.Invariant.{IsWellFormed, IsFresh}
use trax_os.Journeys.Invariant.JourneyOps.{AreDates}
use trax_os.Journeys.Invariant.SegmentNew.{named_of_exists}
use trax_os.Journeys.Invariant.SegmentSave.{
  replaced, replaced_same, of_journey-replaced, id-replaced,
}
use trax_os.Journeys.Order.{ids, order}

-- What a save does to the order of its journey: a new segment comes last.
abbrev pub extended : Option JourneySegment → String → List String → List String
extended none id xs = xs ++ id ∷ []
extended (some e) id xs = xs

ids-append :
    (ss : List JourneySegment) (s : JourneySegment) → ids (ss ++ s ∷ []) ≡ ids ss ++ s.id ∷ []
ids-append [] s = refl
ids-append (x ∷ ss) s = ap (◌∷◌ x.id) (ids-append ss s)

ids-map :
    (f : JourneySegment → JourneySegment)
    → ((s : JourneySegment) → (f s).id ≡ s.id)
    → (ss : List JourneySegment) → ids (map f ss) ≡ ids ss
ids-map f same [] = refl
ids-map f same (s ∷ ss) = ap₂ ◌∷◌ (same s) (ids-map f same ss)

module _ (date_parses : String → Bool) (d : JourneyData) (journey_id : String)
    (input : SegmentInput) (r : Runtime) (h : IsWellFormed date_parses d)
    (fresh : IsFresh date_parses d r) (dates : AreDates input.start_date input.end_date) where
  abbrev Saved : Option JourneySegment → JourneyData → Type 0
  Saved existing d' =
      (order d' journey_id ≡ extended existing r.id (order d journey_id))
      × ((k : String) → journey_id ≢ k → order d' k ≡ order d k)

  touched-Saved :
      (existing : Option JourneySegment) (d' : JourneyData)
      → Saved existing d'
      → Saved existing (touch_journey d' journey_id r 1)
  unfolding touch_journey segments_for_journey
  touched-Saved existing d' k = k

  abbrev with_segment : Option JourneySegment → JourneyData
  with_segment existing = record d {
    segments =
        store_segment existing
          (saved_segment existing journey_id (length (segments_for_journey d journey_id)) input r)
          d.segments;
  }

  new-Saved : Saved none (with_segment none)
  unfolding segments_for_journey saved_segment store_segment
  new-Saved =
      let s = saved_segment none journey_id (length (segments_for_journey d journey_id)) input r in
      let others = of_journey journey_id d.segments in
      let here : of_journey journey_id (d.segments ++ s ∷ []) ≡ others ++ s ∷ [] =
        filter-append (λ t. t.journey_id == journey_id) d.segments (s ∷ [])
        ∙ (rw (eq_refl journey_id) refl) in
      (
        ap (λ ss. ids (sort (λ t. t.position) ss)) here
            ∙ ap ids (sort-append_numbered (λ t. t.position) s others refl (h.numbered journey_id))
            ∙ ids-append (sort (λ t. t.position) others) s,
        λ k other.
            let there : of_journey k (d.segments ++ s ∷ []) ≡ of_journey k d.segments =
              filter-append (λ t. t.journey_id == k) d.segments (s ∷ [])
              ∙ (ground (arith, eq_iff journey_id k, append-nil (of_journey k d.segments))) in
            ap (λ ss. ids (sort (λ t. t.position) ss)) there,
      )

  module _ (valid : validate_segment input ≡ []) (here : journey_exists d journey_id ≡ true)
      (segment_id : String) (e : JourneySegment)
      (found : find_segment d journey_id (some segment_id) ≡ some e) where
    named : is_blank journey_id ≡ false
    named = named_of_exists date_parses journey_id d.journeys h.journeys.each here

    order-replaced : (k : String) → order (with_segment (some e)) k ≡ order d k
    unfolding segments_for_journey store_segment
    order-replaced k =
        let f =
          replaced date_parses d journey_id input r h fresh dates valid here named segment_id e
            found in
        let same =
          replaced_same date_parses d journey_id input r h fresh dates valid here named segment_id e
            found in
        let positions =
          All-filter (λ s. (f s).position ≡ s.position) (λ s. s.journey_id == k) d.segments
            (All-mono _ (λ s. (f s).position ≡ s.position) (λ s p. p.0) d.segments same) in
        ap (λ ss. ids (sort (λ s. s.position) ss))
          (of_journey-replaced date_parses d journey_id input r h fresh dates valid here named
            segment_id e found k d.segments same)
        ∙ ap ids (sort-map (λ s. s.position) f (of_journey k d.segments) positions)
        ∙ ids-map f
            (id-replaced date_parses d journey_id input r h fresh dates valid here named segment_id
              e found)
            (sort (λ s. s.position) (of_journey k d.segments))

  stored-Saved :
      validate_segment input ≡ []
      → journey_exists d journey_id ≡ true
      → (segment_id : Option String) (existing : Option JourneySegment)
      → find_segment d journey_id segment_id ≡ existing
      → Saved existing (with_segment existing)
  stored-Saved valid here segment_id none found = new-Saved
  stored-Saved valid here none (some e) found = unfold find_segment in cc
  stored-Saved valid here (some segment_id) (some e) found = (
    order-replaced valid here segment_id e found journey_id,
    λ k _. order-replaced valid here segment_id e found k,
  )

  save_segment-Saved :
      (segment_id : Option String)
      → WhenOk
          (Saved (find_segment d journey_id segment_id))
          (save_segment d journey_id input r segment_id)
  unfolding save_segment
  save_segment-Saved segment_id =
      let P = Saved (find_segment d journey_id segment_id) in
      WhenOk-assert_journey_exists P d journey_id _ λ here.
        WhenOk-assert_valid P (validate_segment input) _ λ valid.
          WhenOk-guard P
            (not (is_given segment_id && not (is_some (find_segment d journey_id segment_id))))
            (operation item_not_found) (ok _)
            λ _.
              touched-Saved _ (with_segment (find_segment d journey_id segment_id))
                (stored-Saved valid here segment_id (find_segment d journey_id segment_id) refl)

-- On well-formed data, for a form whose date fields hold dates or nothing, an unused id and a clock
-- that shows timestamps, a save that returns puts the id of a new segment behind the order of its
-- journey; an edit of a segment that is found, and every other journey, keep their order.
pub save_segment-order :
    (date_parses : String → Bool) (d d' : JourneyData) (journey_id : String) (input : SegmentInput)
    (r : Runtime) (segment_id : Option String)
    → IsWellFormed date_parses d
    → IsFresh date_parses d r
    → AreDates input.start_date input.end_date
    → save_segment d journey_id input r segment_id ≡ ok d'
    → (order d' journey_id
        ≡ extended (find_segment d journey_id segment_id) r.id (order d journey_id))
      × ((k : String) → journey_id ≢ k → order d' k ≡ order d k)
save_segment-order date_parses d d' journey_id input r segment_id h fresh dates e =
    WhenOk-eq-ok
      (Saved date_parses d journey_id input r h fresh dates (find_segment d journey_id segment_id))
      _ (save_segment-Saved date_parses d journey_id input r h fresh dates segment_id) e
