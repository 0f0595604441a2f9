-- ===== src/Journeys/Invariant/SegmentSave.antt =====
-- `saveSegment` keeps the data well formed.
use mathlib.Core.List.Permᴰ as Perms
use trax_os.Common.{
  String, Bool, true, false, not, ◌≡◌, refl, sym, ap, List, [], ◌∷◌, ◌==◌, ◌&&◌, Option, none, some,
  any, All, All-mono, All-filter, All-perm, DistinctBy-map, arith, eq_iff, map, find?, Bool-cases,
  inl, inr, if◌then◌else◌, WhenOk, WhenOk-guard, length, is_some, ok,
}
use trax_os.Common.Finding.{find?-holds, All-find?, find?-unique, All-map}
use trax_os.Common.Sort.{sort-perm, sort-map, IsNumberedFrom-map}
use trax_os.Common.Text.{is_blank}
use trax_os.Journeys.Domain.{
  JourneySegment, JourneyData, SegmentInput, validate_segment, segments_for_journey,
}
use trax_os.Journeys.Service.{
  operation, item_not_found, Runtime, journey_exists, WhenOk-assert_valid,
  WhenOk-assert_journey_exists, find_segment, saved_segment, store_segment, save_segment, is_given,
}
use trax_os.Journeys.Positions.Renumber.{of_journey}
use trax_os.Journeys.Invariant.{IsSegment, AreSegments, AreNumbered, IsWellFormed, IsFresh}
use trax_os.Journeys.Invariant.JourneyOps.{AreDates}
use trax_os.Journeys.Invariant.SegmentNew.{
  touch_journey-IsWellFormed, named_of_exists, saved_segment-IsSegment, new_segment-numbered,
  new_segment-AreSegments,
}

module _ (date_parses : String → Bool) where
  module _ (d : JourneyData) (journey_id : String) (input : SegmentInput) (r : Runtime)
      (h : IsWellFormed date_parses d) (fresh : IsFresh date_parses d r)
      (dates : AreDates input.start_date input.end_date) (valid : validate_segment input ≡ [])
      (here : journey_exists d journey_id ≡ true) (named : is_blank journey_id ≡ false) where
    module _ (segment_id : String) (e : JourneySegment)
        (found : find_segment d journey_id (some segment_id) ≡ some e) where
      abbrev pub replaced : JourneySegment → JourneySegment
      replaced s =
          if s.id == e.id
          then saved_segment (some e) journey_id (length (segments_for_journey d journey_id)) input
              r
          else s

      owned_by : String → JourneySegment → Bool
      owned_by segment_id s = s.id == segment_id && s.journey_id == journey_id

      found_in : find? (λ s. s.id == segment_id && s.journey_id == journey_id) d.segments ≡ some e
      unfolding find_segment
      found_in = ground arith

      found_journey : e.journey_id ≡ journey_id
      found_journey =
          let holds = find?-holds _ d.segments found_in in
          ground (arith, eq_iff e.journey_id journey_id)

      -- Only the segment itself has its id, so a replacement keeps every id, journey and position.
      pub replaced_same :
          All
            (λ s. ((replaced s).position ≡ s.position) × ((replaced s).journey_id ≡ s.journey_id))
            d.segments
      unfolding saved_segment
      replaced_same =
          All-mono (λ s. s.id ≡ e.id → s ≡ e)
            (λ s. ((replaced s).position ≡ s.position) × ((replaced s).journey_id ≡ s.journey_id))
            (λ s only. elim (Bool-cases (s.id == e.id)) [
              | inl p ↦ rw (p, only ((eq_iff s.id e.id).0 p)) (refl, sym found_journey)
              | inr p ↦ rw p (refl, refl)
            ])
            d.segments (find?-unique (λ s. s.id) _ d.segments h.segments.distinct found_in)

      pub of_journey-replaced :
          (j : String) (ss : List JourneySegment)
          → All
              (λ s. ((replaced s).position ≡ s.position) × ((replaced s).journey_id ≡ s.journey_id))
              ss
          → of_journey j (map replaced ss) ≡ map replaced (of_journey j ss)
      of_journey-replaced j [] k = refl
      of_journey-replaced j (s ∷ ss) ((_, same), k) = elim (Bool-cases (s.journey_id == j)) [
        | inl p ↦ rw (ap (λ i. i == j) same, p) (ap (◌∷◌ (replaced s)) (of_journey-replaced j ss k))
        | inr p ↦ rw (ap (λ i. i == j) same, p) (of_journey-replaced j ss k)
      ]

      replaced-numbered : AreNumbered (map replaced d.segments)
      replaced-numbered j =
          let same =
            All-filter (λ s. (replaced s).position ≡ s.position) (λ s. s.journey_id == j) d.segments
              (All-mono _ (λ s. (replaced s).position ≡ s.position) (λ s p. p.0) d.segments
                replaced_same) in
          rw
            (
              of_journey-replaced j d.segments replaced_same,
              sort-map (λ s. s.position) replaced (of_journey j d.segments) same,
            )
            (IsNumberedFrom-map (λ s. s.position) replaced 0 _
              (All-perm _ (Perms.symm (sort-perm (λ s. s.position) (of_journey j d.segments))) same)
              (h.numbered j))

      pub id-replaced : (s : JourneySegment) → (replaced s).id ≡ s.id
      unfolding saved_segment
      id-replaced s = ground (arith, eq_iff s.id e.id)

      replaced-IsSegment :
          (s : JourneySegment) → IsSegment date_parses s → IsSegment date_parses (replaced s)
      replaced-IsSegment s k = elim (Bool-cases (s.id == e.id)) [
        | inl p ↦ rw p (
            saved_segment-IsSegment date_parses d journey_id input r h fresh dates valid here named
              _ e (All-find? (IsSegment date_parses) _ d.segments found_in h.segments.each))
        | inr p ↦ rw p k
      ]

      replaced-owned :
          (s : JourneySegment)
          → any (λ j. j.id == s.journey_id) d.journeys ≡ true
          → any (λ j. j.id == (replaced s).journey_id) d.journeys ≡ true
      unfolding saved_segment
      replaced-owned s k = elim (Bool-cases (s.id == e.id)) [ inl p ↦ rw p here | inr p ↦ rw p k ]

      replaced-AreSegments : AreSegments date_parses d.journeys (map replaced d.segments)
      replaced-AreSegments = record {
        distinct = DistinctBy-map (λ s. s.id) replaced id-replaced d.segments h.segments.distinct;
        each = All-map _ _ replaced replaced-IsSegment d.segments h.segments.each;
        owned = All-map _ _ replaced replaced-owned d.segments h.segments.owned;
      }

    stored_segment-IsWellFormed :
        (segment_id : Option String) (existing : Option JourneySegment)
        → find_segment d journey_id segment_id ≡ existing
        → IsWellFormed date_parses (record d {
          segments =
              store_segment existing
                (saved_segment existing journey_id
                  (length (segments_for_journey d journey_id))
                  input
                  r)
                d.segments;
        })
    unfolding store_segment
    stored_segment-IsWellFormed segment_id none e = record {
      journeys = h.journeys;
      segments =
          new_segment-AreSegments date_parses d journey_id input r h fresh dates valid here named _;
      numbered =
          new_segment-numbered date_parses d journey_id input r h fresh dates valid here named;
      items = h.items;
    }
    stored_segment-IsWellFormed (some segment_id) (some e) found = record {
      journeys = h.journeys;
      segments = replaced-AreSegments segment_id e found;
      numbered = replaced-numbered segment_id e found;
      items = h.items;
    }
    stored_segment-IsWellFormed none (some e) found = unfold find_segment in cc

  pub save_segment-IsWellFormed :
      (d : JourneyData) (journey_id : String) (input : SegmentInput) (r : Runtime)
      (segment_id : Option String)
      → IsWellFormed date_parses d
      → IsFresh date_parses d r
      → AreDates input.start_date input.end_date
      → WhenOk (IsWellFormed date_parses) (save_segment d journey_id input r segment_id)
  unfolding save_segment
  save_segment-IsWellFormed d journey_id input r segment_id h fresh dates =
      WhenOk-assert_journey_exists (IsWellFormed date_parses) d journey_id _ λ here.
        WhenOk-assert_valid (IsWellFormed date_parses) (validate_segment input) _ λ valid.
          WhenOk-guard (IsWellFormed date_parses)
            (not (is_given segment_id && not (is_some (find_segment d journey_id segment_id))))
            (operation item_not_found) (ok _)
            λ _. touch_journey-IsWellFormed date_parses _ journey_id r 1 fresh.now (
              stored_segment-IsWellFormed d journey_id input r h fresh dates valid here
                (named_of_exists date_parses journey_id d.journeys h.journeys.each here) segment_id
                _ refl)
