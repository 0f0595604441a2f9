-- ===== src/Journeys/Invariant/SegmentNew.antt =====
-- The segment that `saveSegment` makes is well formed, also as a new one behind the others.

use trax_os.Common.{
  ℕ, String, Bool, true, false, ◌≡◌, refl, List, [], ◌∷◌, ◌++◌, ◌==◌, none, some, any, All,
  All-append, DistinctBy-append, arith, eq_iff, filter-append, Bool-cases, inl, inr, if◌then◌else◌,
  length,
}
use trax_os.Common.Sort.{sort-append-IsNumbered}
use trax_os.Common.Text.{is_blank}
use trax_os.Journeys.Domain.{
  Journey, JourneySegment, JourneyData, SegmentDetails, stay, move, SegmentInput, validate_segment,
  segments_for_journey,
}
use trax_os.Journeys.Service.{
  Runtime, touched, touch_journey, journey_exists, saved_segment, trim_details,
}
use trax_os.Journeys.Format.{or_null-IsDate, out_of_order-or_null, is_blank-trim, is_timestamp}
use trax_os.Journeys.Positions.Renumber.{of_journey}
use trax_os.Journeys.Invariant.{
  IsNamed, IsJourney, IsSegment, AreSegments, AreNumbered, IsWellFormed, IsFresh,
}
use trax_os.Journeys.Invariant.JourneyOps.{AreDates, change_journey-IsWellFormed}
use mathlib.Core.List.{append-nil}

module _ (date_parses : String → Bool) where
  -- The data with other segments, touched.
  pub touch_journey-IsWellFormed :
      (d : JourneyData) (journey_id : String) (r : Runtime) (n : ℕ)
      → ((k : ℕ) → is_timestamp date_parses (r.now k) ≡ true)
      → IsWellFormed date_parses d
      → IsWellFormed date_parses (touch_journey d journey_id r n)
  unfolding touch_journey
  touch_journey-IsWellFormed d journey_id r n now h =
      change_journey-IsWellFormed date_parses touched (λ t j. refl) r
        (λ k j v. let stamp = now k in assumption) d journey_id n h

  trim_details-IsNamed :
      (input : SegmentInput) → validate_segment input ≡ [] → IsNamed (trim_details input.details)
  unfolding validate_segment trim_details
  trim_details-IsNamed input valid = go input.details valid
    where
      go :
          (details : SegmentDetails)
          → validate_segment (record input { details = details }) ≡ []
          → IsNamed (trim_details details)
      go (stay place) e = is_blank-trim place (ground arith)
      go (move origin destination mode) e =
          (is_blank-trim origin (ground arith), is_blank-trim destination (ground arith))

  module _ (d : JourneyData) (journey_id : String) (input : SegmentInput) (r : Runtime)
      (h : IsWellFormed date_parses d) (fresh : IsFresh date_parses d r)
      (dates : AreDates input.start_date input.end_date) (valid : validate_segment input ≡ [])
      (here : journey_exists d journey_id ≡ true) (named : is_blank journey_id ≡ false) where
    pub IsSegment-new : (n : ℕ) → IsSegment date_parses (saved_segment none journey_id n input r)
    unfolding saved_segment validate_segment
    IsSegment-new n = record {
      id = fresh.id;
      journey_id = named;
      position = omega arith;
      start_date = or_null-IsDate input.start_date dates.start;
      end_date = or_null-IsDate input.end_date dates.end;
      order = out_of_order-or_null input.start_date input.end_date (ground arith);
      version = omega arith;
      created_at = fresh.now 0;
      updated_at = fresh.now 0;
      names = trim_details-IsNamed input valid;
    }

    pub saved_segment-IsSegment :
        (n : ℕ) (e : JourneySegment)
        → IsSegment date_parses e
        → IsSegment date_parses (saved_segment (some e) journey_id n input r)
    unfolding saved_segment validate_segment
    saved_segment-IsSegment n e k = record {
      id = k.id;
      journey_id = named;
      position = k.position;
      start_date = or_null-IsDate input.start_date dates.start;
      end_date = or_null-IsDate input.end_date dates.end;
      order = out_of_order-or_null input.start_date input.end_date (ground arith);
      version = k.version;
      created_at = k.created_at;
      updated_at = fresh.now 0;
      names = trim_details-IsNamed input valid;
    }

    -- A new segment goes behind the others of its journey.
    pub of_journey-append :
        (j : String) (s : JourneySegment) (ss : List JourneySegment)
        → of_journey j (ss ++ s ∷ [])
          ≡ of_journey j ss ++ (if s.journey_id == j then s ∷ [] else [])
    of_journey-append j s ss = filter-append (λ t. t.journey_id == j) ss (s ∷ [])

    pub new_segment-numbered : AreNumbered (
        d.segments
        ++ saved_segment none journey_id (length (segments_for_journey d journey_id)) input r ∷ [])
    unfolding saved_segment segments_for_journey
    new_segment-numbered j =
        let s =
          saved_segment none journey_id (length (segments_for_journey d journey_id)) input r in
        elim (Bool-cases (journey_id == j)) [
          | inl e ↦
              rw (of_journey-append j s d.segments, e)
                (sort-append-IsNumbered (λ s. s.position) s (of_journey j d.segments)
                  (rw ((eq_iff journey_id j).0 e)) (h.numbered j))
          | inr e ↦ rw (of_journey-append j s d.segments, e) (rw append-nil (h.numbered j))
        ]

    pub new_segment-AreSegments :
        (n : ℕ)
        → AreSegments date_parses d.journeys
            (d.segments ++ saved_segment none journey_id n input r ∷ [])
    unfolding saved_segment
    new_segment-AreSegments n = record {
      distinct = DistinctBy-append (λ s. s.id) d.segments _ fresh.segments h.segments.distinct;
      each = All-append (IsSegment date_parses) d.segments _ h.segments.each (IsSegment-new n, tt);
      owned = All-append _ d.segments _ h.segments.owned (here, tt);
    }

  -- The id of a journey that exists is not blank.
  pub named_of_exists :
      (journey_id : String) (js : List Journey)
      → All (IsJourney date_parses) js
      → any (λ j. j.id == journey_id) js ≡ true
      → is_blank journey_id ≡ false
  named_of_exists journey_id [] h e = cc
  named_of_exists journey_id (j ∷ js) (k, h) e = elim (Bool-cases (j.id == journey_id)) [
    | inl p ↦ rw (← (eq_iff j.id journey_id).0 p) k.id
    | inr p ↦ named_of_exists journey_id js h (rw p at e)
  ]
