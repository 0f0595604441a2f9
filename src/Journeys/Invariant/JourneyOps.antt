-- ===== src/Journeys/Invariant/JourneyOps.antt =====
-- The operations on journeys keep the data well formed.
use trax_os.Common.{
  ℕ, String, Bool, true, false, ◌≡◌, ◌≢◌, refl, ap, ◌∙◌, List, [], ◌∷◌, ◌==◌, ◌||◌, any, All,
  All-append, All-mono, DistinctBy-append, any-append, arith, WhenOk,
}
use trax_os.Journeys.Domain.{
  JourneyStatus, PackingItem, JourneySegment, Journey, JourneyData, JourneyInput, validate_journey,
}
use trax_os.Journeys.Service.{
  WhenOk-assert_valid, WhenOk-assert_journey_exists, set_journey_status, with_status,
  update_journey, edited, create_journey, change_journey, Runtime, new_journey,
}
use trax_os.Journeys.Format.{
  is_timestamp, IsDateInput, or_null-IsDate, out_of_order-or_null, is_blank-trim,
}
use trax_os.Journeys.Invariant.{AreItems, AreSegments, IsWellFormed, IsJourney, IsFresh}
use trax_os.Journeys.Invariant.Change.{
  any-change_journey, DistinctBy-change_journey, All-change_journey,
}

pub record AreDates (start_date end_date : String) : Type 0 where
  pub start : IsDateInput start_date
  pub end : IsDateInput end_date

module _ (date_parses : String → Bool) where
  new_journey-IsJourney :
      (d : JourneyData) (input : JourneyInput) (r : Runtime)
      → IsFresh date_parses d r
      → AreDates input.start_date input.end_date
      → validate_journey input ≡ []
      → IsJourney date_parses (new_journey input r)
  unfolding new_journey validate_journey
  new_journey-IsJourney d input r fresh dates valid = record {
    id = fresh.id;
    name = is_blank-trim input.name (ground arith);
    start_date = or_null-IsDate input.start_date dates.start;
    end_date = or_null-IsDate input.end_date dates.end;
    order = out_of_order-or_null input.start_date input.end_date (ground arith);
    version = omega arith;
    created_at = fresh.now 0;
    updated_at = fresh.now 0;
  }

  -- Segments and items stay owned while every journey id stays in use.
  pub AreSegments-journeys :
      (js js' : List Journey) (ss : List JourneySegment)
      → ((k : String) → any (λ j. j.id == k) js ≡ true → any (λ j. j.id == k) js' ≡ true)
      → AreSegments date_parses js ss
      → AreSegments date_parses js' ss
  AreSegments-journeys js js' ss keep h = record {
    distinct = h.distinct;
    each = h.each;
    owned = All-mono _ _ (λ s. keep s.journey_id) ss h.owned;
  }

  pub AreItems-journeys :
      (js js' : List Journey) (items : List PackingItem)
      → ((k : String) → any (λ j. j.id == k) js ≡ true → any (λ j. j.id == k) js' ≡ true)
      → AreItems date_parses js items
      → AreItems date_parses js' items
  AreItems-journeys js js' items keep h = record {
    distinct = h.distinct;
    each = h.each;
    owned = All-mono _ _ (λ i. keep i.journey_id) items h.owned;
  }

  module _ (change : String → Journey → Journey)
      (same : (t : String) (j : Journey) → (change t j).id ≡ j.id) (r : Runtime)
      (keep : (n : ℕ) (j : Journey)
        → IsJourney date_parses j
        → IsJourney date_parses (change (r.now n) j)) where
    -- So does a change of one journey that keeps its id and its form.
    pub change_journey-IsWellFormed :
        (d : JourneyData) (journey_id : String) (n : ℕ)
        → IsWellFormed date_parses d
        → IsWellFormed date_parses
            (record d { journeys = change_journey change r journey_id n d.journeys })
    change_journey-IsWellFormed d journey_id n h =
        let used = λ (k : String) (e : any (λ j. j.id == k) d.journeys ≡ true).
          any-change_journey change same r journey_id k n d.journeys ∙ e in
        record {
          journeys = record {
            distinct =
                DistinctBy-change_journey change same r journey_id n d.journeys h.journeys.distinct;
            each =
                All-change_journey change same r journey_id (IsJourney date_parses) keep n
                  d.journeys h.journeys.each;
          };
          segments = AreSegments-journeys d.journeys _ d.segments used h.segments;
          numbered = h.numbered;
          items = AreItems-journeys d.journeys _ d.packing_items used h.items;
        }

  pub create_journey-IsWellFormed :
      (d : JourneyData) (input : JourneyInput) (r : Runtime)
      → IsWellFormed date_parses d
      → IsFresh date_parses d r
      → AreDates input.start_date input.end_date
      → WhenOk (λ c. IsWellFormed date_parses c.0) (create_journey d input r)
  unfolding create_journey
  create_journey-IsWellFormed d input r h fresh dates =
      WhenOk-assert_valid (λ c. IsWellFormed date_parses c.0) (validate_journey input) _
        λ valid.
          let added = new_journey input r in
          let used = λ (k : String) (e : any (λ j. j.id == k) d.journeys ≡ true).
            any-append (λ j. j.id == k) d.journeys (added ∷ [])
            ∙ ap (λ b. b || ((added.id == k) || false)) e in
          record {
            journeys = record {
              distinct =
                  DistinctBy-append (λ j. j.id) d.journeys added (new_id fresh.journeys)
                    h.journeys.distinct;
              each =
                  All-append (IsJourney date_parses) d.journeys (added ∷ []) h.journeys.each
                    (new_journey-IsJourney d input r fresh dates valid, tt);
            };
            segments = AreSegments-journeys d.journeys _ d.segments used h.segments;
            numbered = h.numbered;
            items = AreItems-journeys d.journeys _ d.packing_items used h.items;
          }
    where
      new_id :
          All (λ j. j.id ≢ r.id) d.journeys → All (λ j. j.id ≢ (new_journey input r).id) d.journeys
      new_id e = unfold new_journey in e

  edited-IsJourney :
      (input : JourneyInput) (t : String) (j : Journey)
      → AreDates input.start_date input.end_date
      → validate_journey input ≡ []
      → is_timestamp date_parses t ≡ true
      → IsJourney date_parses j
      → IsJourney date_parses (edited input t j)
  unfolding edited validate_journey
  edited-IsJourney input t j dates valid now h = record {
    id = h.id;
    name = is_blank-trim input.name (ground arith);
    start_date = or_null-IsDate input.start_date dates.start;
    end_date = or_null-IsDate input.end_date dates.end;
    order = out_of_order-or_null input.start_date input.end_date (ground arith);
    version = h.version;
    created_at = h.created_at;
    updated_at = now;
  }

  pub update_journey-IsWellFormed :
      (d : JourneyData) (journey_id : String) (input : JourneyInput) (r : Runtime)
      → IsWellFormed date_parses d
      → IsFresh date_parses d r
      → AreDates input.start_date input.end_date
      → WhenOk (IsWellFormed date_parses) (update_journey d journey_id input r)
  unfolding update_journey
  update_journey-IsWellFormed d journey_id input r h fresh dates =
      WhenOk-assert_journey_exists (IsWellFormed date_parses) d journey_id _ λ _.
        WhenOk-assert_valid (IsWellFormed date_parses) (validate_journey input) _ λ valid.
          change_journey-IsWellFormed (edited input) (λ t j. unfold edited in refl) r
            (λ n j k. edited-IsJourney input (r.now n) j dates valid (fresh.now n) k) d journey_id 0
            h

  with_status-IsJourney :
      (status : JourneyStatus) (t : String) (j : Journey)
      → is_timestamp date_parses t ≡ true
      → IsJourney date_parses j
      → IsJourney date_parses (with_status status t j)
  unfolding with_status
  with_status-IsJourney status t j now h = assumption

  pub set_journey_status-IsWellFormed :
      (d : JourneyData) (journey_id : String) (status : JourneyStatus) (r : Runtime)
      → IsWellFormed date_parses d
      → IsFresh date_parses d r
      → WhenOk (IsWellFormed date_parses) (set_journey_status d journey_id status r)
  unfolding set_journey_status
  set_journey_status-IsWellFormed d journey_id status r h fresh =
      WhenOk-assert_journey_exists (IsWellFormed date_parses) d journey_id _ λ _.
        change_journey-IsWellFormed (with_status status) (λ t j. unfold with_status in refl) r
          (λ n j k. with_status-IsJourney status (r.now n) j (fresh.now n) k) d journey_id 0 h
