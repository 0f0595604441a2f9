-- ===== src/Repository/Replay/Unrelated.antt =====
-- The calls of save in http-journey-repository.ts for one kind of rows leave the tables whose rows
-- their requests leave.
use trax_os.Common.{
  ◌==◌, Option, none, some, List, ◌≡◌, refl, find?, Option-cases, inl, inr, String, ◌++◌, not,
}
use trax_os.Common.Json.{Value}
use trax_os.Journeys.Domain.{PackingItem, JourneyData, Journey, JourneySegment}
use trax_os.Repository.Requests.{
  segment_changed, packing_definition_changed, Request, journey_changed,
}
use trax_os.Repository.Plan.{
  segment_calls, segment_changes, segment_deletions, packing_calls, packing_changes,
  packing_deletions, Call, request, journey_update, journey_calls, journey_changes, reorder_calls,
  reorderings, all_reorderings, sorted_of,
}
use trax_os.Repository.Replay.Runs.{Idle-append, Idle-each_of, run, Idle, Idle-if, Idle-concat_map}
use trax_os.Common.Number.{same_number}

module _ {V : Type 0} (step : Call → Option V → Option V) where
  module _
      (creates : (body : Value) (row : Option V)
        → step (request (Request.create_journey body)) row ≡ row)
      (updates : (old new : Journey) (row : Option V)
        → step (journey_update old new) row ≡ row) where
    journey_calls-Idle : (o : Option Journey) (j : Journey) → Idle step (journey_calls o j)
    unfolding journey_calls
    journey_calls-Idle none j row = creates _ row
    journey_calls-Idle (some old) j row =
        Idle-if step (journey_changed old j) _ _ (updates old j) (λ r. refl) row

    pub journey_changes-Idle :
        (previous next : JourneyData) → Idle step (journey_changes previous next)
    journey_changes-Idle previous next =
        Idle-concat_map step (λ j. journey_calls (find? (λ o. o.id == j.id) previous.journeys) j)
          (λ j. journey_calls-Idle (find? (λ o. o.id == j.id) previous.journeys) j) next.journeys

  module _
      (reorders : (j s : String) (body : Value) (row : Option V)
        → step (request (Request.reorder_segment j s body)) row ≡ row) where
    reorder_calls-Idle :
        (previous : JourneyData) (j : String) (after : List JourneySegment)
        (o : Option JourneySegment)
        → Idle step (reorder_calls previous j after o)
    unfolding reorder_calls
    reorder_calls-Idle previous j after none row = refl
    reorder_calls-Idle previous j after (some s) row =
        elim (Option-cases (find? (λ o. o.id == s.id) previous.segments)) [
          | inl e ↦ rw (run, e) refl
          | inr (old, e) ↦ rw (run, e) (reorders j s.id _ row)
        ]

    pub all_reorderings-Idle :
        (previous next : JourneyData) → Idle step (all_reorderings previous next)
    unfolding reorderings
    all_reorderings-Idle previous next =
        Idle-concat_map step (reorderings previous next)
          (λ j. reorder_calls-Idle previous j.id (sorted_of j.id next.segments) _) next.journeys

  module _
      (deletes : (j s : String) (row : Option V)
        → step (request (Request.delete_segment j s)) row ≡ row)
      (creates : (j : String) (body : Value) (row : Option V)
        → step (request (Request.create_segment j body)) row ≡ row)
      (updates : (j s : String) (body : Value) (row : Option V)
        → step (request (Request.update_segment j s body)) row ≡ row) where
    segment_calls-Idle :
        (json : Value → String) (o : Option JourneySegment) (s : JourneySegment)
        → Idle step (segment_calls json o s)
    unfolding segment_calls
    segment_calls-Idle json none s row = creates s.journey_id _ row
    segment_calls-Idle json (some old) s row =
        Idle-if step (segment_changed json old s) _ _ (updates s.journey_id s.id _) (λ r. refl) row

    pub all_segments-Idle :
        (json : Value → String) (previous next : JourneyData)
        → Idle step (segment_deletions previous next ++ segment_changes json previous next)
    unfolding segment_deletions
    all_segments-Idle json previous next =
        Idle-append step (segment_deletions previous next) (segment_changes json previous next)
          (Idle-each_of step _ _ (λ s. deletes s.journey_id s.id) previous.segments)
          (Idle-concat_map step
            (λ s. segment_calls json (find? (λ o. o.id == s.id) previous.segments) s)
            (λ s. segment_calls-Idle json (find? (λ o. o.id == s.id) previous.segments) s)
            next.segments)

  module _
      (deletes : (j i : String) (row : Option V)
        → step (request (Request.delete_packing j i)) row ≡ row)
      (creates : (j : String) (body : Value) (row : Option V)
        → step (request (Request.create_packing j body)) row ≡ row)
      (updates : (j i : String) (body : Value) (row : Option V)
        → step (request (Request.update_packing j i body)) row ≡ row)
      (progresses : (j i : String) (body : Value) (row : Option V)
        → step (request (Request.update_packing_progress j i body)) row ≡ row) where
    packing_calls-Idle :
        (json : Value → String) (o : Option PackingItem) (i : PackingItem)
        → Idle step (packing_calls json o i)
    unfolding packing_calls
    packing_calls-Idle json none i row = creates i.journey_id _ row
    packing_calls-Idle json (some old) i row =
        Idle-if step (packing_definition_changed json old i) _ _ (updates i.journey_id i.id _)
          (Idle-if step (not (same_number old.packed_quantity i.packed_quantity)) _ _
            (progresses i.journey_id i.id _) (λ r. refl))
          row

    pub all_packing-Idle :
        (json : Value → String) (previous next : JourneyData)
        → Idle step (packing_deletions previous next ++ packing_changes json previous next)
    unfolding packing_deletions
    all_packing-Idle json previous next =
        Idle-append step (packing_deletions previous next) (packing_changes json previous next)
          (Idle-each_of step _ _ (λ i. deletes i.journey_id i.id) previous.packing_items)
          (Idle-concat_map step
            (λ i. packing_calls json (find? (λ o. o.id == i.id) previous.packing_items) i)
            (λ i. packing_calls-Idle json (find? (λ o. o.id == i.id) previous.packing_items) i)
            next.packing_items)
