-- ===== src/Repository/Replay/Journeys.antt =====
-- The rows of journeys after the calls of save in http-journey-repository.ts.
use trax_os.Common.{
  subst, sym, String, true, ◌++◌, ◌∙◌, false, not, ◌&&◌, Option, none, some, ◌≡◌, refl, ◌==◌,
  DistinctBy, any, find?, if◌then◌else◌, Bool-cases, Option-cases, inl, inr, eq_iff, All,
}
use trax_os.Common.Finding.{any-none, any-find?, any-find?-none, find?-holds, All-find?}
use trax_os.Common.Json.{Value, Fields}
use trax_os.Journeys.Domain.{JourneyData, Journey}
use trax_os.Repository.Requests.{journey_changed}
use trax_os.Repository.Plan.{
  journey_calls, journey_changes, journey_deletions, segment_deletions, segment_changes,
  all_reorderings, packing_deletions, packing_changes, has_journey, save_calls,
}
use trax_os.Repository.Replay.Runs.{
  same_none, run, run-append, run-deletions, run-changes, Idle, Idle-if, Idle-append,
}
use trax_os.Repository.Replay.Deletable.{kept, dropped}
use trax_os.Repository.Replay.Unrelated.{all_segments-Idle, all_packing-Idle, all_reorderings-Idle}
use mathlib.Core.List.{append_assoc}
use trax_os.Journeys.Domain.JourneyStatus.{planning}
use trax_os.Repository.Replay.JourneyRows.{
  journey_fields, journey_step, journey_row, created_fields, created_id, updated_id, updated_fields,
  same_fields,
}

module _ (json : Value → String) (k : String) where
  others :
      (o : Option Journey) (j : Journey)
      → (j.id == k) ≡ false
      → Idle (journey_step k) (journey_calls o j)
  unfolding journey_calls
  others none j e row = rw (created_id j, e) refl
  others (some old) j e row =
      Idle-if (journey_step k) (journey_changed old j) _ _ (λ r. rw (updated_id old j, e) refl)
        (λ r. refl) row

  writes :
      (o : Option Journey) (j : Journey)
      → (j.id == k) ≡ true
      → (o ≡ none → j.status ≡ planning)
      → run (journey_step k) (journey_calls o j) (journey_row o) ≡ some (journey_fields j)
  unfolding journey_calls
  writes none j e new = rw (created_id j, e, created_fields j, new refl) refl
  writes (some old) j e new = elim (Bool-cases (journey_changed old j)) [
    | inl c ↦ rw (c, updated_id old j, e, updated_fields old j) refl
    | inr c ↦ rw (c, same_fields old j c) refl
  ]

  run-journey_deletions :
      (previous next : JourneyData) (row : Option Fields)
      → run (journey_step k) (journey_deletions previous next) row ≡ (
          if any (λ j. not (has_journey next.journeys j.id) && j.id == k) previous.journeys
          then none
          else row)
  unfolding journey_deletions
  run-journey_deletions previous next row =
      run-deletions (journey_step k) _ (λ j. j.id == k) _ row (λ j. refl)
        (λ j. same_none (j.id == k)) previous.journeys

  -- After the deletions the row is there when the id is in both.
  left_over : (previous next : JourneyData) → Option Fields
  left_over previous next =
      run (journey_step k) (journey_deletions previous next)
        (journey_row (find? (λ j. j.id == k) previous.journeys))

  left_over-some :
      (previous next : JourneyData) (b : Journey)
      → find? (λ j. j.id == k) next.journeys ≡ some b
      → left_over previous next ≡ journey_row (find? (λ j. j.id == k) previous.journeys)
  unfolding left_over
  left_over-some previous next b f =
      let there =
        any-find? (λ j. j.id == k) (λ j. j.id == k) next.journeys b f
          (find?-holds (λ j. j.id == k) next.journeys f) in
      run-journey_deletions previous next _
      ∙ rw
          (any-none (λ j. not (has_journey next.journeys j.id) && j.id == k) previous.journeys
            (λ j. kept true (has_journey next.journeys) j.id k there))
          refl

  left_over-none :
      (previous next : JourneyData)
      → find? (λ j. j.id == k) next.journeys ≡ none
      → left_over previous next ≡ none
  unfolding left_over
  left_over-none previous next f =
      let gone = any-find?-none (λ j. j.id == k) next.journeys f in
      elim (Option-cases (find? (λ j. j.id == k) previous.journeys)) [
        | inl e ↦ rw e (
            run-journey_deletions previous next none
            ∙ same_none
                (any (λ j. not (has_journey next.journeys j.id) && j.id == k) previous.journeys))
        | inr (a, e) ↦ rw e (
            run-journey_deletions previous next _
            ∙ rw
                (any-find? (λ j. j.id == k) (λ j. not (has_journey next.journeys j.id) && j.id == k)
                  previous.journeys a e
                  (dropped true (has_journey next.journeys) a.id k refl gone
                    (find?-holds (λ j. j.id == k) previous.journeys e)))
                refl)
      ]

  others-Idle :
      (previous next : JourneyData)
      → Idle (journey_step k) (
          segment_deletions previous next
          ++ (segment_changes json previous next
              ++ (all_reorderings previous next
                  ++ (packing_deletions previous next ++ packing_changes json previous next))))
  others-Idle previous next =
      let moved = all_reorderings previous next in
      let packing = packing_deletions previous next ++ packing_changes json previous next in
      rw
        (append_assoc (segment_deletions previous next) (segment_changes json previous next)
          (moved ++ packing))
        at
        (Idle-append (journey_step k)
          (segment_deletions previous next ++ segment_changes json previous next) (moved ++ packing)
          (all_segments-Idle (journey_step k) (λ j s row. refl) (λ j body row. refl)
            (λ j s body row. refl) json previous next)
          (Idle-append (journey_step k) moved packing
            (all_reorderings-Idle (journey_step k) (λ j s body row. refl) previous next)
            (all_packing-Idle (journey_step k) (λ j i row. refl) (λ j body row. refl)
              (λ j i body row. refl) (λ j i body row. refl) json previous next)))

  -- A journey that is on the server with the fields of its body and with its status if it is in the
  -- old data, and is not on it otherwise, is so for the next data once all calls of a save are made,
  -- where in the next data no id is twice and every journey that is new is in planning.
  pub save_calls-journeys :
      (previous next : JourneyData)
      → DistinctBy (λ j. j.id) next.journeys
      → All
          (λ j. find? (λ o. o.id == j.id) previous.journeys ≡ none → j.status ≡ planning)
          next.journeys
      → run
          (journey_step k)
          (save_calls json previous next)
          (journey_row (find? (λ j. j.id == k) previous.journeys))
        ≡ journey_row (find? (λ j. j.id == k) next.journeys)
  unfolding save_calls left_over
  save_calls-journeys previous next d new =
      run-append (journey_step k) (journey_deletions previous next) _ _
      ∙ (run-append (journey_step k) (journey_changes previous next) _ _
          ∙ (others-Idle previous next _
              ∙ (run-changes (journey_step k) (λ j. j.id) k _ (λ j. others _ j) next.journeys d
                    (left_over previous next)
                  ∙ elim (Option-cases (find? (λ j. j.id == k) next.journeys)) [
                    | inl f ↦ rw f (left_over-none previous next f)
                    | inr (b, f) ↦
                        let here = find?-holds (λ j. j.id == k) next.journeys f in
                        rw (f, left_over-some previous next b f)
                          (subst
                            (λ c.
                              run (journey_step k)
                                (journey_calls (find? (λ o. o.id == c) previous.journeys) b)
                                (journey_row (find? (λ j. j.id == k) previous.journeys))
                              ≡ some (journey_fields b))
                            (sym ((eq_iff b.id k).0 here))
                            (writes (find? (λ j. j.id == k) previous.journeys) b here (
                              subst
                                (λ c.
                                  find? (λ o. o.id == c) previous.journeys ≡ none
                                  → b.status ≡ planning)
                                ((eq_iff b.id k).0 here)
                                (All-find?
                                  (λ j.
                                    find? (λ o. o.id == j.id) previous.journeys ≡ none
                                    → j.status ≡ planning)
                                  _ next.journeys f new))))
                  ])))
