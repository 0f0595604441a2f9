-- ===== src/Repository/Replay/Segments.antt =====
-- The rows of segments after the calls of save in http-journey-repository.ts.
use trax_os.Common.{
  ap₂, String, true, false, Option, none, some, ◌++◌, ◌≡◌, refl, ◌==◌, All, DistinctBy, find?,
  if◌then◌else◌, Bool-cases, inl, inr, eq_iff, arith, List, [], ◌∷◌,
}
use trax_os.Common.Json.{Value, object}
use trax_os.Journeys.Domain.{JourneyData, JourneySegment, stay, move}
use trax_os.Repository.Requests.{Request, segment_body, with_version, segment_changed}
use trax_os.Repository.Plan.{
  journey_changes, all_reorderings, packing_changes, Call, request, segment_calls,
  segment_deletions, packing_deletions, has_journey, save_calls,
}
use trax_os.Repository.Replay.Runs.{run, Idle, Idle-append, written, given_id, IsTold}
use trax_os.Repository.Replay.Unrelated.{
  all_packing-Idle, journey_changes-Idle, all_reorderings-Idle,
}
use trax_os.Repository.Replay.Owned.{run-calls}
use trax_os.Repository.Replay.Kind.{Kind, IsReplayed, Row, orphaned, row_of}

-- what a call makes of the row of the segment `k`
abbrev pub segment_step : String → Call → Option Row → Option Row
segment_step k (request (Request.delete_journey j)) row = orphaned j row
segment_step k (request (Request.delete_segment j id)) row = if id == k then none else row
segment_step k (request (Request.create_segment j body)) row =
    if given_id body == k then some (j, written body) else row
segment_step k (request (Request.update_segment j id body)) row =
    if id == k then some (j, written body) else row
segment_step k _ row = row

abbrev pub segment_row : Option JourneySegment → Option Row
segment_row = row_of (λ s. s.journey_id) (λ s. segment_body s false)

created_fields :
    (s : JourneySegment) → written (object (segment_body s true)) ≡ segment_body s false
unfolding segment_body
created_fields s =
    elim s.details
      as (λ d.
        written (object (segment_body (record s { details = d }) true))
        ≡ segment_body (record s { details = d }) false) [
          | stay place ↦ refl
          | move origin destination mode ↦ refl
        ]

created_id : (s : JourneySegment) → given_id (object (segment_body s true)) ≡ s.id
unfolding segment_body
created_id s = refl

updated_fields :
    (s : JourneySegment) (v : _)
    → written (with_version (segment_body s false) v) ≡ segment_body s false
unfolding segment_body
updated_fields s v =
    elim s.details
      as (λ d.
        written (with_version (segment_body (record s { details = d }) false) v)
        ≡ segment_body (record s { details = d }) false) [
          | stay place ↦ refl
          | move origin destination mode ↦ refl
        ]

All-trivial :
    (p : JourneySegment → Type 0) (ss : List JourneySegment) → All (λ s. p s → Unit {0}) ss
All-trivial p [] = tt
All-trivial p (s ∷ ss) = (λ h. tt, All-trivial p ss)

module _ (json : Value → String) (k : String) where
  others :
      (o : Option JourneySegment) (s : JourneySegment)
      → (s.id == k) ≡ false
      → Idle (segment_step k) (segment_calls json o s)
  unfolding segment_calls
  others none s e row = rw (created_id s, e) refl
  others (some old) s e row = elim (Bool-cases (segment_changed json old s)) [
    | inl c ↦ rw (c, e) refl
    | inr c ↦ rw c refl
  ]

  creates :
      (s : JourneySegment)
      → Unit {0}
      → (s.id == k) ≡ true
      → run (segment_step k) (segment_calls json none s) none
        ≡ some (s.journey_id, segment_body s false)
  unfolding segment_calls
  creates s new e = rw (created_id s, e, created_fields s) refl

  same_body :
      (a b : JourneySegment)
      → IsTold json (segment_body a false) (segment_body b false)
      → segment_changed json a b ≡ false
      → segment_body a false ≡ segment_body b false
  unfolding segment_changed
  same_body a b told e = told (
      (eq_iff (json (object (segment_body a false))) (json (object (segment_body b false)))).0
        (ground arith))

  updates :
      (a s : JourneySegment)
      → a.id ≡ s.id
      → (s.id == k) ≡ true
      → a.journey_id ≡ s.journey_id
      → IsTold json (segment_body a false) (segment_body s false)
      → run
          (segment_step k)
          (segment_calls json (some a) s)
          (some (a.journey_id, segment_body a false))
        ≡ some (s.journey_id, segment_body s false)
  unfolding segment_calls
  updates a s i e j told = elim (Bool-cases (segment_changed json a s)) [
    | inl c ↦ rw (c, e, updated_fields s a.record_version) refl
    | inr c ↦ rw c (ap₂ (λ j fields. some (j, fields)) j (same_body a s told c))
  ]

  abbrev segment_kind : Kind JourneySegment
  segment_kind = record {
    key = λ s. s.id;
    owner = λ s. s.journey_id;
    fields = λ s. segment_body s false;
    IsNew = λ s. Unit;
    IsTold = λ s t. IsTold json (segment_body s false) (segment_body t false);
    delete_call = λ s. Request.delete_segment s.journey_id s.id;
    calls_for = segment_calls json;
  }

  segment_step-IsReplayed : IsReplayed segment_kind k (segment_step k)
  segment_step-IsReplayed = record {
    orphans = λ j row. refl;
    deletes = λ s row. refl;
    others = others;
    creates = creates;
    updates = updates;
  }

  -- A segment that is on the server with its journey and with the fields that the client sends if
  -- it is in the old data, and is not on it otherwise, is so for the next data once all calls of a
  -- save are made: where in the next data no id is twice, in both the segments belong to journeys,
  -- and segments with one id have one journey and bodies that `json` tells apart.
  pub save_calls-segments :
      (previous next : JourneyData)
      → DistinctBy (λ s. s.id) next.segments
      → All (λ s. has_journey previous.journeys s.journey_id ≡ true) previous.segments
      → All (λ s. has_journey next.journeys s.journey_id ≡ true) next.segments
      → All
          (λ s.
            All
              (λ t.
                s.id ≡ t.id
                → (s.journey_id ≡ t.journey_id)
                  × IsTold json (segment_body s false) (segment_body t false))
              next.segments)
          previous.segments
      → run
          (segment_step k)
          (save_calls json previous next)
          (segment_row (find? (λ s. s.id == k) previous.segments))
        ≡ segment_row (find? (λ s. s.id == k) next.segments)
  unfolding save_calls segment_deletions
  save_calls-segments previous next d hp hn hs =
      run-calls segment_kind k (segment_step k) segment_step-IsReplayed previous next
        previous.segments next.segments hp hn hs (All-trivial _ next.segments)
        (journey_changes previous next)
        (all_reorderings previous next
          ++ (packing_deletions previous next ++ packing_changes json previous next))
        (journey_changes-Idle (segment_step k) (λ body row. refl) (λ old new row. refl) previous
          next)
        (Idle-append (segment_step k) (all_reorderings previous next)
          (packing_deletions previous next ++ packing_changes json previous next)
          (all_reorderings-Idle (segment_step k) (λ j s body row. refl) previous next)
          (all_packing-Idle (segment_step k) (λ j i row. refl) (λ j body row. refl)
            (λ j i body row. refl) (λ j i body row. refl) json previous next))
        d
