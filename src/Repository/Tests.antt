-- ===== src/Repository/Tests.antt =====
-- Runs of a save against a server that answers every request in one way.
use trax_os.Common.{
  Result, ◌↔◌, ◌≢◌, String, true, false, none, some, List, [], ◌∷◌, ◌≡◌, refl, ◌==◌, eq_iff, arith,
  ok, err,
}
use trax_os.Common.Sort.{sort}
use trax_os.Common.Int.{pos}
use trax_os.Common.Number.{integer}
use trax_os.Common.Json.{
  text_of, lookup, Value, Fields, null, boolean, number, text, object, no_fields, entry,
}
use trax_os.Journeys.Domain.{
  Journey, JourneySegment, JourneyData, PackingItem, segments_for_journey,
}
use trax_os.Journeys.Domain.JourneyStatus.{active}
use trax_os.Journeys.Tests.{trip, hotel, train, passport, sample, browser, sample-IsWellFormed}
use trax_os.Repository.Errors.{network}
use trax_os.Repository.Rows
use trax_os.Repository.Rows.{journey_from, segment_from, packing_from}
use trax_os.Repository.Rows.SegmentRow.{IsSegmentRow, segment_from_iff}
use trax_os.Repository.Rows.PackingRow.{IsPackingRow, packing_from_iff}
use trax_os.Repository.Requests.{
  with_version, journey_body, journey_changed, segment_changed, packing_definition_changed, Request,
  segment_body, packing_body,
}
use trax_os.Repository.Plan.{
  journey_deletions, journey_calls, segment_deletions, segment_calls, moved_segment, reorderings,
  reorder_calls, packing_deletions, packing_calls, Call, request, journey_update, save_calls,
}
use trax_os.Repository.Replay.Runs.{run}
use trax_os.Repository.Replay.JourneyRows.{journey_step, journey_row}
use trax_os.Repository.Replay.Journeys.{save_calls-journeys}
use trax_os.Repository.Replay.Segments.{segment_step, segment_row, save_calls-segments}
use trax_os.Repository.Replay.PackingRows.{packing_step, packing_row, IsFollowed}
use trax_os.Repository.Replay.Packing.{save_calls-packing}
use trax_os.Journeys.Service.{
  ServiceError, move_segment, earlier, assert_journey_exists, found_index,
}
use trax_os.Journeys.Order.{order}
use trax_os.Repository.Reordering.{run_order}
use trax_os.Repository.Reordering.Moving.{reorderings-move_segment}
use trax_os.Repository.Actions.{Client, JourneyRepository}
use trax_os.Repository.Saving.{update_command, perform_all, save}
use trax_os.Repository.Saving.Outcome.{Settles, save-Settles}
use trax_os.Repository.Saving.Commands.{update_command-again}

text_ne : {s t : String} → (s == t) ≡ false → s ≢ t
text_ne {s} {t} e p = ground (arith, eq_iff s t)

-- A row as the server answers with it.
abbrev trip_row : Fields
trip_row = entry "id" (text "j1") (
    entry "name" (text "Trip") (
      entry "start_date" (text "2026-06-01") (
        entry "end_date" null (
          entry "status" (text "planning") (
            entry "record_version" (number (integer (pos 1))) (
              entry "created_at" (text "2026-05-01T12:00:00Z")
                (entry "updated_at" (text "2026-05-01T12:00:00Z") no_fields)))))))

abbrev hotel_row : Fields
hotel_row = entry "id" (text "s1") (
    entry "journey_id" (text "j1") (
      entry "kind" (text "stay") (
        entry "position" (number (integer (pos 0))) (
          entry "start_date" null (
            entry "end_date" null (
              entry "notes" (text "") (
                entry "place_name" (text "Hotel") (
                  entry "record_version" (number (integer (pos 1))) (
                    entry "created_at" (text "2026-05-01T12:00:00Z")
                      (entry "updated_at" (text "2026-05-01T12:00:00Z") no_fields))))))))))

abbrev passport_row : Fields
passport_row = entry "id" (text "i1") (
    entry "journey_id" (text "j1") (
      entry "label" (text "Passport") (
        entry "category" (text "documents") (
          entry "quantity" (number (integer (pos 2))) (
            entry "packed_quantity" (number (integer (pos 0))) (
              entry "essential" (boolean true) (
                entry "record_version" (number (integer (pos 1))) (
                  entry "created_at" (text "2026-05-01T12:00:00Z")
                    (entry "updated_at" (text "2026-05-01T12:00:00Z") no_fields)))))))))

segment_from_iff_example :
    (segment_from (object hotel_row) ≡ ok hotel)
    ↔ ((row : Fields) × (object hotel_row ≡ object row) × IsSegmentRow row hotel)
segment_from_iff_example = segment_from_iff (object hotel_row) hotel

packing_from_iff_example :
    (packing_from (object passport_row) ≡ ok passport)
    ↔ ((row : Fields) × (object passport_row ≡ object row) × IsPackingRow row passport)
packing_from_iff_example = packing_from_iff (object passport_row) passport

runs_journey_from : journey_from (object trip_row) ≡ ok trip
unfolding journey_from Rows.required Rows.read_journey Rows.string Rows.nullable Rows.status
    Rows.whole
runs_journey_from = refl

-- `json` for the runs: the text of a body that they change.
abbrev told_by : Value → String
told_by (object row) = text_of (lookup row "notes")
told_by _ = ""

abbrev renamed : Journey
renamed = record trip { name = "Holiday"; status = active }

abbrev second : Journey
second = record trip { id = "j2" }

abbrev quiet : JourneySegment
quiet = record hotel { notes = "quiet" }

abbrev flight : JourneySegment
flight = record hotel { id = "s3"; journey_id = "j2" }

abbrev packed : PackingItem
packed = record passport { packed_quantity = integer (pos 1) }

-- A journey is renamed and begun and one is new; a segment is gone, one has notes and one is new; an
-- item is packed.
abbrev after : JourneyData
after = record {
  journeys = renamed ∷ second ∷ [];
  segments = quiet ∷ flight ∷ [];
  packing_items = packed ∷ [];
}

abbrev asked : List Call
asked =
    journey_update trip renamed
    ∷ request (Request.create_journey (object (journey_body second true)))
    ∷ request (Request.delete_segment "j1" "s2")
    ∷ request (Request.update_segment "j1" "s1" (with_version (segment_body quiet false) (pos 1)))
    ∷ request (Request.create_segment "j2" (object (segment_body flight true)))
    ∷ request (
        Request.update_packing_progress "j1" "i1" (
          object (
            entry "expected_record_version" (number (integer (pos 1)))
              (entry "packed_quantity" (number (integer (pos 1))) no_fields))))
    ∷ []

runs_save_calls : save_calls told_by sample after ≡ asked
unfolding save_calls journey_deletions journey_calls journey_changed segment_deletions segment_calls
    segment_changed segment_body moved_segment reorderings reorder_calls packing_deletions
    packing_calls packing_definition_changed packing_body sort
runs_save_calls = refl

save_calls-journeys_example :
    run (journey_step "j1") (save_calls told_by sample after) (journey_row (some trip))
    ≡ journey_row (some renamed)
save_calls-journeys_example =
    save_calls-journeys told_by "j1" sample after ((text_ne refl, tt), (tt, tt))
      ((λ e. cc), ((λ e. refl), tt))

save_calls-segments_example :
    run (segment_step "s2") (save_calls told_by sample after) (segment_row (some train)) ≡ none
unfolding segment_body
save_calls-segments_example =
    save_calls-segments told_by "s2" sample after ((text_ne refl, tt), (tt, tt)) (refl, (refl, tt))
      (refl, (refl, tt))
      (
        ((λ p. absurd (text_ne refl p)), ((λ p. absurd (text_ne refl p)), tt)),
        (
          ((λ p. (refl, λ told. absurd (text_ne refl told))), ((λ p. absurd (text_ne refl p)), tt)),
          tt,
        ),
      )

packed-IsFollowed : IsFollowed told_by passport packed
unfolding packing_definition_changed packing_body
packed-IsFollowed = record {
  told = λ e. refl;
  packed = (pos 1, refl, omega arith, omega arith);
  kept = λ e. cc;
}

save_calls-packing_example :
    run (packing_step "i1") (save_calls told_by sample after) (packing_row (some passport))
    ≡ packing_row (some packed)
save_calls-packing_example =
    save_calls-packing told_by "i1" sample after (tt, tt) (refl, tt) (refl, tt)
      (((λ p. (refl, packed-IsFollowed)), tt), tt) ((λ e. cc), tt)

-- A server that cannot be reached for updates of journeys, and draws ids from a list.
abbrev offline : Client (List String)
offline = record {
  send = λ q s. (s, err (record { kind = network; code = "network_error"; status = none }));
  command_version = λ c s. (s, ok (pos 1));
  new_id = λ s. elim s [ [] ↦ ([], "none") | i ∷ rest ↦ (rest, i) ];
}

abbrev loaded : JourneyRepository
loaded = record { current = sample; pending = [] }

save-Settles_example : Settles loaded (save offline told_by after loaded ("c1" ∷ "c2" ∷ []))
save-Settles_example = save-Settles offline told_by after loaded ("c1" ∷ "c2" ∷ [])

update_command-again_example :
    let first = update_command offline told_by trip renamed (pos 1) loaded ("c1" ∷ "c2" ∷ []) in
    let between =
      perform_all offline told_by
        (journey_update second second ∷ [])
        first.repository
        first.world in
    let again =
      update_command offline told_by trip renamed (pos 1) between.repository between.world in
    (again.result ≡ first.result) × (again.world ≡ between.world)
unfolding update_command
update_command-again_example =
    update_command-again offline told_by trip renamed (pos 1) loaded ("c1" ∷ "c2" ∷ [])
      (journey_update second second ∷ []) ("c2" ∷ []) (refl, tt)

abbrev returned : Result ServiceError JourneyData → JourneyData
returned (ok d) = d
returned (err e) = sample

abbrev turned : JourneyData
turned = returned (move_segment sample "j1" "s2" earlier browser)

reorderings-move_segment_example :
    run_order (reorderings sample turned trip) (order sample "j1") ≡ order turned "j1"
unfolding move_segment segments_for_journey sort assert_journey_exists found_index
reorderings-move_segment_example =
    reorderings-move_segment sample turned trip "s2" earlier browser
      sample-IsWellFormed.segments.distinct refl
