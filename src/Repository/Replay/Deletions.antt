-- ===== src/Repository/Replay/Deletions.antt =====
-- What the deletions of http-journey-repository.ts, first of journeys and then of rows of one kind, make
-- of the row of one id.
use trax_os.Common.{
  String, Bool, true, false, not, ◌&&◌, Option, none, some, List, ◌≡◌, refl, ◌∙◌, ◌==◌, any, find?,
  if◌then◌else◌,
}
use trax_os.Repository.Replay.Deletable.{apart, together, kept, dropped}
use trax_os.Common.Finding.{any-none, any_mono, any-find?, any-find?-none, find?-holds}
use trax_os.Journeys.Domain.{JourneyData}
use trax_os.Repository.Plan.{Call, each_of, concat_map, has_journey, is_living, journey_deletions}
use trax_os.Repository.Replay.Runs.{same_none, run-deletions_none, run, run-deletions}
use trax_os.Repository.Replay.Kind.{Row, Kind, IsReplayed}

module _ {A : Type 0} (K : Kind A) (k : String) (step : Call → Option Row → Option Row)
    (L : IsReplayed K k step) where
  module _ (previous next : JourneyData) where
    pub is_gone : Row → Bool
    is_gone row = any (λ j. not (has_journey next.journeys j.id) && row.0 == j.id) previous.journeys

    pub run-journey_deletions :
        (row : Row)
        → run step (journey_deletions previous next) (some row)
          ≡ (if is_gone row then none else some row)
    unfolding journey_deletions is_gone
    run-journey_deletions row =
        run-deletions step _ (λ j. row.0 == j.id) _ (some row) (λ j. L.orphans j.id (some row))
          (λ j. L.orphans j.id none) previous.journeys

    pub run-journey_deletions-none : run step (journey_deletions previous next) none ≡ none
    unfolding journey_deletions
    run-journey_deletions-none =
        run-deletions_none step _ _ (λ j. L.orphans j.id none) previous.journeys

    pub is_gone-living : (row : Row) → has_journey next.journeys row.0 ≡ true → is_gone row ≡ false
    unfolding is_gone
    is_gone-living row h =
        any-none _ previous.journeys λ j. apart (has_journey next.journeys) row.0 j.id h

    pub is_gone-dead :
        (row : Row)
        → has_journey previous.journeys row.0 ≡ true
        → has_journey next.journeys row.0 ≡ false
        → is_gone row ≡ true
    unfolding is_gone
    is_gone-dead row h h' =
        any_mono (λ j. j.id == row.0) _ previous.journeys
          (λ j e. together (has_journey next.journeys) row.0 j.id h' e) h

    abbrev pub row_deletions : (ps ns : List A) → List Call
    row_deletions ps ns =
        each_of (λ x. is_living next (K.owner x) && not (any (λ y. K.key y == K.key x) ns))
          K.delete_call ps

    run-row_deletions :
        (ps ns : List A) (row : Option Row)
        → run step (row_deletions ps ns) row ≡ (
            if any
              (λ x.
                (is_living next (K.owner x) && not (any (λ y. K.key y == K.key x) ns))
                && K.key x == k)
              ps
            then none
            else row)
    run-row_deletions ps ns row =
        run-deletions step _ (λ x. K.key x == k) _ row (λ x. L.deletes x row)
          (λ x. L.deletes x none ∙ same_none (K.key x == k)) ps

    -- The rows that stay: no deletion is of them.
    pub run-kept :
        (ps ns : List A) (b : A) (row : Option Row)
        → find? (λ x. K.key x == k) ns ≡ some b
        → run step (row_deletions ps ns) row ≡ row
    run-kept ps ns b row e =
        run-row_deletions ps ns row
        ∙ rw
            (any-none
              (λ x.
                (is_living next (K.owner x) && not (any (λ y. K.key y == K.key x) ns))
                && K.key x == k)
              ps
              (λ x.
                kept (is_living next (K.owner x)) (λ c. any (λ y. K.key y == c) ns) (K.key x) k
                  (any-find? (λ y. K.key y == k) (λ y. K.key y == k) ns b e
                    (find?-holds (λ y. K.key y == k) ns e))))
            refl

    pub run-dropped :
        (ps ns : List A) (a : A) (row : Option Row)
        → find? (λ x. K.key x == k) ps ≡ some a
        → find? (λ x. K.key x == k) ns ≡ none
        → is_living next (K.owner a) ≡ true
        → run step (row_deletions ps ns) row ≡ none
    run-dropped ps ns a row e e' h =
        run-row_deletions ps ns row
        ∙ rw
            (any-find? _
              (λ x.
                (is_living next (K.owner x) && not (any (λ y. K.key y == K.key x) ns))
                && K.key x == k)
              ps a e
              (dropped (is_living next (K.owner a)) (λ c. any (λ y. K.key y == c) ns) (K.key a) k h
                (any-find?-none (λ y. K.key y == k) ns e') (find?-holds (λ y. K.key y == k) ps e)))
            refl

    changes : (ps ns : List A) → List Call
    changes ps ns = concat_map (λ x. K.calls_for (find? (λ y. K.key y == K.key x) ps) x) ns

    pub run-row_deletions-none : (ps ns : List A) → run step (row_deletions ps ns) none ≡ none
    run-row_deletions-none ps ns =
        run-deletions_none step _ _ (λ x. L.deletes x none ∙ same_none (K.key x == k)) ps
