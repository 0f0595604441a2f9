-- ===== src/Repository/Replay/Owned.antt =====
-- What all calls of a save in http-journey-repository.ts make of the row of one id, of a kind whose
-- rows belong to journeys.
use trax_os.Common.{
  String, true, Option, none, some, List, ◌++◌, ◌≡◌, refl, sym, ap, ◌∙◌, ◌==◌, All, DistinctBy,
  find?, Bool-cases, Option-cases, inl, inr, eq_iff,
}
use trax_os.Common.Finding.{find?-holds, All-find?}
use trax_os.Journeys.Domain.{JourneyData}
use trax_os.Repository.Plan.{Call, concat_map, has_journey, journey_deletions}
use trax_os.Repository.Replay.Runs.{run, run-append, run-changes, Idle}
use trax_os.Repository.Replay.Kind.{Row, row_of, Kind, IsReplayed}
use trax_os.Repository.Replay.Deletions.{
  run-journey_deletions, run-journey_deletions-none, is_gone-living, is_gone-dead, row_deletions,
  run-kept, run-dropped, run-row_deletions-none,
}

module _ {A : Type 0} (K : Kind A) (k : String) (step : Call → Option Row → Option Row)
    (L : IsReplayed K k step) where
  module _ (previous next : JourneyData) where
    -- What is left of the row after both deletions: all where the id is in the next data, else nothing.
    left_over : (ps ns : List A) → Option Row
    left_over ps ns = run step (row_deletions K k step L previous next ps ns) (
        run step (journey_deletions previous next)
          (row_of K.owner K.fields (find? (λ x. K.key x == k) ps)))

    module _ (ps ns : List A) (hp : All (λ x. has_journey previous.journeys (K.owner x) ≡ true) ps)
        (hn : All (λ x. has_journey next.journeys (K.owner x) ≡ true) ns)
        (hs : All
          (λ x. All (λ y. K.key x ≡ K.key y → (K.owner x ≡ K.owner y) × K.IsTold x y) ns)
          ps)
        (hnew : All (λ x. find? (λ y. K.key y == K.key x) ps ≡ none → K.IsNew x) ns) where
      matches :
          (a b : A)
          → find? (λ x. K.key x == k) ps ≡ some a
          → find? (λ x. K.key x == k) ns ≡ some b
          → (K.owner a ≡ K.owner b) × K.IsTold a b
      matches a b e f =
          let ka : K.key a ≡ k = (eq_iff (K.key a) k).0 (find?-holds _ ps e) in
          let kb : K.key b ≡ k = (eq_iff (K.key b) k).0 (find?-holds _ ns f) in
          All-find? (λ y. K.key a ≡ K.key y → (K.owner a ≡ K.owner y) × K.IsTold a y) _ ns f
            (All-find?
              (λ x. All (λ y. K.key x ≡ K.key y → (K.owner x ≡ K.owner y) × K.IsTold x y) ns) _ ps e
              hs)
            (ka ∙ sym kb)

      left_over-some :
          (b : A)
          → find? (λ x. K.key x == k) ns ≡ some b
          → left_over ps ns ≡ row_of K.owner K.fields (find? (λ x. K.key x == k) ps)
      unfolding left_over
      left_over-some b f = elim (Option-cases (find? (λ x. K.key x == k) ps)) [
        | inl e ↦ rw e (
            run-kept K k step L previous next ps ns b _ f
            ∙ run-journey_deletions-none K k step L previous next)
        | inr (a, e) ↦
            let living : has_journey next.journeys (K.owner a) ≡ true =
              rw (matches a b e f).0
                (All-find? (λ x. has_journey next.journeys (K.owner x) ≡ true) _ ns f hn) in
            rw e (
              run-kept K k step L previous next ps ns b _ f
              ∙ (run-journey_deletions K k step L previous next (K.owner a, K.fields a)
                  ∙ rw (is_gone-living K k step L previous next (K.owner a, K.fields a) living)
                      refl))
      ]

      left_over-none : find? (λ x. K.key x == k) ns ≡ none → left_over ps ns ≡ none
      unfolding left_over
      left_over-none f = elim (Option-cases (find? (λ x. K.key x == k) ps)) [
        | inl e ↦
            rw (e, run-journey_deletions-none K k step L previous next)
              (run-row_deletions-none K k step L previous next ps ns)
        | inr (a, e) ↦ elim (Bool-cases (has_journey next.journeys (K.owner a))) [
          | inl living ↦ rw e (run-dropped K k step L previous next ps ns a _ e f living)
          | inr dead ↦
              let known : has_journey previous.journeys (K.owner a) ≡ true =
                All-find? (λ x. has_journey previous.journeys (K.owner x) ≡ true) _ ps e hp in
              rw
                (
                  e,
                  run-journey_deletions K k step L previous next (K.owner a, K.fields a),
                  is_gone-dead K k step L previous next (K.owner a, K.fields a) known dead,
                )
                (run-row_deletions-none K k step L previous next ps ns)
        ]
      ]

      writes :
          (b : A)
          → find? (λ x. K.key x == k) ns ≡ some b
          → run step
              (K.calls_for (find? (λ y. K.key y == K.key b) ps) b)
              (row_of K.owner K.fields (find? (λ x. K.key x == k) ps))
            ≡ some (K.owner b, K.fields b)
      writes b f =
          let here = find?-holds (λ x. K.key x == k) ns f in
          let kb : K.key b ≡ k = (eq_iff (K.key b) k).0 here in
          rw kb (elim (Option-cases (find? (λ x. K.key x == k) ps)) [
            | inl e ↦ rw e (
                L.creates b
                  (All-find? (λ x. find? (λ y. K.key y == K.key x) ps ≡ none → K.IsNew x) _ ns f
                    hnew (rw kb e))
                  here)
            | inr (a, e) ↦ rw e (
                L.updates a b ((eq_iff (K.key a) k).0 (find?-holds _ ps e) ∙ sym kb) here
                  (matches a b e f).0 (matches a b e f).1)
          ])

      run-changes_lem :
          DistinctBy K.key ns
          → run step
              (concat_map (λ x. K.calls_for (find? (λ y. K.key y == K.key x) ps) x) ns)
              (left_over ps ns)
            ≡ row_of K.owner K.fields (find? (λ x. K.key x == k) ns)
      run-changes_lem dn =
          run-changes step K.key k _ (λ x. L.others _ x) ns dn (left_over ps ns)
          ∙ elim (Option-cases (find? (λ x. K.key x == k) ns)) [
            | inl f ↦ rw f (left_over-none f)
            | inr (b, f) ↦ rw f (rw (left_over-some b f) (writes b f))
          ]

      -- All calls that touch the row, with calls between and after that leave it.
      pub run-calls :
          (between after : List Call)
          → Idle step between
          → Idle step after
          → DistinctBy K.key ns
          → run step
              (journey_deletions previous next
                ++ (between
                    ++ (row_deletions K k step L previous next ps ns
                        ++ (concat_map (λ x. K.calls_for (find? (λ y. K.key y == K.key x) ps) x) ns
                            ++ after))))
              (row_of K.owner K.fields (find? (λ x. K.key x == k) ps))
            ≡ row_of K.owner K.fields (find? (λ x. K.key x == k) ns)
      unfolding left_over
      run-calls between after ib ia dn =
          let changes = concat_map (λ x. K.calls_for (find? (λ y. K.key y == K.key x) ps) x) ns in
          run-append step (journey_deletions previous next) _ _
          ∙ (run-append step between _ _
              ∙ (ap (run step (row_deletions K k step L previous next ps ns ++ (changes ++ after)))
                    (ib _)
                  ∙ (run-append step (row_deletions K k step L previous next ps ns) _ _
                      ∙ (run-append step changes after _ ∙ (ia _ ∙ run-changes_lem dn)))))
