-- ===== src/Repository/Replay/Runs.antt =====
-- Runs of calls over the row of one id: the parts of a run that leave it, that delete it, and that
-- write it.
use trax_os.Common.{
  subst, String, Bool, true, false, ◌&&◌, Option, none, some, List, [], ◌∷◌, ◌++◌, ◌≡◌, refl, ap,
  ◌∙◌, ◌==◌, ◌≢◌, All, DistinctBy, any, find?, if◌then◌else◌, Bool-cases, inl, inr, eq_iff, arith,
}
use trax_os.Common.Json.{Value, Fields, no_fields, entry, object, text_of, field}
use trax_os.Repository.Requests.{Request}
use trax_os.Repository.Plan.{Call, request, each_of, concat_map}

-- the fields of a body other than one
abbrev pub without : String → Fields → Fields
without k no_fields = no_fields
without k (entry j v row) = let rest = without k row in if j == k then rest else entry j v rest

abbrev pub fields_of : Value → Fields
fields_of (object row) = row
fields_of _ = no_fields

-- the fields that a body writes, and the id that it gives
abbrev pub written : Value → Fields
written body = without "id" (without "expected_record_version" (fields_of body))

abbrev pub given_id : Value → String
given_id body = text_of (field body "id")

-- `JSON.stringify` writes two bodies alike only if they are equal.
abbrev pub IsTold : (Value → String) → Fields → Fields → Type 0
IsTold json a b = json (object a) ≡ json (object b) → a ≡ b

pub same_none :
    {V : Type 0} (b : Bool) → (if b then none else none) ≡ (let row : Option V = none in row)
same_none true = refl
same_none false = refl

module _ {V : Type 0} (step : Call → Option V → Option V) where
  abbrev pub run : List Call → Option V → Option V
  run [] row = row
  run (c ∷ cs) row = run cs (step c row)

  pub run-append : (cs ds : List Call) (row : Option V) → run (cs ++ ds) row ≡ run ds (run cs row)
  run-append [] ds row = refl
  run-append (c ∷ cs) ds row = run-append cs ds (step c row)

  -- A run that leaves every row.
  abbrev pub Idle : List Call → Type 0
  Idle cs = (row : Option V) → run cs row ≡ row

  pub Idle-append : (cs ds : List Call) → Idle cs → Idle ds → Idle (cs ++ ds)
  Idle-append cs ds h k row = run-append cs ds row ∙ (k (run cs row) ∙ h row)

  pub Idle-if : (b : Bool) (cs ds : List Call) → Idle cs → Idle ds → Idle (if b then cs else ds)
  Idle-if true cs ds h k = h
  Idle-if false cs ds h k = k

  module _ {A : Type 0} where
    pub Idle-concat_map :
        (f : A → List Call) → ((x : A) → Idle (f x)) → (xs : List A) → Idle (concat_map f xs)
    Idle-concat_map f h [] row = refl
    Idle-concat_map f h (x ∷ xs) row =
        Idle-append (f x) (concat_map f xs) (h x) (Idle-concat_map f h xs) row

    pub Idle-each_of :
        (test : A → Bool) (call : A → Request)
        → ((x : A) → Idle (request (call x) ∷ []))
        → (xs : List A) → Idle (each_of test call xs)
    Idle-each_of test call h [] row = refl
    Idle-each_of test call h (x ∷ xs) row = elim (Bool-cases (test x)) [
      | inl e ↦ rw e (ap (run (each_of test call xs)) (h x row) ∙ Idle-each_of test call h xs row)
      | inr e ↦ rw e (Idle-each_of test call h xs row)
    ]

    pub run-deletions_none :
        (test : A → Bool) (call : A → Request)
        → ((x : A) → step (request (call x)) none ≡ none)
        → (xs : List A) → run (each_of test call xs) none ≡ none
    run-deletions_none test call h [] = refl
    run-deletions_none test call h (x ∷ xs) = elim (Bool-cases (test x)) [
      | inl e ↦ rw e (ap (run (each_of test call xs)) (h x) ∙ run-deletions_none test call h xs)
      | inr e ↦ rw e (run-deletions_none test call h xs)
    ]

    -- Deletions take the row away when one of them is of it.
    pub run-deletions :
        (test hit : A → Bool) (call : A → Request) (row : Option V)
        → ((x : A) → step (request (call x)) row ≡ (if hit x then none else row))
        → ((x : A) → step (request (call x)) none ≡ none)
        → (xs : List A)
        → run (each_of test call xs) row ≡ (if any (λ x. test x && hit x) xs then none else row)
    run-deletions test hit call row h h' [] = refl
    run-deletions test hit call row h h' (x ∷ xs) =
        let rest = run-deletions test hit call row h h' xs in
        elim (Bool-cases (test x)) [
          | inl e ↦ elim (Bool-cases (hit x)) [
            | inl e' ↦
                rw (e, e')
                  (ap (run (each_of test call xs)) (h x ∙ rw e' refl)
                    ∙ run-deletions_none test call h' xs)
            | inr e' ↦ rw (e, e') (ap (run (each_of test call xs)) (h x ∙ rw e' refl) ∙ rest)
          ]
          | inr e ↦ rw e rest
        ]

    run-others :
        (key : A → String) (k : String) (f : A → List Call)
        → ((x : A) → (key x == k) ≡ false → Idle (f x))
        → (xs : List A) → All (λ x. key x ≢ k) xs
        → Idle (concat_map f xs)
    run-others key k f idle [] h row = refl
    run-others key k f idle (x ∷ xs) (n, h) row =
        Idle-append (f x) (concat_map f xs) (idle x (ground (arith, eq_iff (key x) k)))
          (run-others key k f idle xs h) row

    -- Of lists of calls for elements with distinct keys, the one of the row's id is what counts.
    pub run-changes :
        (key : A → String) (k : String) (f : A → List Call)
        → ((x : A) → (key x == k) ≡ false → Idle (f x))
        → (xs : List A) → DistinctBy key xs
        → (row : Option V)
        → run (concat_map f xs) row
          ≡ elim (find? (λ x. key x == k) xs) [ none ↦ row | some x ↦ run (f x) row ]
    run-changes key k f idle [] d row = refl
    run-changes key k f idle (x ∷ xs) (h, d) row =
        run-append (f x) (concat_map f xs) row ∙ elim (Bool-cases (key x == k)) [
          | inl e ↦
              let same : key x ≡ k = (eq_iff (key x) k).0 e in
              rw e (
                run-others key k f idle xs (subst (λ c. All (λ y. key y ≢ c) xs) same h)
                  (run (f x) row))
          | inr e ↦
              rw e (ap (run (concat_map f xs)) (idle x e row) ∙ run-changes key k f idle xs d row)
        ]
