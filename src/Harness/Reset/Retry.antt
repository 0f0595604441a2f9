-- ===== src/Harness/Reset/Retry.antt =====
-- A reset that is asked for again, and the credential that it gives.
use trax_os.Common.{
  ◌∙◌, suc, ℕ, String, true, false, some, List, [], ◌∷◌, ◌==◌, ◌≡◌, refl, sym, ap, subst, arith,
  eq_refl, Bool-cases, inl, inr,
}
use trax_os.Common.Finding.{find?-map}
use trax_os.Harness.Database.{Replica}
use trax_os.Harness.Server.{replica_is_stale, Platform, Caller, same_units, credential_matches}
use trax_os.Harness.Reset.{
  accepts, reset_replica, Session, reset, row_of, write_row, session_of, is_owned, is_repeated,
  is_addressed, rotated, reset_row,
}

same_units_refl : (xs : List ℕ) → same_units xs xs ≡ true
same_units_refl [] = refl
same_units_refl (x ∷ xs) = ground (arith, same_units_refl xs)

row_of-write_row :
    (f : Replica → Replica) (caller : Caller) (rows : List Replica) (row : Replica)
    → ((r : Replica) → (f r).replica_id ≡ r.replica_id)
    → row_of rows caller ≡ some row
    → row_of (write_row f caller rows) caller ≡ some (f row)
row_of-write_row f caller rows row keeps e =
    find?-map (λ r. r.replica_id) f caller.binding.replica_id rows row keeps e

reset_eq : (s t : Session) → reset s ≡ reset t → s ≡ t
reset_eq s t e = cc

module _ (platform : Platform) (rotate : String → String → ℕ → String) (caller : Caller)
    (request : String) where
  credential_matches_refl : (s : String) → credential_matches platform s s ≡ true
  unfolding credential_matches
  credential_matches_refl s = same_units_refl (platform.bytes s)

  -- The request has been carried out on the row.
  record IsReset (rows : List Replica) : Type 0 where
    pub row : Replica
    pub found : row_of rows caller ≡ some row
    pub owned : is_owned platform rotate caller row ≡ true
    pub repeated : is_repeated platform rotate caller request row ≡ true

  IsReset-rotated :
      (rows : List Replica) (row : Replica)
      → row_of rows caller ≡ some row
      → is_owned platform rotate caller row ≡ true
      → is_addressed platform rotate caller row ≡ true
      → (row.credential_digest == "") ≡ false
      → IsReset (write_row (rotated platform rotate caller request) caller rows)
  IsReset-rotated rows row found owned addressed full = record {
    row = rotated platform rotate caller request row;
    found =
        row_of-write_row (rotated platform rotate caller request) caller rows row (λ r. refl) found;
    owned = owned;
    repeated = ground (
      arith,
      eq_refl request,
      credential_matches_refl
          (platform.sha256 (session_of platform rotate caller request).credential),
    );
  }

  reset_row-cases :
      (rows rows' : List Replica) (row : Replica) (s : Session)
      → row_of rows caller ≡ some row
      → (row.credential_digest == "") ≡ false
      → reset_row platform rotate rows caller request row ≡ (rows', reset s)
      → IsReset rows' × (s ≡ session_of platform rotate caller request)
  unfolding reset_row
  reset_row-cases rows rows' row s found full e =
      elim (Bool-cases (is_owned platform rotate caller row)) [
        | inr other ↦ let e' = ap (λ x. x.1) (rw other at e) in cc
        | inl owned ↦ elim (Bool-cases (is_repeated platform rotate caller request row)) [
          | inl repeated ↦
              let e' = rw (owned, repeated) at e in
              (
                subst IsReset (ap (λ x. x.0) e')
                    (record { row = row; found = found; owned = owned; repeated = repeated }),
                reset_eq s (session_of platform rotate caller request) (sym (ap (λ x. x.1) e')),
              )
          | inr new ↦ elim (Bool-cases (is_addressed platform rotate caller row)) [
            | inr apart ↦ let e' = ap (λ x. x.1) (rw (owned, new, apart) at e) in cc
            | inl addressed ↦ elim (Bool-cases (replica_is_stale platform row)) [
              | inr fresh ↦ let e' = ap (λ x. x.1) (rw (owned, new, addressed, fresh) at e) in cc
              | inl stale ↦
                  let e' = rw (owned, new, addressed, stale) at e in
                  (
                    subst IsReset (ap (λ x. x.0) e')
                        (IsReset-rotated rows row found owned addressed full),
                    reset_eq s (session_of platform rotate caller request) (sym (ap (λ x. x.1) e')),
                  )
            ]
          ]
        ]
      ]

  reset_replica-IsReset :
      (rows : List Replica)
      → IsReset rows
      → reset_replica platform rotate rows caller request
        ≡ (rows, reset (session_of platform rotate caller request))
  unfolding reset_replica reset_row
  reset_replica-IsReset rows h = rw (reset_replica, h.found, reset_row, h.owned, h.repeated)

  reset_replica-row :
      (rows : List Replica) (row : Replica)
      → row_of rows caller ≡ some row
      → reset_replica platform rotate rows caller request
        ≡ reset_row platform rotate rows caller request row
  unfolding reset_replica
  reset_replica-row rows row found = rw (reset_replica, found)

  -- The caller with the session that the reset gives.
  abbrev pub renewed : Session → Caller
  renewed s = record caller {
    binding = record { replica_id = s.replica_id; replica_epoch = s.replica_epoch };
    credential = s.credential;
  }

  lock_row :
      (rows : List Replica)
      → (h : IsReset rows)
      → accepts platform (renewed (session_of platform rotate caller request)) h.row ≡ true
  lock_row rows h = let owned = h.owned in let repeated = h.repeated in ground arith

  -- When a reset has given a session, the request can be sent again with the old credential: it
  -- changes nothing and gives the same session; and the session's credential is accepted for the
  -- replica in its next epoch. The digest of the old credential is not empty.
  pub reset_replica-again :
      (rows rows' : List Replica) (row : Replica) (s : Session)
      → row_of rows caller ≡ some row
      → (row.credential_digest == "") ≡ false
      → reset_replica platform rotate rows caller request ≡ (rows', reset s)
      → (reset_replica platform rotate rows' caller request ≡ (rows', reset s))
        × (s.replica_epoch ≡ suc caller.binding.replica_epoch)
        × ((after : Replica) × (row_of rows' (renewed s) ≡ some after)
            × (accepts platform (renewed s) after ≡ true))
  reset_replica-again rows rows' row s found full e =
      let (h, same) =
        reset_row-cases rows rows' row s found full (sym (reset_replica-row rows row found) ∙ e) in
      (
        reset_replica-IsReset rows' h ∙ ap (λ t. (rows', reset t)) (sym same),
        ap (λ t. t.replica_epoch) same,
        subst
            (λ t.
              (after : Replica) × (row_of rows' (renewed t) ≡ some after)
              × (accepts platform (renewed t) after ≡ true))
            (sym same) (h.row, h.found, lock_row rows' h),
      )
