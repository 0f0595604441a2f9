-- ===== src/Repository/Replay/Kind.antt =====
-- The kinds of rows that belong to a journey, segments and packing items, with the calls of save in
-- http-journey-repository.ts that are of them, and the laws of what those calls make of a row.
use trax_os.Common.{String, true, false, Option, none, some, List, ◌≡◌, ◌==◌, if◌then◌else◌}
use trax_os.Common.Json.{Fields}
use trax_os.Repository.Requests.{Request}
use trax_os.Repository.Plan.{Call, request}
use trax_os.Repository.Replay.Runs.{run, Idle}

-- the row of an id: its journey and its fields
abbrev pub Row : Type 0
Row = String × Fields

-- the row that data asks for, of what is found under an id
abbrev pub row_of : {A : Type 0} → (A → String) → (A → Fields) → Option A → Option Row
row_of owner fields none = none
row_of owner fields (some x) = some (owner x, fields x)

abbrev pub orphaned : String → Option Row → Option Row
orphaned j none = none
orphaned j (some (owner, fields)) = if owner == j then none else some (owner, fields)

pub record Kind (A : Type 0) : Type 1 where
  pub key : A → String
  pub owner : A → String
  pub fields : A → Fields
  -- what is asked of an element that is not in the data before
  pub IsNew : A → Type 0
  -- what is asked of an element and the one of its key in the data after
  pub IsTold : A → A → Type 0
  pub delete_call : A → Request
  pub calls_for : Option A → A → List Call

-- What `step` makes of the row of `k`.
pub record IsReplayed {A : Type 0} (K : Kind A) (k : String) (step : Call → Option Row → Option Row)
    : Type 0 where
  pub orphans :
      (j : String) (row : Option Row)
      → step (request (Request.delete_journey j)) row ≡ orphaned j row
  pub deletes :
      (x : A) (row : Option Row)
      → step (request (K.delete_call x)) row ≡ (if K.key x == k then none else row)
  pub others : (o : Option A) (x : A) → (K.key x == k) ≡ false → Idle step (K.calls_for o x)
  pub creates :
      (x : A)
      → K.IsNew x
      → (K.key x == k) ≡ true
      → run step (K.calls_for none x) none ≡ some (K.owner x, K.fields x)
  pub updates :
      (a x : A)
      → K.key a ≡ K.key x
      → (K.key x == k) ≡ true
      → K.owner a ≡ K.owner x
      → K.IsTold a x
      → run step (K.calls_for (some a) x) (some (K.owner a, K.fields a))
        ≡ some (K.owner x, K.fields x)
