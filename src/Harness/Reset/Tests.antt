-- ===== src/Harness/Reset/Tests.antt =====
-- A reset of the sample's replica, and its acknowledgement.
use trax_os.Common.{ℕ, String, true, some, List, [], ◌∷◌, ◌≡◌, refl}
use trax_os.Harness.Database.{Replica}
use trax_os.Harness.Server.{Platform, accepts, credential_matches}
use trax_os.Harness.Tests.{platform, caller, replica}
use trax_os.Harness.Reset.{
  Session, reset, acknowledged, invalid, row_of, session_of, rotated, settled_row, reset_replica,
  reset_row, acknowledge_reset, acknowledge_row,
}
use trax_os.Harness.Reset.Retry.{renewed, reset_replica-again}

-- Every replica is stale.
abbrev strict : Platform
strict = record platform { reset_required = λ ack sequence. true }

abbrev rotate : String → String → ℕ → String
rotate _ request _ = request

abbrev session : Session
session = session_of strict rotate caller "r2"

abbrev rows : List Replica
rows = rotated strict rotate caller "r2" replica ∷ []

runs_reset : reset_replica strict rotate (replica ∷ []) caller "r2" ≡ (rows, reset session)
unfolding reset_replica reset_row credential_matches
runs_reset = refl

-- Acknowledged with the new credential, the reset is over: the old one is turned away.
abbrev settled_rows : List Replica
settled_rows = settled_row strict rotate "r2" (rotated strict rotate caller "r2" replica) ∷ []

runs_acknowledge :
    acknowledge_reset strict rotate rows (renewed strict rotate caller "r2" session) "r2"
    ≡ (settled_rows, acknowledged)
unfolding acknowledge_reset acknowledge_row credential_matches
runs_acknowledge = refl

runs_late : reset_replica strict rotate settled_rows caller "r2" ≡ (settled_rows, invalid)
unfolding reset_replica reset_row credential_matches
runs_late = refl

reset_replica-again_example :
    (reset_replica strict rotate rows caller "r2" ≡ (rows, reset session))
    × (session.replica_epoch ≡ 3)
    × ((after : Replica) × (row_of rows (renewed strict rotate caller "r2" session) ≡ some after)
        × (accepts strict (renewed strict rotate caller "r2" session) after ≡ true))
reset_replica-again_example =
    reset_replica-again strict rotate caller "r2" (replica ∷ []) rows replica session refl refl
      runs_reset
