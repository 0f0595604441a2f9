-- ===== src/Repository/Actions.antt =====
-- What the class HttpJourneyRepository of http-journey-repository.ts keeps, the client and the
-- source of ids that it is built with, and a monad of what its methods do to them.
use trax_os.Common.{String, List}
use trax_os.Common.Int.{ℤ}
use trax_os.Common.Json.{Value}
use trax_os.Common.{Result, ok, err}
use trax_os.Journeys.Domain.{JourneyData}
use trax_os.Repository.Errors.{ApiError, CallError, client}
use trax_os.Repository.Requests.{Request}

pub record Pending : Type 0 where
  pub command_id : String
  pub signature : String

pub record JourneyRepository : Type 0 where
  pub current : JourneyData
  pub pending : List (String × Pending)

-- `TraxApiClient` and `commandId`, over what stands behind them
pub record Client (S : Type 0) : Type 0 where
  pub send : Request → S → S × Result ApiError Value
  pub command_version : String → S → S × Result ApiError ℤ
  pub new_id : S → S × String

pub record Run (E S A : Type 0) : Type 0 where
  pub repository : JourneyRepository
  pub world : S
  pub result : Result E A

abbrev pub Action : (E S A : Type 0) → Type 0
Action E S A = JourneyRepository → S → Run E S A

module _ {E S : Type 0} where
  abbrev pub return : {A : Type 0} → Result E A → Action E S A
  return a r s = record { repository = r; world = s; result = a }

  abbrev pub continue : {A B : Type 0} → Result E A → (A → Action E S B) → Action E S B
  continue (ok a) f = f a
  continue (err e) f = return (err e)

  infixl 5 ◌>>=◌ ◌>>◌
  abbrev pub ◌>>=◌ : {A B : Type 0} → Action E S A → (A → Action E S B) → Action E S B
  ◌>>=◌ m f r s = let run = m r s in continue run.result f run.repository run.world

  abbrev pub ◌>>◌ : {B : Type 0} → Action E S (Unit {0}) → Action E S B → Action E S B
  m >> k = m >>= λ _. k

  abbrev pub this : Action E S JourneyRepository
  this r s = return (ok r) r s

  abbrev pub put : JourneyRepository → Action E S (Unit {0})
  put r' r s = return (ok tt) r' s

-- a call of the client, whose errors the methods see
module _ {A : Type 0} where
  abbrev pub thrown : Result ApiError A → Result CallError A
  thrown (ok a) = ok a
  thrown (err e) = err (client e)

  abbrev pub call : {S : Type 0} → (S → S × Result ApiError A) → Action CallError S A
  call f r s = let answer = f s in return (thrown answer.1) r answer.0
