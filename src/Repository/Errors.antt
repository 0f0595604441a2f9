-- ===== src/Repository/Errors.antt =====
-- The errors of a repository (journey-repository.ts), those of the API client, and what
-- `repositoryCall` of http-journey-repository.ts makes of them. The texts are left out where no
-- program reads them.
use trax_os.Common.{ℕ, String, Bool, Option, none, some, eqb, if◌then◌else◌}

pub data RepositoryErrorCode : Type 0 where
  authentication_required version_conflict network_error server_error : RepositoryErrorCode

pub record RepositoryError : Type 0 where
  pub code : RepositoryErrorCode
  pub message : String

pub data ErrorKind : Type 0 where
  api contract network negotiation : ErrorKind

-- `ApiClientError`, less the operation's name and the request's id
pub record ApiError : Type 0 where
  pub kind : ErrorKind
  pub code : String
  pub status : Option ℕ

-- What a call of the API client, or the reading of its answer, throws.
pub data CallError : Type 0 where
  client : ApiError → CallError
  repository : RepositoryError → CallError

abbrev pub is_status : ℕ → Option ℕ → Bool
is_status n none = Bool.false
is_status n (some m) = eqb m n

abbrev pub server_message : ApiError → String
server_message e = elim e.kind [
  | api ↦ e.code
  | contract ↦ "invalid_response"
  | network ↦ e.code
  | negotiation ↦ e.code
]

abbrev pub answered_error : ApiError → RepositoryError
answered_error e =
    if is_status 401 e.status
    then record { code = authentication_required; message = e.code }
    else if is_status 409 e.status
    then record { code = version_conflict; message = e.code }
    else record { code = server_error; message = server_message e }

unfoldable pub repository_error : CallError → RepositoryError
repository_error (repository e) = e
repository_error (client e) = elim e.kind [
  | api ↦ answered_error e
  | contract ↦ answered_error e
  | network ↦ record { code = network_error; message = "Network unavailable" }
  | negotiation ↦ answered_error e
]

abbrev pub invalid_response : RepositoryError
invalid_response = record { code = server_error; message = "invalid_response" }
