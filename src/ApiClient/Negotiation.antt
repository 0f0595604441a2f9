-- ===== src/ApiClient/Negotiation.antt =====
-- Version negotiation, packages/api-client/src/negotiation.ts. Version numbers are integers: the
-- response has passed the schema, whose type for them is `integer`. What `clientSupport` of the
-- generated client holds is an argument.
pub mod Ranges
pub mod Contracts
use trax_os.Common.{
  String, Bool, true, false, not, ◌&&◌, ◌||◌, Option, none, some, List, [], ◌∷◌, ◌==◌, map, any,
  Result, ok, err, guard, ◌>>=◌, ◌>>◌, if◌then◌else◌, ◌^◌, ◌-◌,
}
use trax_os.Common.Int.{ℤ, pos, ltb_ℤ, leb_ℤ, min_ℤ}
use trax_os.Common.JsMap

pub data NegotiationFailureCode : Type 0 where
  invalid_contract_metadata client_too_old client_too_new : NegotiationFailureCode
  unsupported_command command_version_no_overlap : NegotiationFailureCode

pub record VersionRange : Type 0 where
  pub minimum_supported : ℤ
  pub maximum_supported : ℤ

pub record ServerRange : Type 0 where
  pub range : VersionRange
  pub current : ℤ

pub record ServerCommand : Type 0 where
  pub command_type : String
  pub server : ServerRange

pub record ContractDiscovery : Type 0 where
  pub schema_version : String
  pub api : ServerRange
  pub commands : List ServerCommand

pub record ClientSupport : Type 0 where
  pub api : VersionRange
  pub commands : List (String × VersionRange)

pub record NegotiatedContract : Type 0 where
  pub api_version : ℤ
  pub command_versions : List (String × ℤ)

-- `Number.isSafeInteger(value) && value > 0`
abbrev pub positive_safe_integer : ℤ → Bool
positive_safe_integer n = leb_ℤ n (pos (2 ^ 53 - 1)) && ltb_ℤ (pos 0) n

abbrev pub range_ok : VersionRange → Bool
range_ok r = not (
    not (positive_safe_integer r.minimum_supported)
    || not (positive_safe_integer r.maximum_supported)
    || ltb_ℤ r.maximum_supported r.minimum_supported)

unfoldable pub validate_range : VersionRange → Result NegotiationFailureCode (Unit {0})
validate_range r = guard (range_ok r) invalid_contract_metadata

abbrev pub outside : ℤ → VersionRange → Bool
outside n r = ltb_ℤ n r.minimum_supported || ltb_ℤ r.maximum_supported n

unfoldable pub validate_server_range : ServerRange → Result NegotiationFailureCode (Unit {0})
validate_server_range s = do
  validate_range s.range
  guard (positive_safe_integer s.current) invalid_contract_metadata
  guard (not (outside s.current s.range)) invalid_contract_metadata

unfoldable pub negotiate_range : VersionRange → VersionRange → Result NegotiationFailureCode ℤ
negotiate_range client server = do
  validate_range client
  validate_range server
  guard (not (ltb_ℤ client.maximum_supported server.minimum_supported)) client_too_old
  guard (not (ltb_ℤ server.maximum_supported client.minimum_supported)) client_too_new
  ok (min_ℤ client.maximum_supported server.maximum_supported)

-- the first loop of `negotiateContract`; `types` are the command types met so far
unfoldable pub validate_commands :
    List String → List ServerCommand → Result NegotiationFailureCode (Unit {0})
validate_commands types [] = ok tt
validate_commands types (c ∷ commands) = do
  guard (not (any (λ t. t == c.command_type) types)) invalid_contract_metadata
  validate_server_range c.server
  validate_commands (c.command_type ∷ types) commands

-- the `catch` around the negotiation of a command
unfoldable pub no_overlap : Result NegotiationFailureCode ℤ → Result NegotiationFailureCode ℤ
no_overlap (ok version) = ok version
no_overlap (err client_too_old) = err command_version_no_overlap
no_overlap (err client_too_new) = err command_version_no_overlap
no_overlap (err code) = err code

abbrev pub required : Option ServerRange → Result NegotiationFailureCode ServerRange
required none = err unsupported_command
required (some server) = ok server

-- `new Map(metadata.commands.map(...))`
abbrev pub server_commands : List ServerCommand → List (String × ServerRange)
server_commands = map (λ c. (c.command_type, c.server))

-- the second loop: every command that the client needs
unfoldable pub negotiate_commands :
    List (String × ServerRange)
    → List (String × VersionRange)
    → Result NegotiationFailureCode (List (String × ℤ))
negotiate_commands servers [] = ok []
negotiate_commands servers ((command_type, client) ∷ commands) = do
  server ← required (JsMap.get servers command_type)
  version ← no_overlap (negotiate_range client server.range)
  versions ← negotiate_commands servers commands
  ok ((command_type, version) ∷ versions)

unfoldable pub negotiate_contract :
    ClientSupport → ContractDiscovery → Result NegotiationFailureCode NegotiatedContract
negotiate_contract support metadata = do
  guard (metadata.schema_version == "1") invalid_contract_metadata
  validate_server_range metadata.api
  validate_commands [] metadata.commands
  api_version ← negotiate_range support.api metadata.api.range
  command_versions ← negotiate_commands (server_commands metadata.commands) support.commands
  ok (record { api_version = api_version; command_versions = command_versions })
