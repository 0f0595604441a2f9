-- ===== src/ApiClient/Tests.antt =====
-- Negotiations of a client that needs one command.
use trax_os.Common.{[], ◌∷◌, ◌≡◌, ◌↔◌, String, refl, ok, err}
use trax_os.Common.Int.{ℤ, pos, ◌<ℤ◌}
use trax_os.ApiClient.Negotiation.{
  VersionRange, ServerRange, ContractDiscovery, ClientSupport, NegotiatedContract, client_too_old,
  client_too_new, invalid_contract_metadata, unsupported_command, validate_range,
  validate_server_range, negotiate_range, validate_commands, no_overlap, negotiate_commands,
  negotiate_contract, server_commands,
}
use trax_os.ApiClient.Negotiation.Ranges.{IsBest, negotiate_range_iff}
use trax_os.ApiClient.Negotiation.Contracts.{IsMetadata, AreNegotiated, negotiate_contract_sound}

abbrev versions : ℤ → ℤ → VersionRange
versions least most = record { minimum_supported = least; maximum_supported = most }

abbrev served : ℤ → ℤ → ServerRange
served least most = record { range = versions least most; current = most }

abbrev update : String
update = "journey.update"

abbrev client : ClientSupport
client = record {
  api = versions (pos 1) (pos 2);
  commands = (update, versions (pos 1) (pos 3)) ∷ [];
}

abbrev server : ℤ → ContractDiscovery
server most = record {
  schema_version = "1";
  api = served (pos 1) (pos 1);
  commands = record { command_type = update; server = served (pos 2) most } ∷ [];
}

abbrev contract : NegotiatedContract
contract = record { api_version = pos 1; command_versions = (update, pos 3) ∷ [] }

-- A server whose range of a command is empty is refused as invalid, not as without overlap.
empty_range : negotiate_contract client (server (pos 1)) ≡ err invalid_contract_metadata
unfolding negotiate_contract validate_server_range validate_range validate_commands
empty_range = refl

missing_command :
    negotiate_contract client (record (server (pos 5)) { commands = [] }) ≡ err unsupported_command
unfolding negotiate_contract validate_server_range validate_range validate_commands negotiate_range
    negotiate_commands
missing_command = refl

negotiate_range_iff_example :
    ((v : ℤ)
      → (negotiate_range (versions (pos 1) (pos 3)) (versions (pos 2) (pos 5)) ≡ ok v)
        ↔ IsBest (versions (pos 1) (pos 3)) (versions (pos 2) (pos 5)) v)
    × ((negotiate_range (versions (pos 1) (pos 3)) (versions (pos 2) (pos 5)) ≡ err client_too_old)
        ↔ (pos 3 <ℤ pos 2))
    × ((negotiate_range (versions (pos 1) (pos 3)) (versions (pos 2) (pos 5)) ≡ err client_too_new)
        ↔ (pos 5 <ℤ pos 1))
negotiate_range_iff_example =
    negotiate_range_iff (versions (pos 1) (pos 3)) (versions (pos 2) (pos 5)) refl refl

negotiate_contract_sound_example :
    IsMetadata (server (pos 5))
    × IsBest client.api (versions (pos 1) (pos 1)) (pos 1)
    × AreNegotiated
        (server_commands (server (pos 5)).commands)
        client.commands
        contract.command_versions
unfolding negotiate_contract validate_server_range validate_range validate_commands negotiate_range
    negotiate_commands no_overlap
negotiate_contract_sound_example = negotiate_contract_sound client (server (pos 5)) contract refl
