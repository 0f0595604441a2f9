-- ===== src/ApiClient/Negotiation/Contracts.antt =====
-- What `negotiateContract` has established when it returns.
use trax_os.Common.{
  String, true, false, ◌≡◌, ◌≢◌, refl, List, [], ◌∷◌, ◌==◌, not, any, All, DistinctBy, Option, none,
  some, ok, err, arith, eq_iff, bind-eq-ok, All-mono, Result, guard,
}
use trax_os.Common.Int.{ℤ, ◌≤ℤ◌}
use trax_os.Common.JsMap
use trax_os.ApiClient.Negotiation.{
  VersionRange, ServerRange, ServerCommand, ContractDiscovery, ClientSupport, NegotiatedContract,
  NegotiationFailureCode, range_ok, validate_range, validate_server_range, negotiate_range,
  validate_commands, no_overlap, required, server_commands, negotiate_commands, negotiate_contract,
}
use trax_os.ApiClient.Negotiation.Ranges.{IsBest, negotiate_range-IsBest}

-- A valid range that holds its current version.
abbrev pub IsServerRange : ServerRange → Type 0
IsServerRange s =
    (range_ok s.range ≡ true)
    × (s.range.minimum_supported ≤ℤ s.current)
    × (s.current ≤ℤ s.range.maximum_supported)

validate_server_range_sound : (s : ServerRange) → validate_server_range s ≡ ok tt → IsServerRange s
unfolding validate_server_range validate_range
validate_server_range_sound s e = (ground arith, ground arith, ground arith)

-- Each command of the client, in order, with the best version for the server's range of it.
abbrev pub AreNegotiated :
    List (String × ServerRange) → List (String × VersionRange) → List (String × ℤ) → Type 0
AreNegotiated servers [] [] = Unit
AreNegotiated servers ((t, client) ∷ commands) ((t', v) ∷ versions) =
    (t' ≡ t)
    × ((s : ServerRange) × (JsMap.get servers t ≡ some s) × IsBest client s.range v)
    × AreNegotiated servers commands versions
AreNegotiated servers _ _ = ⊥

no_overlap-eq-ok : (m : Result NegotiationFailureCode ℤ) {v : ℤ} → no_overlap m ≡ ok v → m ≡ ok v
unfolding no_overlap
no_overlap-eq-ok (ok v) e = e
no_overlap-eq-ok (err code) e = ground arith

required-eq-ok : (o : Option ServerRange) {s : ServerRange} → required o ≡ ok s → o ≡ some s
required-eq-ok none e = cc
required-eq-ok (some s) e = ground arith

negotiate_commands_sound :
    (servers : List (String × ServerRange)) (commands : List (String × VersionRange))
    (versions : List (String × ℤ))
    → negotiate_commands servers commands ≡ ok versions
    → AreNegotiated servers commands versions
unfolding negotiate_commands
negotiate_commands_sound servers [] [] e = tt
negotiate_commands_sound servers [] (v ∷ versions) e = cc
negotiate_commands_sound servers ((t, client) ∷ commands) versions e =
    let (s, found, e1) = bind-eq-ok (required (JsMap.get servers t)) _ e in
    let (v, best, e2) = bind-eq-ok (no_overlap (negotiate_range client s.range)) _ e1 in
    let (vs, later, e3) = bind-eq-ok (negotiate_commands servers commands) _ e2 in
    built versions v vs (ground arith)
      (
        s,
        required-eq-ok (JsMap.get servers t) found,
        negotiate_range-IsBest client s.range (no_overlap-eq-ok _ best),
      )
      (negotiate_commands_sound servers commands vs later)
  where
    built :
        (versions : List (String × ℤ)) (v : ℤ) (vs : List (String × ℤ))
        → versions ≡ (t, v) ∷ vs
        → (s : ServerRange) × (JsMap.get servers t ≡ some s) × IsBest client s.range v
        → AreNegotiated servers commands vs
        → AreNegotiated servers ((t, client) ∷ commands) versions
    built versions v vs same best later = rw same (refl, best, later)

-- The metadata is of version 1; no command is listed twice, and every range is valid and holds
-- its current version.
pub record IsMetadata (metadata : ContractDiscovery) : Type 0 where
  pub schema : metadata.schema_version ≡ "1"
  pub api : IsServerRange metadata.api
  pub distinct : DistinctBy (λ c. c.command_type) metadata.commands
  pub commands : All (λ c. IsServerRange c.server) metadata.commands

validate_commands_sound :
    (types : List String) (commands : List ServerCommand)
    → validate_commands types commands ≡ ok tt
    → DistinctBy (λ c. c.command_type) commands
      × All (λ c. IsServerRange c.server) commands
      × All (λ c. any (λ t. t == c.command_type) types ≡ false) commands
unfolding validate_commands
validate_commands_sound types [] e = (tt, tt, tt)
validate_commands_sound types (c ∷ commands) e =
    let (_, new, e1) = bind-eq-ok (guard (not (any (λ t. t == c.command_type) types)) _) _ e in
    let (_, valid, e2) = bind-eq-ok (validate_server_range c.server) _ e1 in
    let (distinct, each, unseen) = validate_commands_sound (c.command_type ∷ types) commands e2 in
    (
      (
        All-mono (λ x. any (λ t. t == x.command_type) (c.command_type ∷ types) ≡ false)
            (λ x. x.command_type ≢ c.command_type)
            (λ x h p. ground (arith, eq_iff c.command_type x.command_type)) commands unseen,
        distinct,
      ),
      (validate_server_range_sound c.server valid, each),
      (
        ground arith,
        All-mono (λ x. any (λ t. t == x.command_type) (c.command_type ∷ types) ≡ false)
            (λ x. any (λ t. t == x.command_type) types ≡ false) (λ x h. ground arith) commands
            unseen,
      ),
    )

-- When `negotiateContract` returns, the metadata is valid, the API version is the greatest that
-- client and server support, and every command of the client has, in order, the greatest version
-- that the client and the server's entry for that command support.
pub negotiate_contract_sound :
    (support : ClientSupport) (metadata : ContractDiscovery) (c : NegotiatedContract)
    → negotiate_contract support metadata ≡ ok c
    → IsMetadata metadata
      × IsBest support.api metadata.api.range c.api_version
      × AreNegotiated (server_commands metadata.commands) support.commands c.command_versions
unfolding negotiate_contract
negotiate_contract_sound support metadata c e =
    let (_, schema, e1) = bind-eq-ok (guard (metadata.schema_version == "1") _) _ e in
    let (_, api, e2) = bind-eq-ok (validate_server_range metadata.api) _ e1 in
    let (_, commands, e3) = bind-eq-ok (validate_commands [] metadata.commands) _ e2 in
    let (v, best, e4) = bind-eq-ok (negotiate_range support.api metadata.api.range) _ e3 in
    let (vs, versions, e5) =
      bind-eq-ok (negotiate_commands (server_commands metadata.commands) support.commands) _ e4 in
    let (distinct, each, _) = validate_commands_sound [] metadata.commands commands in
    let same : c ≡ record { api_version = v; command_versions = vs } = ground arith in
    (
      record {
        schema = (eq_iff metadata.schema_version "1").0 (ground arith);
        api = validate_server_range_sound metadata.api api;
        distinct = distinct;
        commands = each;
      },
      rw same (negotiate_range-IsBest support.api metadata.api.range best),
      rw same (negotiate_commands_sound _ support.commands vs versions),
    )
