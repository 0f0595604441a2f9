-- ===== src/ApiClient/Negotiation/Ranges.antt =====
-- `negotiateRange` finds the greatest version that both sides support.
use trax_os.Common.{◌≡◌, ◌↔◌, true, ok, err, arith}
use trax_os.Common.Int.{ℤ, min_ℤ, ◌<ℤ◌, ◌≤ℤ◌, eq_of_parts}
use trax_os.ApiClient.Negotiation.{
  VersionRange, client_too_old, client_too_new, range_ok, validate_range, negotiate_range,
}

abbrev pub Supports : VersionRange → ℤ → Type 0
Supports r v = (r.minimum_supported ≤ℤ v) × (v ≤ℤ r.maximum_supported)

-- The greatest version that both ranges hold.
pub record IsBest (client server : VersionRange) (v : ℤ) : Type 0 where
  pub by_client : Supports client v
  pub by_server : Supports server v
  pub greatest : (w : ℤ) → Supports client w → Supports server w → w ≤ℤ v

module _ (client server : VersionRange) where
  pub negotiate_range-IsBest :
      {v : ℤ} → negotiate_range client server ≡ ok v → IsBest client server v
  unfolding negotiate_range validate_range
  negotiate_range-IsBest {v} e = record {
    by_client = (ground arith, ground arith);
    by_server = (ground arith, ground arith);
    greatest = λ w p q. ground arith;
  }

  -- For two valid ranges negotiation returns a version exactly when it is the greatest that both
  -- hold; and it fails with `client_too_old` or `client_too_new` exactly when every version of
  -- the client is below, or above, those of the server.
  pub negotiate_range_iff :
      range_ok client ≡ true
      → range_ok server ≡ true
      → ((v : ℤ) → (negotiate_range client server ≡ ok v) ↔ IsBest client server v)
        × ((negotiate_range client server ≡ err client_too_old)
            ↔ (client.maximum_supported <ℤ server.minimum_supported))
        × ((negotiate_range client server ≡ err client_too_new)
            ↔ (server.maximum_supported <ℤ client.minimum_supported))
  unfolding negotiate_range validate_range
  negotiate_range_iff p q = (
    λ v. (negotiate_range-IsBest, λ best. found v best),
    (λ e. ground arith, λ h. ground arith),
    (λ e. ground arith, λ h. ground arith),
  )
    where
      found : (v : ℤ) → IsBest client server v → negotiate_range client server ≡ ok v
      found v best =
          let c = best.by_client in
          let d = best.by_server in
          let m = min_ℤ client.maximum_supported server.maximum_supported in
          let top : m ≤ℤ v =
            best.greatest m (ground arith, ground arith) (ground arith, ground arith) in
          rw (p, q) (ground (arith, eq_of_parts m v))
