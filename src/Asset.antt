-- ===== src/Asset.antt =====
-- The lane identities of crates/rgk-asset/src/native.rs: blinded ids, scan tags and nullifiers, each a
-- hash under a domain text of its own (`asset_domain_hash` of crates/rgk-asset/src/lib.rs).
pub mod Binding
pub mod Errors
pub mod Policies
pub mod Records
pub mod Roots
pub mod Supply
pub mod Shapes
pub mod Issues
pub mod Transitions
pub mod Continuations
pub mod Strategies
pub mod History
use rgk.Prelude.{ℕ, Bool, List, [], ◌∷◌, ◌++◌, codes, nat_eq, list_eq, equals}
use rgk.Core.Bytes.{Bytes32}
use rgk.Core.Chain.{KaspaChainId}
use rgk.Core.Encoding.{to_le}
use rgk.Core.Types.{KaspaOutpoint}
use rgk.Core.Commit.{domain_hash_str}

pub record RgkCovenantAnchor : Type 0 where
  pub chain : KaspaChainId
  pub covenant_outpoint : KaspaOutpoint
  pub covenant_id : Bytes32
  pub witness_txid : Bytes32
  pub daa_score : ℕ
  pub confirmation_depth : ℕ

-- The payload of `derive_blinded_lane_id` and of `RgkScanTag::derive`.
unfoldable pub lane_payload : Bytes32 → Bytes32 → ℕ → List ℕ
lane_payload key id epoch = key ++ (id ++ to_le 8 epoch)

-- The payload of `RgkNullifier::derive`.
unfoldable pub nullifier_payload : Bytes32 → RgkCovenantAnchor → List ℕ
nullifier_payload secret a =
    secret
    ++ (a.covenant_outpoint.transaction_id ++ (to_le 4 a.covenant_outpoint.index ++ a.covenant_id))

abbrev pub lane_domain : List ℕ
lane_domain = codes "rgk:lane:blinded-id:v1"

abbrev pub scan_tag_domain : List ℕ
scan_tag_domain = codes "rgk:lane:scan-tag:v1"

abbrev pub nullifier_domain : List ℕ
nullifier_domain = codes "rgk:lane:nullifier:v1"

module _ (sha256 : List ℕ → Bytes32) where
  unfoldable pub derive_blinded_lane_id : Bytes32 → Bytes32 → ℕ → Bytes32
  unfolding lane_payload
  derive_blinded_lane_id view_key asset epoch =
      domain_hash_str sha256 lane_domain (lane_payload view_key asset epoch)

  -- `RgkScanTag::derive`
  unfoldable pub derive_scan_tag : Bytes32 → Bytes32 → ℕ → Bytes32
  unfolding lane_payload
  derive_scan_tag view_key lane epoch =
      domain_hash_str sha256 scan_tag_domain (lane_payload view_key lane epoch)

  -- `RgkNullifier::derive`
  unfoldable pub derive_nullifier : Bytes32 → RgkCovenantAnchor → Bytes32
  unfolding nullifier_payload
  derive_nullifier secret a = domain_hash_str sha256 nullifier_domain (nullifier_payload secret a)

  unfoldable pub discover_lane : Bytes32 → Bytes32 → ℕ → Bytes32 → Bool
  discover_lane view_key asset epoch candidate =
      equals (derive_blinded_lane_id view_key asset epoch) candidate
