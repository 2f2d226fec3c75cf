-- ===== src/Asset/Issues.antt =====
-- `RgkAssetIssue` of crates/rgk-asset/src/native.rs: the id of an asset, and what an issue has to satisfy.
pub mod Valid
use rgk.Prelude.{ℕ, List, ◌∷◌, ◌++◌, codes, length, Result, ok, err, ensure, ◌≟◌, list_eq, nat_eq}
use rgk.Prelude.Results.{◌>>◌, ◌>>=◌}
use rgk.Core.Bytes.{Bytes32}
use rgk.Core.Chain.{chain_as_u8}
use rgk.Core.Encoding.{to_le}
use rgk.Core.Commit.{domain_hash_str}
use rgk.Asset.Errors.{RgkAssetError, digest_mismatch}
use rgk.Asset.Policies.{privacy_as_u8, policy_commitment}
use rgk.Asset.Records.{RgkAssetIdDerivation, RgkAssetIssue, RgkIssueReport}
use rgk.Asset.Roots.{allocation_root, RgkStateDigestInput, state_digest_for_allocations}
use rgk.Asset.Shapes.{validate_production_zk_issue_count}
use rgk.Asset.Supply.{
  validate_common, validate_metadata_commitment, validate_owner_commitment,
  validate_allocation_set_exact,
}

abbrev pub asset_id_domain : List ℕ
asset_id_domain = codes "rgk:asset:id:v2"

-- The payload of `derive_asset_id`.
unfoldable pub asset_id_payload : RgkAssetIdDerivation → Bytes32 → Bytes32 → List ℕ
asset_id_payload input root policy =
    chain_as_u8 input.chain
    ∷ (input.schema_id
        ++ (to_le 8 input.total_supply
            ++ (input.metadata_commitment
                ++ (input.owner_commitment
                    ++ (root
                        ++ (privacy_as_u8 input.privacy_policy ∷ (input.lane_id ++ policy)))))))

-- `RgkAssetIssue::validate_structure`
unfoldable pub issue_structure : RgkAssetIssue → Result RgkAssetError (Unit {0})
issue_structure i = do
  validate_common i.schema_id i.asset_id i.total_supply i.lane_id i.proof_policy
  validate_metadata_commitment i.metadata_commitment
  validate_owner_commitment i.owner_commitment "issue"
  validate_allocation_set_exact i.chain i.total_supply i.allocations

abbrev pub issue_state : RgkAssetIssue → Bytes32 → RgkStateDigestInput
issue_state i policy = record {
  asset_id = i.asset_id;
  total_supply = i.total_supply;
  allocations = i.allocations;
  lane_id = i.lane_id;
  privacy_policy = i.privacy_policy;
  policy_commitment = policy;
  metadata_commitment = i.metadata_commitment;
  owner_commitment = i.owner_commitment;
}

module _ (sha256 : List ℕ → Bytes32) where
  unfoldable pub derive_asset_id : RgkAssetIdDerivation → Result RgkAssetError Bytes32
  unfolding asset_id_payload
  derive_asset_id input = do
    validate_metadata_commitment input.metadata_commitment
    validate_owner_commitment input.owner_commitment "issue"
    policy ← policy_commitment sha256 input.proof_policy
    ok (
        domain_hash_str sha256 asset_id_domain
          (asset_id_payload input (allocation_root sha256 input.allocations) policy))

  abbrev pub issue_report_with : RgkAssetIssue → Bytes32 → RgkIssueReport
  issue_report_with i policy = record {
    chain = i.chain;
    schema_id = i.schema_id;
    asset_id = i.asset_id;
    total_supply = i.total_supply;
    metadata_commitment = i.metadata_commitment;
    owner_commitment = i.owner_commitment;
    allocation_count = length i.allocations;
    lane_id = i.lane_id;
    privacy_policy = i.privacy_policy;
    policy_commitment = policy;
    state_digest = state_digest_for_allocations sha256 (issue_state i policy);
  }

  -- `RgkAssetIssue::report_unchecked`
  unfoldable pub issue_report_unchecked : RgkAssetIssue → Result RgkAssetError RgkIssueReport
  issue_report_unchecked i =
      policy_commitment sha256 i.proof_policy >>= λ policy. ok (issue_report_with i policy)

  -- `RgkAssetIssue::validate`
  unfoldable pub validate_issue : RgkAssetIssue → Result RgkAssetError RgkIssueReport
  validate_issue i = issue_structure i >> issue_report_unchecked i

  unfoldable pub validate_issue_for_production_zk :
      RgkAssetIssue → Result RgkAssetError RgkIssueReport
  validate_issue_for_production_zk i = do
    issue_structure i
    validate_production_zk_issue_count (length i.allocations)
    issue_report_unchecked i

  abbrev pub expect_digest : Bytes32 → RgkIssueReport → Result RgkAssetError RgkIssueReport
  expect_digest expected report =
      ensure (report.state_digest ≟ expected) (digest_mismatch expected report.state_digest)
      >> ok report

  unfoldable pub validate_issue_against_state_digest :
      RgkAssetIssue → Bytes32 → Result RgkAssetError RgkIssueReport
  validate_issue_against_state_digest i expected = validate_issue i >>= expect_digest expected

  unfoldable pub validate_issue_against_state_digest_for_production_zk :
      RgkAssetIssue → Bytes32 → Result RgkAssetError RgkIssueReport
  validate_issue_against_state_digest_for_production_zk i expected =
      validate_issue_for_production_zk i >>= expect_digest expected
