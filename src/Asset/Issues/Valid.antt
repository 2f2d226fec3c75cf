-- ===== src/Asset/Issues/Valid.antt =====
-- Which issues validate, and with which report.
use rgk.Prelude.{ℕ, ◌≡◌, ◌≢◌, ◌↔◌, List, [], ok, checked, valued, returned}
use rgk.Core.Bytes.{Bytes32}
use rgk.Asset.Policies.{policy_digest}
use rgk.Asset.Records.{RgkAssetIssue, RgkIssueReport}
use rgk.Asset.Supply.Sets.{NonZero, IsAllocationSet, supply, exact_iff}
use rgk.Asset.Supply.Delta.{
  IsCommon, validate_common_iff, metadata_iff, owner_iff, policy_commitment_iff,
}
use rgk.Asset.Issues.{issue_structure, issue_report_with, issue_report_unchecked, validate_issue}

-- What an issue has to satisfy.
pub record IsIssue (i : RgkAssetIssue) : Type 0 where
  pub common : IsCommon i.schema_id i.asset_id i.total_supply i.lane_id i.proof_policy
  pub metadata : NonZero i.metadata_commitment
  pub owner : NonZero i.owner_commitment
  pub some_allocation : i.allocations ≢ []
  pub allocations : IsAllocationSet i.chain i.allocations
  pub exact : supply i.allocations ≡ i.total_supply

pub structure-IsIssue : (i : RgkAssetIssue) → (issue_structure i ≡ ok tt) ↔ IsIssue i
unfolding issue_structure
structure-IsIssue i =
    let (there, back) =
      checked _ (validate_common_iff i.schema_id i.asset_id i.total_supply i.lane_id i.proof_policy)
        (checked _ (metadata_iff i.metadata_commitment) (
          checked _ (owner_iff i.owner_commitment "issue")
            (exact_iff i.chain i.total_supply i.allocations))) in
    (
      λ h.
          let (c, (m, (o, ((n, set), e)))) = there h in
          record {
            common = c;
            metadata = m;
            owner = o;
            some_allocation = n;
            allocations = set;
            exact = e;
          },
      λ v. back (v.common, (v.metadata, (v.owner, ((v.some_allocation, v.allocations), v.exact)))),
    )

module _ (sha256 : List ℕ → Bytes32) where
  abbrev pub issue_report_of : RgkAssetIssue → RgkIssueReport
  issue_report_of i = issue_report_with sha256 i (policy_digest sha256 i.proof_policy)

  -- An issue validates exactly when its ids, owner, metadata and policy are set, it has at least one
  -- allocation, the allocations are well formed and stand on distinct outpoints, and their amounts add up,
  -- within 64 bits, to the total supply. The report then carries the digest of the issued state.
  pub validate_issue_iff :
      (i : RgkAssetIssue) (r : RgkIssueReport)
      → (validate_issue sha256 i ≡ ok r) ↔ (IsIssue i × (r ≡ issue_report_of i))
  unfolding validate_issue issue_report_unchecked
  validate_issue_iff i r =
      let (there, back) = checked _ (structure-IsIssue i) (
        valued _ _ (policy_digest sha256 i.proof_policy)
          (policy_commitment_iff sha256 i.proof_policy) (returned r)) in
      (λ h. let (v, (_, e)) = there h in (v, e), λ (v, e). back (v, (v.common.1.1.1.1, e)))
