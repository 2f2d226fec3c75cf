-- ===== src/Asset/Records.antt =====
-- The records of the native asset grammar of crates/rgk-asset/src/native.rs. The one-field wrappers
-- round 32 bytes (state digests, owner commitments and the like) are their bytes.
use rgk.Prelude.{ℕ, Option, List}
use rgk.Core.Bytes.{Bytes32}
use rgk.Core.Chain.{KaspaChainId}
use rgk.Asset.{RgkCovenantAnchor}
use rgk.Asset.Policies.{LanePrivacyPolicy, RgkProofPolicy}

pub record RgkAllocation : Type 0 where
  pub anchor : RgkCovenantAnchor
  pub amount : ℕ
  pub encrypted_note_commitment : Bytes32

pub record RgkAssetIdDerivation : Type 0 where
  pub chain : KaspaChainId
  pub schema_id : Bytes32
  pub total_supply : ℕ
  pub metadata_commitment : Bytes32
  pub owner_commitment : Bytes32
  pub allocations : List RgkAllocation
  pub lane_id : Bytes32
  pub privacy_policy : LanePrivacyPolicy
  pub proof_policy : RgkProofPolicy

pub record RgkBurnProof : Type 0 where
  pub amount : ℕ
  pub authorization_commitment : Bytes32

pub record RgkAssetIssue : Type 0 where
  pub chain : KaspaChainId
  pub schema_id : Bytes32
  pub asset_id : Bytes32
  pub total_supply : ℕ
  pub metadata_commitment : Bytes32
  pub owner_commitment : Bytes32
  pub allocations : List RgkAllocation
  pub lane_id : Bytes32
  pub privacy_policy : LanePrivacyPolicy
  pub proof_policy : RgkProofPolicy

pub record RgkTransition : Type 0 where
  pub chain : KaspaChainId
  pub schema_id : Bytes32
  pub asset_id : Bytes32
  pub total_supply : ℕ
  pub metadata_commitment : Bytes32
  pub previous_owner_commitment : Bytes32
  pub new_owner_commitment : Bytes32
  pub ownership_authorization_commitment : Bytes32
  pub previous_state_digest : Bytes32
  pub spent_allocations : List RgkAllocation
  pub new_allocations : List RgkAllocation
  pub burn : Option RgkBurnProof
  pub witness_txid : Bytes32
  pub lane_id : Bytes32
  pub privacy_policy : LanePrivacyPolicy
  pub proof_policy : RgkProofPolicy

pub record RgkContinuationAllocationShape : Type 0 where
  pub output_index : ℕ
  pub covenant_id : Bytes32
  pub amount : ℕ
  pub encrypted_note_commitment : Bytes32

pub record RgkContinuationPlan : Type 0 where
  pub chain : KaspaChainId
  pub schema_id : Bytes32
  pub asset_id : Bytes32
  pub total_supply : ℕ
  pub metadata_commitment : Bytes32
  pub previous_owner_commitment : Bytes32
  pub new_owner_commitment : Bytes32
  pub ownership_authorization_commitment : Bytes32
  pub previous_state_digest : Bytes32
  pub spent_allocations : List RgkAllocation
  pub new_allocation_shapes : List RgkContinuationAllocationShape
  pub burn : Option RgkBurnProof
  pub lane_id : Bytes32
  pub privacy_policy : LanePrivacyPolicy
  pub proof_policy : RgkProofPolicy

pub record RgkIssueReport : Type 0 where
  pub chain : KaspaChainId
  pub schema_id : Bytes32
  pub asset_id : Bytes32
  pub total_supply : ℕ
  pub metadata_commitment : Bytes32
  pub owner_commitment : Bytes32
  pub allocation_count : ℕ
  pub lane_id : Bytes32
  pub privacy_policy : LanePrivacyPolicy
  pub policy_commitment : Bytes32
  pub state_digest : Bytes32

pub record RgkTransitionReport : Type 0 where
  pub chain : KaspaChainId
  pub schema_id : Bytes32
  pub asset_id : Bytes32
  pub total_supply : ℕ
  pub metadata_commitment : Bytes32
  pub previous_owner_commitment : Bytes32
  pub new_owner_commitment : Bytes32
  pub ownership_authorization_commitment : Bytes32
  pub spent_supply : ℕ
  pub new_supply : ℕ
  pub burned_supply : ℕ
  pub burn_authorization_commitment : Bytes32
  pub spent_allocation_count : ℕ
  pub new_allocation_count : ℕ
  pub lane_id : Bytes32
  pub privacy_policy : LanePrivacyPolicy
  pub policy_commitment : Bytes32
  pub previous_state_digest : Bytes32
  pub new_state_digest : Bytes32
  pub transition_digest : Bytes32

pub record RgkContinuationReport : Type 0 where
  pub chain : KaspaChainId
  pub schema_id : Bytes32
  pub asset_id : Bytes32
  pub total_supply : ℕ
  pub metadata_commitment : Bytes32
  pub previous_owner_commitment : Bytes32
  pub new_owner_commitment : Bytes32
  pub ownership_authorization_commitment : Bytes32
  pub spent_supply : ℕ
  pub new_supply : ℕ
  pub burned_supply : ℕ
  pub burn_authorization_commitment : Bytes32
  pub spent_allocation_count : ℕ
  pub new_allocation_count : ℕ
  pub lane_id : Bytes32
  pub privacy_policy : LanePrivacyPolicy
  pub policy_commitment : Bytes32
  pub previous_state_digest : Bytes32
  pub shape_root : Bytes32
  pub commitment : Bytes32

pub record RgkFinalizedContinuation : Type 0 where
  pub commitment : Bytes32
  pub transition : RgkTransition
  pub transition_report : RgkTransitionReport
