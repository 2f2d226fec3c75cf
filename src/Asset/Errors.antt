-- ===== src/Asset/Errors.antt =====
-- `RgkAssetError` of crates/rgk-asset/src/native.rs. A role, a kind, a field or a reason is its text.
use rgk.Prelude.{ℕ, String}
use rgk.Core.Bytes.{Bytes32}
use rgk.Core.Chain.{KaspaChainId}

pub data RgkAssetError : Type 0 where
  zero_schema_id zero_asset_id zero_total_supply : RgkAssetError
  zero_commitment : (name : String) → RgkAssetError
  zero_metadata_commitment : RgkAssetError
  zero_owner_commitment : (role : String) → RgkAssetError
  zero_owner_descriptor : (kind : String) → RgkAssetError
  zero_nft_collection_id zero_nft_token_id zero_nft_template_commitment : RgkAssetError
  zero_nft_policy_commitment zero_nft_marketplace_payment_asset : RgkAssetError
  zero_nft_marketplace_price : RgkAssetError
  nft_marketplace_royalty_exceeds_price : (royalty price : ℕ) → RgkAssetError
  nft_marketplace_collection_mismatch nft_marketplace_token_mismatch : RgkAssetError
  nft_marketplace_royalty_policy_mismatch nft_marketplace_self_sale : RgkAssetError
  nft_marketplace_authorization_mismatch : RgkAssetError
  nft_token_index_out_of_range : (token_index max_supply : ℕ) → RgkAssetError
  nft_chain_mismatch : (expected actual : KaspaChainId) → RgkAssetError
  nft_schema_mismatch nft_asset_mismatch : RgkAssetError
  nft_supply_mismatch : (expected actual : ℕ) → RgkAssetError
  nft_allocation_shape_mismatch : (role : String) (count : ℕ) → RgkAssetError
  nft_allocation_amount_mismatch : (role : String) (expected actual : ℕ) → RgkAssetError
  nft_metadata_mismatch : RgkAssetError
  nft_owner_mismatch : (role : String) → RgkAssetError
  nft_unexpected_burn zero_ownership_authorization empty_allocations : RgkAssetError
  zero_allocation_amount : (index : ℕ) → RgkAssetError
  chain_mismatch : (index : ℕ) (expected actual : KaspaChainId) → RgkAssetError
  null_covenant_outpoint zero_covenant_id zero_witness_txid : (index : ℕ) → RgkAssetError
  zero_encrypted_note unconfirmed_anchor : (index : ℕ) → RgkAssetError
  duplicate_anchor_outpoint : (index : ℕ) → RgkAssetError
  supply_overflow : RgkAssetError
  supply_mismatch : (expected actual : ℕ) → RgkAssetError
  supply_inflation supply_deflation_without_burn : (spent new : ℕ) → RgkAssetError
  zero_burn_amount zero_burn_authorization : RgkAssetError
  burn_amount_mismatch : (expected actual : ℕ) → RgkAssetError
  digest_mismatch : (expected actual : Bytes32) → RgkAssetError
  zero_previous_state_digest zero_transition_witness_txid no_op_transition : RgkAssetError
  reused_spent_anchor : (index : ℕ) → RgkAssetError
  previous_state_digest_mismatch : (expected actual : Bytes32) → RgkAssetError
  transition_digest_mismatch : (expected actual : Bytes32) → RgkAssetError
  zero_lane_id zero_verifier_key unconstrained_image_id : RgkAssetError
  empty_continuation_shape : RgkAssetError
  zero_continuation_amount zero_continuation_covenant_id : (index : ℕ) → RgkAssetError
  zero_continuation_encrypted_note : (index : ℕ) → RgkAssetError
  duplicate_continuation_output : (index : ℕ) → RgkAssetError
  continuation_commitment_mismatch : (expected actual : Bytes32) → RgkAssetError
  unsupported_production_zk_allocation_shape : (spent_count new_count : ℕ) → RgkAssetError
  production_zk_allocation_bound_exceeded : (role : String) (count max : ℕ) → RgkAssetError
  segmented_allocation_audit_requires_conservation : (burned_supply : ℕ) → RgkAssetError
  segmented_allocation_audit_empty_side : (role : String) → RgkAssetError
  segmented_allocation_audit_invalid_segment_capacity : (segment_capacity : ℕ) → RgkAssetError
  segmented_allocation_audit_grid_too_large : RgkAssetError
  production_allocation_strategy_record_decode : (reason : String) → RgkAssetError
  production_allocation_strategy_record_encode : (reason : String) → RgkAssetError
  production_allocation_strategy_record_mismatch : (field : String) → RgkAssetError
