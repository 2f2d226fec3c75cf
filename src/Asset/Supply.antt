-- ===== src/Asset/Supply.antt =====
-- The checks on sets of allocations, on continuation shapes and on supplies of
-- crates/rgk-asset/src/native.rs. A `BTreeSet` that is only asked for membership is the list of what was
-- put in; `u64::checked_add` is its bound.
pub mod Sets
pub mod Delta
pub mod Shapes
pub mod Owners
use rgk.Prelude.{
  ℕ, zero, suc, ◌+◌, ◌-◌, ◌*◌, ◌^◌, ◌≤◌, ◌<◌, ◌≡◌, Bool, true, false, Option, none, some, List, [],
  ◌∷◌, length, Result, ok, err, ensure, reject, ◌≟◌, nat_eq, list_eq, contains, dec_lt, dec_le,
  PartialEq, ok_or, bool_eq,
}
use mathlib.Core.Logic.{ite}
use rgk.Prelude.Results.{◌>>◌, ◌>>=◌}
use rgk.Core.Bytes.{Bytes32}
use rgk.Core.Chain.{KaspaChainId, chain_eq}
use rgk.Core.Types.{KaspaOutpoint, null_outpoint, outpoint_eq}
use rgk.Asset.Errors.{
  RgkAssetError, zero_schema_id, zero_asset_id, zero_total_supply, zero_lane_id,
  zero_ownership_authorization, empty_allocations, zero_allocation_amount, chain_mismatch,
  null_covenant_outpoint, zero_covenant_id, zero_witness_txid, zero_encrypted_note,
  unconfirmed_anchor, duplicate_anchor_outpoint, supply_overflow, supply_mismatch, supply_inflation,
  supply_deflation_without_burn, zero_burn_amount, zero_burn_authorization, burn_amount_mismatch,
  empty_continuation_shape, zero_continuation_amount, zero_continuation_covenant_id,
  zero_continuation_encrypted_note, duplicate_continuation_output, zero_metadata_commitment,
  zero_owner_commitment, production_zk_allocation_bound_exceeded,
}
use rgk.Asset.Policies.{RgkProofPolicy, is_zero32, reject_zero, validate_policy}
use rgk.Asset.Records.{RgkAllocation, RgkBurnProof, RgkContinuationAllocationShape}
use rgk.Prelude.{String}

-- `u64::checked_add`
unfoldable pub checked_add_u64 : ℕ → ℕ → Option ℕ
checked_add_u64 a b = ite (dec_lt (a + b) (2 ^ 64)) (some (a + b)) none

unfoldable pub validate_common :
    Bytes32 → Bytes32 → ℕ → Bytes32 → RgkProofPolicy → Result RgkAssetError (Unit {0})
validate_common schema_id asset_id total_supply lane_id proof_policy = do
  reject (is_zero32 schema_id ≟ true) zero_schema_id
  reject (is_zero32 asset_id ≟ true) zero_asset_id
  reject (total_supply ≟ 0) zero_total_supply
  reject (is_zero32 lane_id ≟ true) zero_lane_id
  validate_policy proof_policy

unfoldable pub validate_metadata_commitment : Bytes32 → Result RgkAssetError (Unit {0})
validate_metadata_commitment metadata = reject_zero metadata zero_metadata_commitment

unfoldable pub validate_owner_commitment : Bytes32 → String → Result RgkAssetError (Unit {0})
validate_owner_commitment owner role = reject_zero owner (zero_owner_commitment role)

unfoldable pub validate_ownership_handoff :
    Bytes32 → Bytes32 → Bytes32 → Result RgkAssetError (Unit {0})
validate_ownership_handoff previous_owner new_owner authorization =
    elim (previous_owner ≟ new_owner) [
      | yes _ ↦ ok tt
      | no _ ↦ reject (is_zero32 authorization ≟ true) zero_ownership_authorization
    ]

-- The `for` of `validate_allocation_set_structure_allow_empty`.
unfoldable pub check_allocations :
    KaspaChainId → ℕ → List KaspaOutpoint → ℕ → List RgkAllocation → Result RgkAssetError ℕ
check_allocations chain index seen total [] = ok total
check_allocations chain index seen total (allocation ∷ allocations) = do
  reject (allocation.amount ≟ 0) (zero_allocation_amount index)
  ensure (allocation.anchor.chain ≟ chain) (chain_mismatch index chain allocation.anchor.chain)
  reject (allocation.anchor.covenant_outpoint ≟ null_outpoint) (null_covenant_outpoint index)
  reject (is_zero32 allocation.anchor.covenant_id ≟ true) (zero_covenant_id index)
  reject (is_zero32 allocation.anchor.witness_txid ≟ true) (zero_witness_txid index)
  reject (is_zero32 allocation.encrypted_note_commitment ≟ true) (zero_encrypted_note index)
  reject (allocation.anchor.confirmation_depth ≟ 0) (unconfirmed_anchor index)
  reject (contains seen allocation.anchor.covenant_outpoint ≟ true)
      (duplicate_anchor_outpoint index)
  sum ← ok_or (checked_add_u64 total allocation.amount) supply_overflow
  check_allocations chain (index + 1) (allocation.anchor.covenant_outpoint ∷ seen) sum allocations

unfoldable pub validate_allocation_set_structure_allow_empty :
    KaspaChainId → List RgkAllocation → Result RgkAssetError ℕ
unfolding check_allocations
validate_allocation_set_structure_allow_empty chain allocations =
    check_allocations chain 0 [] 0 allocations

unfoldable pub validate_allocation_set_structure :
    KaspaChainId → List RgkAllocation → Result RgkAssetError ℕ
validate_allocation_set_structure chain [] = err empty_allocations
validate_allocation_set_structure chain (a ∷ allocations) =
    validate_allocation_set_structure_allow_empty chain (a ∷ allocations)

unfoldable pub validate_allocation_set_exact :
    KaspaChainId → ℕ → List RgkAllocation → Result RgkAssetError (Unit {0})
validate_allocation_set_exact chain total_supply allocations = do
  total ← validate_allocation_set_structure chain allocations
  ensure (total ≟ total_supply) (supply_mismatch total_supply total)

-- The `for` of `validate_continuation_shapes_structure`.
unfoldable pub check_shapes :
    ℕ → List ℕ → ℕ → List RgkContinuationAllocationShape → Result RgkAssetError ℕ
check_shapes index seen total [] = ok total
check_shapes index seen total (shape ∷ shapes) = do
  reject (shape.amount ≟ 0) (zero_continuation_amount index)
  reject (is_zero32 shape.covenant_id ≟ true) (zero_continuation_covenant_id index)
  reject (is_zero32 shape.encrypted_note_commitment ≟ true) (zero_continuation_encrypted_note index)
  reject (contains seen shape.output_index ≟ true) (duplicate_continuation_output index)
  sum ← ok_or (checked_add_u64 total shape.amount) supply_overflow
  check_shapes (index + 1) (shape.output_index ∷ seen) sum shapes

unfoldable pub validate_continuation_shapes_structure :
    List RgkContinuationAllocationShape → Result RgkAssetError ℕ
validate_continuation_shapes_structure [] = err empty_continuation_shape
validate_continuation_shapes_structure (shape ∷ shapes) = check_shapes 0 [] 0 (shape ∷ shapes)

unfoldable pub validate_continuation_shapes_structure_allow_empty :
    List RgkContinuationAllocationShape → Option RgkBurnProof → Result RgkAssetError ℕ
validate_continuation_shapes_structure_allow_empty [] (some proof) = ok 0
validate_continuation_shapes_structure_allow_empty [] none = err empty_continuation_shape
validate_continuation_shapes_structure_allow_empty (shape ∷ shapes) burn =
    validate_continuation_shapes_structure (shape ∷ shapes)

-- The `match` on the burned supply and the proof.
unfoldable pub judge_burn : ℕ → ℕ → ℕ → Option RgkBurnProof → Result RgkAssetError ℕ
judge_burn spent_supply new_supply zero none = ok 0
judge_burn spent_supply new_supply zero (some proof) = do
  reject (proof.amount ≟ 0) zero_burn_amount
  err (burn_amount_mismatch 0 proof.amount)
judge_burn spent_supply new_supply (suc _) none =
    err (supply_deflation_without_burn spent_supply new_supply)
judge_burn spent_supply new_supply (suc less) (some proof) = do
  reject (proof.amount ≟ 0) zero_burn_amount
  reject (is_zero32 proof.authorization_commitment ≟ true) zero_burn_authorization
  ensure (proof.amount ≟ suc less) (burn_amount_mismatch (suc less) proof.amount)
  ok (suc less)

unfoldable pub validate_supply_delta : ℕ → ℕ → Option RgkBurnProof → Result RgkAssetError ℕ
unfolding judge_burn
validate_supply_delta spent_supply new_supply burn = do
  ensure (dec_le new_supply spent_supply) (supply_inflation spent_supply new_supply)
  judge_burn spent_supply new_supply (spent_supply - new_supply) burn
