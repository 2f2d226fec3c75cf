-- ===== src/Asset/Strategies.antt =====
-- The production plans of crates/rgk-asset/src/native.rs: a plan for one of the fixed proof shapes, and the
-- choice between a fixed shape and a segmented audit.
pub mod Audit
pub mod Choice
pub mod Plans
use rgk.Prelude.{
  ℕ, ◌+◌, ◌-◌, ◌*◌, ◌/◌, ◌<◌, Bool, true, false, Option, none, some, String, List, [], ◌∷◌, ◌++◌,
  codes, Result, ok, err, ok_or, ensure, reject, ◌≟◌, nat_eq, dec_lt, PartialEq, ℕ_discrete,
}
use mathlib.Core.Logic.{ite}
use rgk.Prelude.Results.{◌>>◌, ◌>>=◌}
use rgk.Core.Bytes.{Bytes32}
use rgk.Core.Chain.{chain_as_u8}
use rgk.Core.Encoding.{to_le, usize_mod, checked_add}
use rgk.Core.Commit.{domain_hash_str}
use rgk.Asset.Errors.{
  RgkAssetError, segmented_allocation_audit_invalid_segment_capacity,
  segmented_allocation_audit_requires_conservation, segmented_allocation_audit_empty_side,
  segmented_allocation_audit_grid_too_large, unsupported_production_zk_allocation_shape,
}
use rgk.Asset.Records.{RgkContinuationPlan, RgkContinuationReport, RgkFinalizedContinuation}
use rgk.Asset.Shapes.{
  RgkAllocationProofShape, RgkAllocationProofShape-discrete, spent_count, new_count, from_counts,
  require_counts, audit_segment_capacity,
}
use rgk.Asset.Continuations.{
  validate_plan, validate_plan_for_production_zk, finalize, finalize_for_production_zk,
}

pub data RgkProductionAllocationStrategy : Type 0 where
  fixed_allocation_vector : RgkAllocationProofShape → RgkProductionAllocationStrategy
  segmented_allocation_audit :
      (segment_capacity spent_segments new_segments exclusion_pairs groth16_entries : ℕ)
      → RgkProductionAllocationStrategy

unfoldable pub strategy-discrete : Discrete RgkProductionAllocationStrategy
strategy-discrete = hlevel (RgkAllocationProofShape-discrete, ℕ_discrete)

instance abbrev pub strategy_eq : PartialEq RgkProductionAllocationStrategy
strategy_eq = record { dec_eq = strategy-discrete }

pub record RgkProductionZkTransferPlan : Type 0 where
  pub continuation_plan : RgkContinuationPlan
  pub continuation_report : RgkContinuationReport
  pub allocation_shape : RgkAllocationProofShape

pub record RgkFinalizedProductionZkTransfer : Type 0 where
  pub finalized_continuation : RgkFinalizedContinuation
  pub allocation_shape : RgkAllocationProofShape

pub record RgkProductionAllocationStrategyPlan : Type 0 where
  pub continuation_plan : RgkContinuationPlan
  pub continuation_report : RgkContinuationReport
  pub strategy : RgkProductionAllocationStrategy
  pub strategy_commitment : Bytes32

pub record RgkFinalizedProductionAllocationStrategyTransfer : Type 0 where
  pub finalized_continuation : RgkFinalizedContinuation
  pub strategy : RgkProductionAllocationStrategy
  pub strategy_commitment : Bytes32

-- `usize::div_ceil`, for a divisor that is not zero.
abbrev pub div_ceil : ℕ → ℕ → ℕ
div_ceil a b = (a + (b - 1)) / b

-- `usize::checked_mul`
unfoldable pub checked_mul : ℕ → ℕ → Option ℕ
checked_mul a b = ite (dec_lt (a * b) usize_mod) (some (a * b)) none

-- The three counts of `segmented_audit_for_report`, each checked.
unfoldable pub audit_grid : ℕ → ℕ → ℕ → Result RgkAssetError RgkProductionAllocationStrategy
audit_grid segment_capacity spent_segments new_segments = do
  exclusion_pairs ←
      ok_or (checked_mul spent_segments new_segments) segmented_allocation_audit_grid_too_large
  segments ←
      ok_or (checked_add spent_segments new_segments) segmented_allocation_audit_grid_too_large
  transcript_and_conservation_entries ←
      ok_or (checked_mul segments 2) segmented_allocation_audit_grid_too_large
  entries ←
      ok_or (checked_add transcript_and_conservation_entries 1)
        segmented_allocation_audit_grid_too_large
  groth16_entries ←
      ok_or (checked_add entries exclusion_pairs) segmented_allocation_audit_grid_too_large
  ok (
      segmented_allocation_audit segment_capacity spent_segments new_segments exclusion_pairs
        groth16_entries)

unfoldable pub segmented_audit_for_report :
    RgkContinuationReport → ℕ → Result RgkAssetError RgkProductionAllocationStrategy
unfolding audit_grid
segmented_audit_for_report report segment_capacity = do
  reject (segment_capacity ≟ 0)
      (segmented_allocation_audit_invalid_segment_capacity segment_capacity)
  ensure (report.burned_supply ≟ 0)
      (segmented_allocation_audit_requires_conservation report.burned_supply)
  reject (report.spent_allocation_count ≟ 0) (segmented_allocation_audit_empty_side "spent")
  reject (report.new_allocation_count ≟ 0) (segmented_allocation_audit_empty_side "new")
  audit_grid segment_capacity (div_ceil report.spent_allocation_count segment_capacity)
      (div_ceil report.new_allocation_count segment_capacity)

unfoldable pub for_continuation_report :
    RgkContinuationReport → Result RgkAssetError RgkProductionAllocationStrategy
for_continuation_report report =
    elim (from_counts report.spent_allocation_count report.new_allocation_count) [
      | some shape ↦ ok (fixed_allocation_vector shape)
      | none ↦ segmented_audit_for_report report audit_segment_capacity
    ]

unfoldable pub strategy_label : RgkProductionAllocationStrategy → String
strategy_label (fixed_allocation_vector _) = "fixed-allocation-vector"
strategy_label (segmented_allocation_audit _ _ _ _ _) = "segmented-allocation-audit"

unfoldable pub requires_allocation_audit_certificate : RgkProductionAllocationStrategy → Bool
requires_allocation_audit_certificate (fixed_allocation_vector _) = false
requires_allocation_audit_certificate (segmented_allocation_audit _ _ _ _ _) = true

unfoldable pub fixed_shape : RgkProductionAllocationStrategy → Option RgkAllocationProofShape
fixed_shape (fixed_allocation_vector shape) = some shape
fixed_shape (segmented_allocation_audit _ _ _ _ _) = none

unfoldable pub groth16_proof_entries : RgkProductionAllocationStrategy → ℕ
groth16_proof_entries (fixed_allocation_vector _) = 1
groth16_proof_entries (segmented_allocation_audit _ _ _ _ entries) = entries

unfoldable pub strategy_bytes : RgkProductionAllocationStrategy → List ℕ
strategy_bytes (fixed_allocation_vector shape) =
    0 ∷ (to_le 8 (spent_count shape) ++ to_le 8 (new_count shape))
strategy_bytes (segmented_allocation_audit capacity spent new pairs entries) =
    1 ∷ (to_le 8 capacity ++ (to_le 8 spent ++ (to_le 8 new ++ (to_le 8 pairs ++ to_le 8 entries))))

unfoldable pub strategy_payload : RgkContinuationReport → RgkProductionAllocationStrategy → List ℕ
unfolding strategy_bytes
strategy_payload r strategy =
    chain_as_u8 r.chain
    ∷ (r.schema_id
        ++ (r.asset_id
            ++ (to_le 8 r.total_supply
                ++ (r.previous_state_digest
                    ++ (r.shape_root
                        ++ (r.commitment
                            ++ (to_le 8 r.spent_supply
                                ++ (to_le 8 r.new_supply
                                    ++ (to_le 8 r.burned_supply
                                        ++ (to_le 8 r.spent_allocation_count
                                            ++ (to_le 8 r.new_allocation_count
                                                ++ strategy_bytes strategy)))))))))))

abbrev pub strategy_domain : List ℕ
strategy_domain = codes "rgk:asset:production-allocation-strategy:v1"

module _ (sha256 : List ℕ → Bytes32) where
  unfoldable pub production_allocation_strategy_commitment :
      RgkContinuationReport → RgkProductionAllocationStrategy → Bytes32
  unfolding strategy_payload
  production_allocation_strategy_commitment report strategy =
      domain_hash_str sha256 strategy_domain (strategy_payload report strategy)

  -- `RgkProductionZkTransferPlan::new`
  unfoldable pub new_transfer_plan :
      RgkContinuationPlan → Result RgkAssetError RgkProductionZkTransferPlan
  new_transfer_plan plan = do
    report ← validate_plan_for_production_zk sha256 plan
    shape ← require_counts report.spent_allocation_count report.new_allocation_count
    ok (record { continuation_plan = plan; continuation_report = report; allocation_shape = shape })

  -- `RgkProductionZkTransferPlan::finalize`
  unfoldable pub finalize_transfer :
      RgkProductionZkTransferPlan
      → Bytes32
      → ℕ
      → ℕ
      → Result RgkAssetError RgkFinalizedProductionZkTransfer
  finalize_transfer plan witness_txid daa_score confirmation_depth = do
    finalized ←
        finalize_for_production_zk sha256 plan.continuation_plan witness_txid daa_score
          confirmation_depth
    shape ←
        require_counts finalized.transition_report.spent_allocation_count
          finalized.transition_report.new_allocation_count
    ok (record { finalized_continuation = finalized; allocation_shape = shape })

  -- `RgkProductionAllocationStrategyPlan::new`
  unfoldable pub new_strategy_plan :
      RgkContinuationPlan → Result RgkAssetError RgkProductionAllocationStrategyPlan
  new_strategy_plan plan = do
    report ← validate_plan sha256 plan
    strategy ← for_continuation_report report
    ok (record {
      continuation_plan = plan;
      continuation_report = report;
      strategy = strategy;
      strategy_commitment = production_allocation_strategy_commitment report strategy;
    })

  -- `RgkProductionAllocationStrategyPlan::finalize`
  unfoldable pub finalize_strategy :
      RgkProductionAllocationStrategyPlan
      → Bytes32
      → ℕ
      → ℕ
      → Result RgkAssetError RgkFinalizedProductionAllocationStrategyTransfer
  finalize_strategy plan witness_txid daa_score confirmation_depth = do
    finalized ← finalize sha256 plan.continuation_plan witness_txid daa_score confirmation_depth
    finalized_strategy ← for_continuation_report plan.continuation_report
    ensure (finalized_strategy ≟ plan.strategy) (
        unsupported_production_zk_allocation_shape
          finalized.transition_report.spent_allocation_count
          finalized.transition_report.new_allocation_count)
    ok (record {
      finalized_continuation = finalized;
      strategy = plan.strategy;
      strategy_commitment = plan.strategy_commitment;
    })
