-- ===== src/Tests/Asset/Plans.antt =====
-- The theorems on production plans at the sample asset.
use rgk.Prelude.{ℕ, ◌<◌, ◌≤◌, ◌≡◌, ◌↔◌, refl, ok, length, ◌>>=◌, >>=-eq-ok}
use rgk.Core.Encoding.{usize_mod}
use rgk.Asset.Records.{RgkContinuationReport, RgkFinalizedContinuation}
use rgk.Asset.Shapes.{one_in_one_out, require_counts, from_counts}
use rgk.Asset.Continuations.{
  plan_structure, finalize, validate_plan_for_production_zk, validate_plan,
}
use rgk.Asset.Continuations.Valid.{IsPlan, plan_report_of}
use rgk.Asset.Strategies.{
  RgkProductionZkTransferPlan, RgkProductionAllocationStrategyPlan, fixed_allocation_vector,
  segmented_allocation_audit, segmented_audit_for_report, for_continuation_report,
  production_allocation_strategy_commitment, new_transfer_plan, finalize_transfer,
  new_strategy_plan, finalize_strategy,
}
use rgk.Asset.Supply.Delta.{burned}
use rgk.Asset.Strategies.Choice.{Serves, choose_strategy_iff}
use rgk.Asset.Strategies.Audit.{segmented_audit_iff}
use rgk.Asset.Strategies.Plans.{strategy_plan-Serves, transfer_plan_finalizes}
use rgk.Tests.{fill}
use rgk.Tests.Asset.{sum_sha, sample_move, move_runs}

abbrev move_report : RgkContinuationReport
move_report = plan_report_of sum_sha sample_move

abbrev wide_report : RgkContinuationReport
wide_report = record move_report { spent_allocation_count = 5; new_allocation_count = 3 }

abbrev two : ℕ
two = 2

segmented_audit_iff_example :
    ((segmented_audit_for_report wide_report 2 ≡ ok (segmented_allocation_audit 2 3 2 6 17)) ↔ (
      ¬ (two ≡ 0)
      × ((wide_report.burned_supply ≡ 0)
          × (¬ (wide_report.spent_allocation_count ≡ 0)
              × (¬ (wide_report.new_allocation_count ≡ 0)
                  × ((17 < usize_mod)
                      × (segmented_allocation_audit 2 3 2 6 17
                          ≡ segmented_allocation_audit 2 3 2 6 17)))))))
    × (¬ (two ≡ 0) → (5 ≤ 6) × (6 < 7) × (3 ≤ 4) × (4 < 5))
segmented_audit_iff_example =
    segmented_audit_iff wide_report two (segmented_allocation_audit 2 3 2 6 17)

abbrev strategy_plan : RgkProductionAllocationStrategyPlan
strategy_plan = record {
  continuation_plan = sample_move;
  continuation_report = move_report;
  strategy = fixed_allocation_vector one_in_one_out;
  strategy_commitment =
      production_allocation_strategy_commitment sum_sha move_report
        (fixed_allocation_vector one_in_one_out);
}

strategy_plan_made : new_strategy_plan sum_sha sample_move ≡ ok strategy_plan
unfolding new_strategy_plan for_continuation_report from_counts
strategy_plan_made = rw move_runs refl

choose_strategy_iff_example : (new_strategy_plan sum_sha sample_move ≡ ok strategy_plan) ↔ (
    IsPlan sum_sha sample_move
    × (Serves 1 1 0 strategy_plan.strategy
        × (strategy_plan ≡ record {
          continuation_plan = sample_move;
          continuation_report = plan_report_of sum_sha sample_move;
          strategy = strategy_plan.strategy;
          strategy_commitment =
              production_allocation_strategy_commitment sum_sha
                (plan_report_of sum_sha sample_move)
                strategy_plan.strategy;
        })))
choose_strategy_iff_example = choose_strategy_iff sum_sha sample_move strategy_plan

strategy_plan-Serves_example :
    (finalize_strategy sum_sha strategy_plan (fill 12) 950 3 ≡ (
      finalize sum_sha sample_move (fill 12) 950 3 >>= λ f. ok (record {
        finalized_continuation = f;
        strategy = strategy_plan.strategy;
        strategy_commitment = strategy_plan.strategy_commitment;
      })))
    × ((f : RgkFinalizedContinuation)
        → finalize sum_sha sample_move (fill 12) 950 3 ≡ ok f
        → Serves
            (length f.transition.spent_allocations)
            (length f.transition.new_allocations)
            (burned f.transition.burn)
            strategy_plan.strategy)
strategy_plan-Serves_example =
    strategy_plan-Serves sum_sha sample_move (fill 12) 950 3 strategy_plan strategy_plan_made

abbrev transfer_plan : RgkProductionZkTransferPlan
transfer_plan = record {
  continuation_plan = sample_move;
  continuation_report = move_report;
  allocation_shape = one_in_one_out;
}

transfer_plan_made : new_transfer_plan sum_sha sample_move ≡ ok transfer_plan
unfolding new_transfer_plan validate_plan_for_production_zk validate_plan require_counts from_counts
transfer_plan_made =
    let (_, checks, report) = >>=-eq-ok (plan_structure sum_sha sample_move) _ move_runs in
    rw (checks) (rw (report) refl)

transfer_plan_finalizes_example : finalize_transfer sum_sha transfer_plan (fill 12) 950 3 ≡ (
    finalize sum_sha sample_move (fill 12) 950 3 >>= λ f.
    ok (record { finalized_continuation = f; allocation_shape = transfer_plan.allocation_shape }))
transfer_plan_finalizes_example =
    transfer_plan_finalizes sum_sha sample_move (fill 12) 950 3 transfer_plan transfer_plan_made
