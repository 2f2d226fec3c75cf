-- ===== src/Tests/Rebuild.antt =====
-- The theorems on rebuilding at a plan of one spend, replayed into an empty indexer.
use rgk.Prelude.{◌+◌, ◌≡◌, refl, true, false, some, [], ◌∷◌, ok, length, All, bytes_ord}
unfoldable use rgk.Prelude.Equality.{contains, Bool-discrete, List-discrete, Option-discrete}
unfoldable use rgk.Prelude.Maps.{get, insert, contains_key}
unfoldable use rgk.Prelude.{ℕ_discrete, dec_le}
unfoldable use rgk.Core.Chain.{KaspaChainId-discrete}
unfoldable use rgk.Core.Types.{
  KaspaOutpoint-discrete, Bytes32-discrete, RgkStateCommitment-discrete,
}
unfoldable use rgk.Core.Policy.{ReceiptPolicy-discrete}
unfoldable use native.Mathlib.Bridge.{IsLe}
use rgk.Core.Chain.{kaspa_testnet}
use rgk.Indexer.Records.{opened}
use rgk.Indexer.Entry.{
  spend_entry, advance_entry, apply_spend_to_entry, check_continuation, check_migration,
  validate_continuation_proof, validate_policy_migration_proof,
}
use rgk.Indexer.Memory.{
  InMemoryIndexer, new_indexer, has_replay, lookup, open_covenant, apply_spend, on_entry,
}
use rgk.Indexer.Memory.Reach.{Reach, start}
use rgk.Indexer.Rebuild.{
  RebuildCheckpoint, RebuildSpend, RebuildPlan, RebuildSource, RebuildSummary, replayed,
  rebuild_from, check_descent, check_evidence, check_history, check_plan, enter_checkpoint,
  replay_spends, summarize, validate_existing_checkpoint, validate_rebuild_checkpoint_shape,
  validate_rebuild_spend_shape,
}
use rgk.Indexer.Rebuild.Evidence.{IsShown, rebuild_from_evidence}
use rgk.Indexer.Rebuild.Reached.{rebuild_from-Reach}
use rgk.Indexer.Rebuild.Again.{rebuild_from_again}
use rgk.Tests.{toy_sha, fill, state_at}
use rgk.Tests.Indexer.{output, entry0}

abbrev checkpoint0 : RebuildCheckpoint
checkpoint0 = record {
  chain_id = kaspa_testnet;
  covenant_id = fill 1;
  lineage_id = fill 8;
  initial_state = state_at (fill 3);
  open_outpoint = output 10;
  daa_score = 100;
}

abbrev planned : RebuildSpend
planned = record {
  receipt_id = fill 20;
  spent_outpoint = output 10;
  created_outpoint = output 11;
  new_state = state_at (fill 4);
  expected_spending_txid = fill 40;
  min_confirmations = 3;
}

abbrev plan0 : RebuildPlan
plan0 = record { checkpoint = checkpoint0; spends = planned ∷ [] }

-- Every outpoint was spent by the same transaction, five blocks deep.
abbrev source0 : RebuildSource
source0 = record {
  chain_id = ok kaspa_testnet;
  spend_evidence = λ o. ok (
      some (record {
        spending_txid = fill 40;
        block_daa_score = some 105;
        confirmation_depth = some 5;
      }));
}

abbrev rebuilt : InMemoryIndexer
rebuilt = record new_indexer { map = (fill 1, advance_entry entry0 (replayed planned 105)) ∷ [] }

abbrev summary0 : RebuildSummary
summary0 = record {
  opened = true;
  applied_spends = 1;
  skipped_replays = 0;
  final_open_outpoint = output 11;
  final_daa_score = 105;
}

is_rebuilt : rebuild_from toy_sha source0 plan0 new_indexer ≡ (rebuilt, ok summary0)
unfolding rebuild_from KaspaChainId-discrete List-discrete ℕ_discrete lookup get open_covenant
    Bool-discrete contains_key ReceiptPolicy-discrete dec_le has_replay insert contains apply_spend
    apply_spend_to_entry check_continuation Option-discrete IsLe Bytes32-discrete
    KaspaOutpoint-discrete RgkStateCommitment-discrete advance_entry check_migration spend_entry
    validate_continuation_proof validate_policy_migration_proof on_entry check_descent
    check_evidence check_history check_plan enter_checkpoint replay_spends summarize
    validate_existing_checkpoint validate_rebuild_checkpoint_shape validate_rebuild_spend_shape
    opened
is_rebuilt = refl

rebuild_from_evidence_example :
    (source0.chain_id ≡ ok plan0.checkpoint.chain_id)
    × All (IsShown source0) plan0.spends
    × All
        (λ spend. has_replay plan0.checkpoint.covenant_id spend.receipt_id rebuilt ≡ true)
        plan0.spends
    × (summary0.applied_spends + summary0.skipped_replays ≡ length plan0.spends)
rebuild_from_evidence_example =
    rebuild_from_evidence toy_sha source0 plan0 new_indexer rebuilt summary0 is_rebuilt

rebuild_from-Reach_example : Reach toy_sha (rebuild_from toy_sha source0 plan0 new_indexer).0
rebuild_from-Reach_example = rebuild_from-Reach toy_sha source0 plan0 new_indexer start

rebuild_from_again_example : rebuild_from toy_sha source0 plan0 rebuilt ≡ (
  rebuilt,
  ok (record summary0 {
    opened = false;
    applied_spends = 0;
    skipped_replays = length plan0.spends;
  }),
)
rebuild_from_again_example =
    rebuild_from_again toy_sha source0 plan0 new_indexer rebuilt summary0 start is_rebuilt
