-- ===== src/Indexer/Rebuild.antt =====
-- `rebuild_from` of crates/rgk-indexer/src/lib.rs, for the in-memory indexer: a checkpoint and the spends
-- expected after it are replayed against the evidence of a source. The loop writes as it goes, so the
-- result is the indexer it leaves, also where it ends in an error, with the summary or the error. The source
-- is a parameter: its two answers.
pub mod Steps
pub mod Evidence
pub mod Reached
pub mod Attached
pub mod Again
use rgk.Prelude.{
  ℕ, ◌+◌, ◌≤◌, ◌≡◌, Bool, true, false, Option, none, some, List, [], ◌∷◌, Result, ok, err, ensure,
  reject, ok_or, ◌≟◌, list_eq, nat_eq, option_eq, bool_eq, dec_le, first,
}
use rgk.Prelude.Results.{◌>>◌, ◌>>=◌}
use rgk.Core.Bytes.{Bytes32}
use rgk.Core.Chain.{KaspaChainId, chain_eq}
use rgk.Core.Policy.{policy_eq}
use rgk.Core.Types.{KaspaOutpoint, RgkStateCommitment, outpoint_eq, state_eq}
use rgk.Indexer.Records.{
  IndexerError, chain_mismatch, lineage_mismatch, invariant, not_indexed, rebuild_spend_missing,
  rebuild_tx_mismatch, rebuild_missing_daa_score, rebuild_insufficient_confirmations,
  checkpoint_covenant_mismatch, different_asset, different_policy, checkpoint_outpoint_mismatch,
  checkpoint_state_mismatch, checkpoint_daa_mismatch, receipts_without_history,
  history_not_from_checkpoint, history_digest_mismatch, spend_covenant_mismatch,
  spend_changes_asset, spend_changes_policy, no_open_outpoint, IndexedCovenant, SpendEntry,
}
use rgk.Indexer.Entry.{Spend}
use rgk.Indexer.Memory.{InMemoryIndexer, open_covenant, apply_spend, lookup, has_replay}

pub record RebuildCheckpoint : Type 0 where
  pub chain_id : KaspaChainId
  pub covenant_id : Bytes32
  pub lineage_id : Bytes32
  pub initial_state : RgkStateCommitment
  pub open_outpoint : KaspaOutpoint
  pub daa_score : ℕ

pub record RebuildSpend : Type 0 where
  pub receipt_id : Bytes32
  pub spent_outpoint : KaspaOutpoint
  pub created_outpoint : KaspaOutpoint
  pub new_state : RgkStateCommitment
  pub expected_spending_txid : Bytes32
  pub min_confirmations : ℕ

pub record RebuildPlan : Type 0 where
  pub checkpoint : RebuildCheckpoint
  pub spends : List RebuildSpend

pub record RebuildSpendEvidence : Type 0 where
  pub spending_txid : Bytes32
  pub block_daa_score : Option ℕ
  pub confirmation_depth : Option ℕ

-- The trait `RebuildSource`.
pub record RebuildSource : Type 0 where
  pub chain_id : Result IndexerError KaspaChainId
  pub spend_evidence : KaspaOutpoint → Result IndexerError (Option RebuildSpendEvidence)

pub record RebuildSummary : Type 0 where
  pub opened : Bool
  pub applied_spends : ℕ
  pub skipped_replays : ℕ
  pub final_open_outpoint : KaspaOutpoint
  pub final_daa_score : ℕ

unfoldable pub validate_rebuild_checkpoint_shape :
    RebuildCheckpoint → Result IndexerError (Unit {0})
validate_rebuild_checkpoint_shape c = do
  ensure (c.initial_state.chain_id ≟ c.chain_id)
      (chain_mismatch c.initial_state.chain_id c.chain_id)
  ensure (c.initial_state.covenant_id ≟ c.covenant_id) (invariant checkpoint_covenant_mismatch)

-- The end of `validate_existing_checkpoint`, where receipts were accepted.
unfoldable pub check_history :
    Option SpendEntry → RebuildCheckpoint → Result IndexerError (Unit {0})
check_history none c = err (invariant receipts_without_history)
check_history (some first_spend) c = do
  ensure (first_spend.spent ≟ c.open_outpoint) (invariant history_not_from_checkpoint)
  ensure (first_spend.new_state_digest ≟ c.initial_state.state_digest)
      (invariant history_digest_mismatch)

-- Its middle and its end: a fresh entry is the checkpoint, another one descends from it.
unfoldable pub check_descent :
    List Bytes32 → IndexedCovenant → RebuildCheckpoint → Result IndexerError (Unit {0})
unfolding check_history
check_descent [] entry c = do
  ensure (entry.open_outpoint ≟ some c.open_outpoint) (invariant checkpoint_outpoint_mismatch)
  ensure (entry.latest_state ≟ c.initial_state) (invariant checkpoint_state_mismatch)
  ensure (entry.last_update_daa_score ≟ c.daa_score) (invariant checkpoint_daa_mismatch)
check_descent (id ∷ ids) entry c = check_history (first entry.spend_history) c

unfoldable pub validate_existing_checkpoint :
    IndexedCovenant → RebuildCheckpoint → Result IndexerError (Unit {0})
unfolding check_descent
validate_existing_checkpoint entry c = do
  ensure (entry.chain_id ≟ c.chain_id) (chain_mismatch entry.chain_id c.chain_id)
  ensure (entry.lineage_id ≟ c.lineage_id) (lineage_mismatch entry.lineage_id c.lineage_id)
  ensure (entry.latest_state.asset_id ≟ c.initial_state.asset_id) (invariant different_asset)
  ensure (entry.latest_state.receipt_policy ≟ c.initial_state.receipt_policy)
      (invariant different_policy)
  check_descent entry.accepted_receipts entry c

unfoldable pub validate_rebuild_spend_shape :
    RebuildCheckpoint → RebuildSpend → Result IndexerError (Unit {0})
validate_rebuild_spend_shape c s = do
  ensure (s.new_state.chain_id ≟ c.chain_id) (chain_mismatch s.new_state.chain_id c.chain_id)
  ensure (s.new_state.covenant_id ≟ c.covenant_id) (invariant spend_covenant_mismatch)
  ensure (s.new_state.asset_id ≟ c.initial_state.asset_id) (invariant spend_changes_asset)
  ensure (s.new_state.receipt_policy ≟ c.initial_state.receipt_policy)
      (invariant spend_changes_policy)

-- `Option::unwrap_or(0)`
abbrev pub unwrap_or_zero : Option ℕ → ℕ
unwrap_or_zero none = 0
unwrap_or_zero (some depth) = depth

-- The checks on one spend of the loop, which answer the score of its block.
unfoldable pub check_evidence :
    RebuildSource → RebuildCheckpoint → RebuildSpend → Result IndexerError ℕ
unfolding validate_rebuild_spend_shape
check_evidence source c s = do
  validate_rebuild_spend_shape c s
  found ← source.spend_evidence s.spent_outpoint
  evidence ← ok_or found (rebuild_spend_missing s.spent_outpoint)
  ensure (evidence.spending_txid ≟ s.expected_spending_txid)
      (rebuild_tx_mismatch s.spent_outpoint s.expected_spending_txid evidence.spending_txid)
  ensure (dec_le s.min_confirmations (unwrap_or_zero evidence.confirmation_depth)) (
      rebuild_insufficient_confirmations evidence.spending_txid s.min_confirmations
        evidence.confirmation_depth)
  ok_or evidence.block_daa_score (rebuild_missing_daa_score evidence.spending_txid)

-- The arguments of `apply_spend`.
abbrev pub replayed : RebuildSpend → ℕ → Spend
replayed s daa = record {
  receipt_id = s.receipt_id;
  spent = s.spent_outpoint;
  new_outpoint = s.created_outpoint;
  new_state = s.new_state;
  daa_score = daa;
  continuation = none;
  policy_migration = none;
}

-- What is left of the indexer, and the answer.
abbrev pub Outcome : Type 0 → Type 0
Outcome A = InMemoryIndexer × Result IndexerError A

-- The entry is checked, or opened.
unfoldable pub enter_checkpoint : RebuildCheckpoint → InMemoryIndexer → Outcome Bool
enter_checkpoint c s = elim (lookup c.covenant_id s) [
  | some entry ↦ (s, validate_existing_checkpoint entry c >> ok false)
  | none ↦
      elim (open_covenant c.chain_id c.covenant_id c.lineage_id c.initial_state c.open_outpoint
        c.daa_score s) [ err e ↦ (s, err e) | ok t ↦ (t, ok true) ]
]

-- The final lookup.
unfoldable pub summarize :
    RebuildCheckpoint → Bool → ℕ → ℕ → InMemoryIndexer → Result IndexerError RebuildSummary
summarize c opened applied skipped s = do
  entry ← ok_or (lookup c.covenant_id s) (not_indexed c.covenant_id)
  outpoint ← ok_or entry.open_outpoint (invariant no_open_outpoint)
  ok (record {
    opened = opened;
    applied_spends = applied;
    skipped_replays = skipped;
    final_open_outpoint = outpoint;
    final_daa_score = entry.last_update_daa_score;
  })

module _ (sha256 : List ℕ → Bytes32) (source : RebuildSource) (c : RebuildCheckpoint) where
  -- The `for` over the spends, with the counts of those applied and those skipped.
  unfoldable pub replay_spends : List RebuildSpend → ℕ → ℕ → InMemoryIndexer → Outcome (ℕ × ℕ)
  unfolding check_evidence
  replay_spends [] applied skipped s = (s, ok (applied, skipped))
  replay_spends (spend ∷ spends) applied skipped s = elim (check_evidence source c spend) [
    | err e ↦ (s, err e)
    | ok daa ↦ elim (has_replay c.covenant_id spend.receipt_id s) [
      | true ↦ replay_spends spends applied (skipped + 1) s
      | false ↦ elim (apply_spend sha256 c.covenant_id (replayed spend daa) s) [
        | err e ↦ (s, err e)
        | ok t ↦ replay_spends spends (applied + 1) skipped t
      ]
    ]
  ]

-- The checks before the indexer is touched.
unfoldable pub check_plan : RebuildSource → RebuildPlan → Result IndexerError (Unit {0})
unfolding validate_rebuild_checkpoint_shape
check_plan source plan = do
  source_chain ← source.chain_id
  ensure (source_chain ≟ plan.checkpoint.chain_id)
      (chain_mismatch source_chain plan.checkpoint.chain_id)
  validate_rebuild_checkpoint_shape plan.checkpoint

-- `Result` and `?` in a computation that carries the indexer.
abbrev pub continue :
    {A : Type 0} {B : Type 0} → Outcome A → (A → InMemoryIndexer → Outcome B) → Outcome B
continue (s, err e) next = (s, err e)
continue (s, ok a) next = next a s

unfoldable pub rebuild_from :
    (List ℕ → Bytes32) → RebuildSource → RebuildPlan → InMemoryIndexer → Outcome RebuildSummary
unfolding check_plan enter_checkpoint replay_spends summarize
rebuild_from sha256 source plan s =
    continue (s, check_plan source plan)
      λ _ s. continue (enter_checkpoint plan.checkpoint s) λ opened s.
        continue (replay_spends sha256 source plan.checkpoint plan.spends 0 0 s)
          λ counts s. (s, summarize plan.checkpoint opened counts.0 counts.1 s)
