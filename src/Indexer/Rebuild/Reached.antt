-- ===== src/Indexer/Rebuild/Reached.antt =====
-- Where a rebuild leads, also one that fails.
use rgk.Prelude.{
  ℕ, ◌+◌, inl, inr, Bool-cases, List, [], ◌∷◌, list_eq, nat_eq, bytes_ord, Result-cases,
  Option-cases,
}
use rgk.Core.Bytes.{Bytes32}
use rgk.Core.Chain.{chain_eq}
use rgk.Indexer.Memory.{InMemoryIndexer, apply_spend, open_covenant, lookup, has_replay}
use rgk.Indexer.Memory.Reach.{Reach, step, opens, spends}
use rgk.Indexer.Rebuild.Steps.{
  continue_cases, replay_unshown, replay_skips, replay_refused, replay_applies, enter_existing,
  enter_refused, enter_opens,
}
use rgk.Indexer.Rebuild.{
  RebuildCheckpoint, RebuildSpend, RebuildPlan, RebuildSource, check_evidence, replayed,
  enter_checkpoint, replay_spends, check_plan, rebuild_from,
}

module _ (sha256 : List ℕ → Bytes32) (source : RebuildSource) (c : RebuildCheckpoint) where
  -- The loop leads on from where it starts, whatever comes of it.
  replay_spends-Reach :
      (todo : List RebuildSpend) (applied skipped : ℕ) (s : InMemoryIndexer)
      → Reach sha256 s
      → Reach sha256 (replay_spends sha256 source c todo applied skipped s).0
  unfolding replay_spends
  replay_spends-Reach [] applied skipped s r = r
  replay_spends-Reach (spend ∷ todo) applied skipped s r =
      elim (Result-cases (check_evidence source c spend)) [
        | inl (e, p) ↦ rw (replay_unshown sha256 source c spend todo applied skipped s e p) r
        | inr (daa, p) ↦ elim (Bool-cases (has_replay c.covenant_id spend.receipt_id s)) [
          | inl k ↦
              rw (replay_skips sha256 source c spend todo applied skipped s daa p k)
                (replay_spends-Reach todo applied (skipped + 1) s r)
          | inr k ↦ elim (Result-cases (apply_spend sha256 c.covenant_id (replayed spend daa) s)) [
            | inl (e, q) ↦
                rw (replay_refused sha256 source c spend todo applied skipped s daa e p k q) r
            | inr (u, q) ↦
                rw (replay_applies sha256 source c spend todo applied skipped s daa u p k q) (
                  replay_spends-Reach todo (applied + 1) skipped u
                    (step r (spends c.covenant_id (replayed spend daa) q)))
          ]
        ]
      ]

  enter-Reach : (s : InMemoryIndexer) → Reach sha256 s → Reach sha256 (enter_checkpoint c s).0
  unfolding enter_checkpoint
  enter-Reach s r = elim (Option-cases (lookup c.covenant_id s)) [
    | inr (e, p) ↦ rw (enter_existing c s e p) r
    | inl p ↦
        elim (Result-cases (
          open_covenant c.chain_id c.covenant_id c.lineage_id c.initial_state c.open_outpoint
            c.daa_score s)) [
              | inl (e, q) ↦ rw (enter_refused c s e p q) r
              | inr (t, q) ↦ rw (enter_opens c s t p q) (
                  step r (
                    opens c.chain_id c.covenant_id c.lineage_id c.initial_state c.open_outpoint
                      c.daa_score q))
            ]
  ]

module _ (sha256 : List ℕ → Bytes32) (source : RebuildSource) (plan : RebuildPlan) where
  -- Whatever comes of a rebuild, also when it stops at an error in the middle of the plan, the indexer it
  -- leaves is one that a sequence of operations of the indexer leads to, if it started from such a one.
  pub rebuild_from-Reach :
      (s : InMemoryIndexer) → Reach sha256 s → Reach sha256 (rebuild_from sha256 source plan s).0
  unfolding rebuild_from
  rebuild_from-Reach s r =
      continue_cases (Reach sha256) (s, check_plan source plan) _ r
        λ _.
          continue_cases (Reach sha256) (enter_checkpoint plan.checkpoint s) _
            (enter-Reach sha256 source plan.checkpoint s r)
            λ opened.
              continue_cases (Reach sha256)
                (replay_spends sha256 source plan.checkpoint plan.spends 0 0
                  (enter_checkpoint plan.checkpoint s).0)
                _
                (replay_spends-Reach sha256 source plan.checkpoint plan.spends 0 0 _
                  (enter-Reach sha256 source plan.checkpoint s r))
                λ counts.
                  replay_spends-Reach sha256 source plan.checkpoint plan.spends 0 0 _
                    (enter-Reach sha256 source plan.checkpoint s r)
