-- ===== src/Indexer/Rebuild/Evidence.antt =====
-- What a rebuild that succeeds has seen of the chain.
use rgk.Prelude.{
  ℕ, ◌+◌, ◌≤◌, ◌≡◌, refl, sym, ap, ◌∙◌, inl, inr, Bool, true, Bool-cases, some, List, [], ◌∷◌,
  length, All, ok, ok_of, err_ok, >>=-eq-ok, ok_or, ok_or-eq-ok, passed, ◌≟◌, list_eq, nat_eq,
  contains, contains-snoc_self, contains-snoc_kept, dec_le, get, get-insert_self, bytes_ord, arith,
  Result-cases,
}
use rgk.Core.Bytes.{Bytes32}
use rgk.Core.Chain.{chain_eq}
use rgk.Indexer.Records.{
  IndexedCovenant, rebuild_spend_missing, not_indexed, invariant, no_open_outpoint,
}
use rgk.Indexer.Entry.{Spend, advance_entry, apply_spend_to_entry}
use rgk.Indexer.Entry.Apply.{Accepts, apply_sound}
use rgk.Indexer.Memory.{InMemoryIndexer, apply_spend, lookup, has_replay}
use rgk.Indexer.Memory.Reach.{on_entry-inv}
use rgk.Indexer.Rebuild.Steps.{
  continue-ok, replay_unshown, replay_skips, replay_refused, replay_applies,
}
use rgk.Indexer.Rebuild.{
  RebuildCheckpoint, RebuildSpend, RebuildPlan, RebuildSpendEvidence, RebuildSource, RebuildSummary,
  validate_rebuild_spend_shape, check_evidence, unwrap_or_zero, replayed, enter_checkpoint,
  summarize, replay_spends, check_plan, rebuild_from,
}

-- The source shows a spend: the expected transaction spends the outpoint, deeply enough, in a block whose
-- score is known.
pub record IsShown (source : RebuildSource) (s : RebuildSpend) : Type 0 where
  pub evidence : RebuildSpendEvidence
  pub found : source.spend_evidence s.spent_outpoint ≡ ok (some evidence)
  pub same : evidence.spending_txid ≡ s.expected_spending_txid
  pub deep : s.min_confirmations ≤ unwrap_or_zero evidence.confirmation_depth
  pub score : ℕ
  pub scored : evidence.block_daa_score ≡ some score

check_evidence_sound :
    (source : RebuildSource) (c : RebuildCheckpoint) (s : RebuildSpend) (daa : ℕ)
    → check_evidence source c s ≡ ok daa
    → IsShown source s
unfolding check_evidence
check_evidence_sound source c s daa h =
    let (_, _, h1) = >>=-eq-ok (validate_rebuild_spend_shape c s) _ h in
    let (found, shown, h2) = >>=-eq-ok (source.spend_evidence s.spent_outpoint) _ h1 in
    let (evidence, there, h3) =
      >>=-eq-ok (ok_or found (rebuild_spend_missing s.spent_outpoint)) _ h2 in
    let (same, h4) = passed (evidence.spending_txid ≟ s.expected_spending_txid) _ h3 in
    let (deep, h5) =
      passed (dec_le s.min_confirmations (unwrap_or_zero evidence.confirmation_depth)) _ h4 in
    record {
      evidence = evidence;
      found = shown ∙ ap ok (ok_or-eq-ok found _ there);
      same = same;
      deep = deep;
      score = daa;
      scored = ok_or-eq-ok evidence.block_daa_score _ h5;
    }

pub has_replay-some :
    (covenant id : Bytes32) (s : InMemoryIndexer) (e : IndexedCovenant)
    → get s.map covenant ≡ some e
    → has_replay covenant id s ≡ contains e.accepted_receipts id
unfolding has_replay
has_replay-some covenant id s e h = rw (has_replay, h) refl

module _ (sha256 : List ℕ → Bytes32) (covenant : Bytes32) where
  -- The entry that a spend is applied to, and the one it leaves.
  pub apply_spend-entry :
      (spend : Spend) (s t : InMemoryIndexer)
      → apply_spend sha256 covenant spend s ≡ ok t
      → (e : IndexedCovenant) × (get s.map covenant ≡ some e)
        × Accepts sha256 e spend
        × (get t.map covenant ≡ some (advance_entry e spend))
  unfolding apply_spend
  apply_spend-entry spend s t h =
      let (e, e', p, q, same) =
        on_entry-inv covenant (λ e. apply_spend_to_entry sha256 e spend) s h in
      let (accepts, made) = apply_sound sha256 e spend q in
      (e, p, accepts, rw (← same) (rw (← made) (get-insert_self covenant e' s.map)))

  -- A spend keeps the accepted receipts and adds its own.
  pub apply-has_replay :
      (spend : Spend) (s t : InMemoryIndexer)
      → apply_spend sha256 covenant spend s ≡ ok t
      → (has_replay covenant spend.receipt_id t ≡ true)
        × ((id : Bytes32) → has_replay covenant id s ≡ true → has_replay covenant id t ≡ true)
  unfolding advance_entry
  apply-has_replay spend s t h =
      let (e, p, _, q) = apply_spend-entry spend s t h in
      (
        has_replay-some covenant spend.receipt_id t (advance_entry e spend) q
            ∙ contains-snoc_self e.accepted_receipts spend.receipt_id,
        λ id k.
            has_replay-some covenant id t (advance_entry e spend) q
            ∙ contains-snoc_kept e.accepted_receipts id spend.receipt_id
                (sym (has_replay-some covenant id s e p) ∙ k),
      )

module _ (sha256 : List ℕ → Bytes32) (source : RebuildSource) (c : RebuildCheckpoint) where
  abbrev Replayed : InMemoryIndexer → RebuildSpend → Type 0
  Replayed t s = has_replay c.covenant_id s.receipt_id t ≡ true

  -- What the loop has shown when it ends well.
  pub record Complete (todo : List RebuildSpend) (applied skipped : ℕ) (s t : InMemoryIndexer)
      (counts : ℕ × ℕ) : Type 0 where
    pub shown : All (IsShown source) todo
    pub checks : All (λ s. (daa : ℕ) × (check_evidence source c s ≡ ok daa)) todo
    pub accepted : All (Replayed t) todo
    pub kept :
        (id : Bytes32) → has_replay c.covenant_id id s ≡ true → has_replay c.covenant_id id t ≡ true
    pub counted : counts.0 + counts.1 ≡ applied + skipped + length todo

  pub replay_spends-Complete :
      (todo : List RebuildSpend) (applied skipped : ℕ) (s t : InMemoryIndexer) (counts : ℕ × ℕ)
      → replay_spends sha256 source c todo applied skipped s ≡ (t, ok counts)
      → Complete todo applied skipped s t counts
  unfolding replay_spends
  replay_spends-Complete [] applied skipped s t counts h =
      let same = ap (λ p. p.0) h in
      let counted = ok_of (ap (λ p. p.1) h) in
      record {
        shown = tt;
        checks = tt;
        accepted = tt;
        kept = λ id k. rw (← same) k;
        counted = rw (← counted) (omega arith);
      }
  replay_spends-Complete (spend ∷ todo) applied skipped s t counts h =
      elim (Result-cases (check_evidence source c spend)) [
        | inl (e, p) ↦ absurd (
            err_ok (
              ap (λ z. z.1)
                (sym (replay_unshown sha256 source c spend todo applied skipped s e p) ∙ h)))
        | inr (daa, p) ↦ elim (Bool-cases (has_replay c.covenant_id spend.receipt_id s)) [
          | inl k ↦
              let r =
                replay_spends-Complete todo applied (skipped + 1) s t counts
                  (sym (replay_skips sha256 source c spend todo applied skipped s daa p k) ∙ h) in
              record {
                shown = (check_evidence_sound source c spend daa p, r.shown);
                checks = ((daa, p), r.checks);
                accepted = (r.kept spend.receipt_id k, r.accepted);
                kept = r.kept;
                counted = omega (arith, r.counted);
              }
          | inr k ↦ elim (Result-cases (apply_spend sha256 c.covenant_id (replayed spend daa) s)) [
            | inl (e, q) ↦ absurd (
                err_ok (
                  ap (λ z. z.1)
                    (sym (replay_refused sha256 source c spend todo applied skipped s daa e p k q)
                      ∙ h)))
            | inr (u, q) ↦
                let r = replay_spends-Complete todo (applied + 1) skipped u t counts (
                  sym (replay_applies sha256 source c spend todo applied skipped s daa u p k q)
                  ∙ h) in
                let (own, kept) =
                  apply-has_replay sha256 c.covenant_id (replayed spend daa) s u q in
                record {
                  shown = (check_evidence_sound source c spend daa p, r.shown);
                  checks = ((daa, p), r.checks);
                  accepted = (r.kept spend.receipt_id own, r.accepted);
                  kept = λ id z. r.kept id (kept id z);
                  counted = omega (arith, r.counted);
                }
          ]
        ]
      ]

summarize-counts :
    (c : RebuildCheckpoint) (opened : Bool) (applied skipped : ℕ) (s : InMemoryIndexer)
    (r : RebuildSummary)
    → summarize c opened applied skipped s ≡ ok r
    → (r.applied_spends ≡ applied) × (r.skipped_replays ≡ skipped)
unfolding summarize
summarize-counts c opened applied skipped s r h =
    let (entry, _, h1) =
      >>=-eq-ok (ok_or (lookup c.covenant_id s) (not_indexed c.covenant_id)) _ h in
    let (outpoint, _, h2) =
      >>=-eq-ok (ok_or entry.open_outpoint (invariant no_open_outpoint)) _ h1 in
    let same = sym (ok_of h2) in
    (
      ap (λ (q : RebuildSummary). q.applied_spends) same,
      ap (λ (q : RebuildSummary). q.skipped_replays) same,
    )

module _ (sha256 : List ℕ → Bytes32) (source : RebuildSource) (plan : RebuildPlan) where
  -- A rebuild that succeeds was made on the plan's chain, every spend of the plan was shown by the source, as
  -- the expected transaction, at least as deep as asked and in a block of known score, every receipt of the
  -- plan is accepted afterwards, and each spend was either applied or skipped.
  pub rebuild_from_evidence :
      (s t : InMemoryIndexer) (summary : RebuildSummary)
      → rebuild_from sha256 source plan s ≡ (t, ok summary)
      → (source.chain_id ≡ ok plan.checkpoint.chain_id)
        × All (IsShown source) plan.spends
        × All
            (λ spend. has_replay plan.checkpoint.covenant_id spend.receipt_id t ≡ true)
            plan.spends
        × (summary.applied_spends + summary.skipped_replays ≡ length plan.spends)
  unfolding rebuild_from check_plan summarize
  rebuild_from_evidence s t summary h =
      let (_, checks, h1) = continue-ok (s, check_plan source plan) _ h in
      let (opened, entered, h2) = continue-ok (enter_checkpoint plan.checkpoint s) _ h1 in
      let (counts, ran, h3) =
        continue-ok
          (replay_spends sha256 source plan.checkpoint plan.spends 0 0
            (enter_checkpoint plan.checkpoint s).0)
          _ h2 in
      let (chain, asked, checks1) = >>=-eq-ok source.chain_id _ checks in
      let (same, _) = passed (chain ≟ plan.checkpoint.chain_id) _ checks1 in
      let final = ap (λ z. z.0) h3 in
      let r =
        replay_spends-Complete sha256 source plan.checkpoint plan.spends 0 0
          (enter_checkpoint plan.checkpoint s).0 t counts (λ i. (final i, ran i)) in
      let (applied, skipped) =
        summarize-counts plan.checkpoint opened counts.0 counts.1 _ summary (ap (λ z. z.1) h3) in
      (asked ∙ ap ok same, r.shown, r.accepted, omega (arith, applied, skipped, r.counted))
