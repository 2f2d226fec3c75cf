-- ===== src/Indexer/Rebuild/Again.antt =====
-- Replaying a plan again changes nothing.
use rgk.Prelude.{
  ℕ, ◌+◌, ◌≡◌, refl, sym, ap, ◌∙◌, inl, inr, Bool, true, false, Bool-cases, some_of, List, [], ◌∷◌,
  length, All, ok, ok_of, err_ok, >>=-eq-ok, ok_or, passed, ◌≟◌, list_eq, nat_eq, option_eq,
  bytes_ord, arith, bool_eq, Result-cases,
}
use rgk.Prelude.Results.{◌>>◌}
use rgk.Prelude.Guards.{ensured_last}
use rgk.Core.Bytes.{Bytes32}
use rgk.Core.Chain.{chain_eq}
use rgk.Core.Policy.{policy_eq}
use rgk.Core.Types.{outpoint_eq, state_eq}
use rgk.Indexer.Records.{opened, not_indexed, invariant, no_open_outpoint}
use rgk.Indexer.Entry.{advance_entry}
use rgk.Indexer.Memory.{InMemoryIndexer, apply_spend, lookup, has_replay}
use rgk.Indexer.Memory.Reach.{Reach}
use rgk.Indexer.Rebuild.Steps.{
  continue-ok, replay_unshown, replay_skips, replay_refused, replay_applies, enter_existing,
}
use rgk.Indexer.Rebuild.Evidence.{apply_spend-entry, replay_spends-Complete}
use rgk.Indexer.Rebuild.Attached.{
  validate_existing_iff, advance-Attached, Holds, lookup_get, enter-Holds,
}
use rgk.Indexer.Rebuild.{
  RebuildCheckpoint, RebuildSpend, RebuildPlan, RebuildSource, RebuildSummary,
  validate_rebuild_spend_shape, check_evidence, replayed, enter_checkpoint, summarize,
  replay_spends, check_plan, rebuild_from,
}

-- A spend that passes the checks of the loop stays with the checkpoint's asset and policy.
check_evidence-shape :
    (source : RebuildSource) (c : RebuildCheckpoint) (s : RebuildSpend) (daa : ℕ)
    → check_evidence source c s ≡ ok daa
    → (s.new_state.asset_id ≡ c.initial_state.asset_id)
      × (s.new_state.receipt_policy ≡ c.initial_state.receipt_policy)
unfolding check_evidence validate_rebuild_spend_shape
check_evidence-shape source c s daa h =
    let (_, h1, _) = >>=-eq-ok (validate_rebuild_spend_shape c s) _ h in
    let (_, h2) = passed (s.new_state.chain_id ≟ c.chain_id) _ h1 in
    let (_, h3) = passed (s.new_state.covenant_id ≟ c.covenant_id) _ h2 in
    let (asset, h4) = passed (s.new_state.asset_id ≟ c.initial_state.asset_id) _ h3 in
    let policy =
      (ensured_last (s.new_state.receipt_policy ≟ c.initial_state.receipt_policy) _).0 h4 in
    (asset, policy)

module _ (sha256 : List ℕ → Bytes32) (source : RebuildSource) (c : RebuildCheckpoint) where
  replay_spends-Holds :
      (todo : List RebuildSpend) (applied skipped : ℕ) (s t : InMemoryIndexer) (counts : ℕ × ℕ)
      → replay_spends sha256 source c todo applied skipped s ≡ (t, ok counts)
      → Holds c s
      → Holds c t
  unfolding replay_spends
  replay_spends-Holds [] applied skipped s t counts h held = rw (← ap (λ z. z.0) h) held
  replay_spends-Holds (spend ∷ todo) applied skipped s t counts h held =
      elim (Result-cases (check_evidence source c spend)) [
        | inl (e, p) ↦ absurd (
            err_ok (
              ap (λ z. z.1)
                (sym (replay_unshown sha256 source c spend todo applied skipped s e p) ∙ h)))
        | inr (daa, p) ↦ elim (Bool-cases (has_replay c.covenant_id spend.receipt_id s)) [
          | inl k ↦
              replay_spends-Holds todo applied (skipped + 1) s t counts
                (sym (replay_skips sha256 source c spend todo applied skipped s daa p k) ∙ h) held
          | inr k ↦ elim (Result-cases (apply_spend sha256 c.covenant_id (replayed spend daa) s)) [
            | inl (e, q) ↦ absurd (
                err_ok (
                  ap (λ z. z.1)
                    (sym (replay_refused sha256 source c spend todo applied skipped s daa e p k q)
                      ∙ h)))
            | inr (u, q) ↦
                let (e, there, attached) = held in
                let (e', found, accepts, left) =
                  apply_spend-entry sha256 c.covenant_id (replayed spend daa) s u q in
                let (asset, policy) = check_evidence-shape source c spend daa p in
                let same : e ≡ e' = some_of (sym there ∙ found) in
                replay_spends-Holds todo (applied + 1) skipped u t counts
                  (sym (replay_applies sha256 source c spend todo applied skipped s daa u p k q)
                    ∙ h)
                  (
                    advance_entry e' (replayed spend daa),
                    left,
                    advance-Attached c sha256 e' (replayed spend daa) accepts asset policy
                        (rw (← same) attached),
                  )
          ]
        ]
      ]

  -- Where every receipt is accepted already, the loop skips every spend.
  replay_spends-skips :
      (todo : List RebuildSpend) (applied skipped : ℕ) (t : InMemoryIndexer)
      → All (λ s. (daa : ℕ) × (check_evidence source c s ≡ ok daa)) todo
      → All (λ s. has_replay c.covenant_id s.receipt_id t ≡ true) todo
      → replay_spends sha256 source c todo applied skipped t
        ≡ (t, ok (applied, skipped + length todo))
  unfolding replay_spends
  replay_spends-skips [] applied skipped t p k = ap (λ n. (t, ok (applied, n))) (omega arith)
  replay_spends-skips (spend ∷ todo) applied skipped t ((daa, p), ps) (k, ks) =
      replay_skips sha256 source c spend todo applied skipped t daa p k
      ∙ replay_spends-skips todo applied (skipped + 1) t ps ks
      ∙ ap (λ n. (t, ok (applied, n))) (omega arith)

summarize-again :
    (c : RebuildCheckpoint) (opened : Bool) (applied skipped n : ℕ) (s : InMemoryIndexer)
    (r : RebuildSummary)
    → summarize c opened applied skipped s ≡ ok r
    → summarize c false 0 n s
      ≡ ok (record r { opened = false; applied_spends = 0; skipped_replays = n })
unfolding summarize
summarize-again c opened applied skipped n s r h =
    let (entry, p, h1) =
      >>=-eq-ok (ok_or (lookup c.covenant_id s) (not_indexed c.covenant_id)) _ h in
    let (outpoint, q, h2) =
      >>=-eq-ok (ok_or entry.open_outpoint (invariant no_open_outpoint)) _ h1 in
    rw (p, q, ← ok_of h2) refl

enter-again :
    (c : RebuildCheckpoint) (t : InMemoryIndexer) → Holds c t → enter_checkpoint c t ≡ (t, ok false)
enter-again c t (e, there, a) =
    enter_existing c t e (lookup_get c t ∙ there)
    ∙ ap (λ m. (t, m >> ok false))
        ((validate_existing_iff c e).1
          (a.same_chain, (a.same_lineage, (a.same_asset, (a.same_policy, a.descends)))))

module _ (sha256 : List ℕ → Bytes32) (source : RebuildSource) (plan : RebuildPlan) where
  -- A rebuild that succeeds, from an indexer that its operations lead to, can be made again: it succeeds, leaves
  -- the indexer as it is, opens nothing, applies nothing, skips every spend of the plan, and reports the same
  -- open outpoint and score.
  pub rebuild_from_again :
      (s t : InMemoryIndexer) (summary : RebuildSummary)
      → Reach sha256 s
      → rebuild_from sha256 source plan s ≡ (t, ok summary)
      → rebuild_from sha256 source plan t ≡ (
        t,
        ok (record summary {
          opened = false;
          applied_spends = 0;
          skipped_replays = length plan.spends;
        }),
      )
  unfolding rebuild_from
  rebuild_from_again s t summary reach h =
      let c = plan.checkpoint in
      let (_, checks, h1) = continue-ok (s, check_plan source plan) _ h in
      let (opened, entered, h2) = continue-ok (enter_checkpoint c s) _ h1 in
      let (counts, ran, h3) =
        continue-ok (replay_spends sha256 source c plan.spends 0 0 (enter_checkpoint c s).0) _ h2 in
      let all : replay_spends sha256 source c plan.spends 0 0 (enter_checkpoint c s).0
          ≡ (t, ok counts) =
        λ i. (ap (λ z. z.0) h3 i, ran i) in
      let r =
        replay_spends-Complete sha256 source c plan.spends 0 0 (enter_checkpoint c s).0 t counts
          all in
      let held =
        replay_spends-Holds sha256 source c plan.spends 0 0 (enter_checkpoint c s).0 t counts all
          (enter-Holds c sha256 s opened reach entered) in
      let summed : summarize c opened counts.0 counts.1 t ≡ ok summary =
        ap (λ u. summarize c opened counts.0 counts.1 u) (sym (ap (λ z. z.0) h3))
        ∙ ap (λ z. z.1) h3 in
      let skips : replay_spends sha256 source c plan.spends 0 0 t
          ≡ (t, ok (0, length plan.spends)) =
        replay_spends-skips sha256 source c plan.spends 0 0 t r.checks r.accepted
        ∙ ap (λ n. (t, ok (0, n))) (omega arith) in
      rw
        (
          checks,
          enter-again c t held,
          skips,
          summarize-again c opened counts.0 counts.1 (length plan.spends) t summary summed,
        )
        refl
