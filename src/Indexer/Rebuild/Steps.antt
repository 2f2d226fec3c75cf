-- ===== src/Indexer/Rebuild/Steps.antt =====
-- The branches of the loop and of the checkpoint, as equations.
use rgk.Prelude.{ℕ, ◌+◌, ◌≡◌, refl, true, false, none, some, List, ◌∷◌, ok, err, err_ok, ap}
use rgk.Prelude.Results.{◌>>◌}
use rgk.Core.Bytes.{Bytes32}
use rgk.Indexer.Records.{IndexerError, IndexedCovenant}
use rgk.Indexer.Memory.{InMemoryIndexer, apply_spend, open_covenant, lookup, has_replay}
use rgk.Indexer.Rebuild.{
  RebuildCheckpoint, RebuildSpend, RebuildSource, Outcome, continue, check_evidence, replayed,
  enter_checkpoint, replay_spends, validate_existing_checkpoint,
}

module _ (sha256 : List ℕ → Bytes32) (source : RebuildSource) (c : RebuildCheckpoint)
    (spend : RebuildSpend) (todo : List RebuildSpend) (applied skipped : ℕ)
    (s : InMemoryIndexer) where
  pub replay_unshown :
      (e : IndexerError)
      → check_evidence source c spend ≡ err e
      → replay_spends sha256 source c (spend ∷ todo) applied skipped s ≡ (s, err e)
  unfolding replay_spends
  replay_unshown e p = rw (replay_spends, p) refl

  pub replay_skips :
      (daa : ℕ)
      → check_evidence source c spend ≡ ok daa
      → has_replay c.covenant_id spend.receipt_id s ≡ true
      → replay_spends sha256 source c (spend ∷ todo) applied skipped s
        ≡ replay_spends sha256 source c todo applied (skipped + 1) s
  unfolding replay_spends
  replay_skips daa p k = rw (replay_spends, p, k) refl

  pub replay_refused :
      (daa : ℕ) (e : IndexerError)
      → check_evidence source c spend ≡ ok daa
      → has_replay c.covenant_id spend.receipt_id s ≡ false
      → apply_spend sha256 c.covenant_id (replayed spend daa) s ≡ err e
      → replay_spends sha256 source c (spend ∷ todo) applied skipped s ≡ (s, err e)
  unfolding replay_spends
  replay_refused daa e p k q = rw (replay_spends, p, k, q) refl

  pub replay_applies :
      (daa : ℕ) (t : InMemoryIndexer)
      → check_evidence source c spend ≡ ok daa
      → has_replay c.covenant_id spend.receipt_id s ≡ false
      → apply_spend sha256 c.covenant_id (replayed spend daa) s ≡ ok t
      → replay_spends sha256 source c (spend ∷ todo) applied skipped s
        ≡ replay_spends sha256 source c todo (applied + 1) skipped t
  unfolding replay_spends
  replay_applies daa t p k q = rw (replay_spends, p, k, q) refl

module _ (c : RebuildCheckpoint) (s : InMemoryIndexer) where
  pub enter_existing :
      (entry : IndexedCovenant)
      → lookup c.covenant_id s ≡ some entry
      → enter_checkpoint c s ≡ (s, validate_existing_checkpoint entry c >> ok false)
  unfolding enter_checkpoint
  enter_existing entry p = rw (enter_checkpoint, p) refl

  pub enter_refused :
      (e : IndexerError)
      → lookup c.covenant_id s ≡ none
      → open_covenant c.chain_id c.covenant_id c.lineage_id c.initial_state c.open_outpoint
          c.daa_score s
        ≡ err e
      → enter_checkpoint c s ≡ (s, err e)
  unfolding enter_checkpoint
  enter_refused e p q = rw (enter_checkpoint, p, q) refl

  pub enter_opens :
      (t : InMemoryIndexer)
      → lookup c.covenant_id s ≡ none
      → open_covenant c.chain_id c.covenant_id c.lineage_id c.initial_state c.open_outpoint
          c.daa_score s
        ≡ ok t
      → enter_checkpoint c s ≡ (t, ok true)
  unfolding enter_checkpoint
  enter_opens t p q = rw (enter_checkpoint, p, q) refl

-- A chain of outcomes: an earlier indexer if a part fails, else that of the rest.
pub continue_cases :
    {A : Type 0} {B : Type 0} (P : InMemoryIndexer → Type 0) (m : Outcome A)
    (next : A → InMemoryIndexer → Outcome B)
    → P m.0
    → ((a : A) → P (next a m.0).0)
    → P (continue m next).0
continue_cases P (s, err e) next p f = p
continue_cases P (s, ok a) next p f = f a

pub continue-ok :
    {A : Type 0} {B : Type 0} (m : Outcome A) (next : A → InMemoryIndexer → Outcome B)
    {t : InMemoryIndexer} {b : B}
    → continue m next ≡ (t, ok b)
    → (a : A) × (m.1 ≡ ok a) × (next a m.0 ≡ (t, ok b))
continue-ok (s, err e) next h = absurd (err_ok (ap (λ z. z.1) h))
continue-ok (s, ok a) next h = (a, refl, h)
