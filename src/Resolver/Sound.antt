-- ===== src/Resolver/Sound.antt =====
-- What a valid transition of the resolver rests on.
use rgk.Prelude.{
  ℕ, ◌≡◌, ◌≢◌, ◌≤◌, ◌⊎◌, inl, inr, refl, sym, ◌∙◌, true, none, some, List, ok, map_err,
  map_err-eq-ok, ok_or, ok_or-eq-ok, >>=-eq-ok, passed, avoided, ◌≟◌, nat_eq, list_eq, dec_le,
  arith,
}
use rgk.Core.Bytes.{Bytes32, zero32}
use rgk.Core.Chain.{KaspaChainId, chain_eq}
use rgk.Core.Policy.{policy_eq}
use rgk.Core.Types.{KaspaOutpoint, RgkStateCommitment, PolicyMigrationProof}
use rgk.Core.Commit.{policy_migration_commitment}
use rgk.Indexer.Records.{ContinuationProof, SpendEntry, IndexedCovenant}
use rgk.Indexer.Entry.Apply.{IsContinuation, IsMigration}
use rgk.Receipt.{
  structural, missing_policy_migration, migration_requires_continuation, missing_continuation_proof,
}
use rgk.Kaspa.{SpendingInfo, KaspaUtxo, KaspaChainBackend}
use rgk.Resolver.{
  Indexer, ResolverState, ValidTransition, native_transitioned_valid, native_transitioned_invalid,
  settle, depth_of, validate_indexed_continuation, validate_indexed_policy_migration, check_policy,
  judge_spend,
}
use rgk.Resolver.Settle.{
  is_valid, settle-bind, settle-passed, settle-avoided, map_err-IsRejecting,
  check_policy-IsRejecting,
}

-- The spend comes with a complete continuation proof and created its output in the observed transaction.
pub record IsContinuedBy (s : SpendEntry) (observed : Bytes32) : Type 0 where
  pub proof : ContinuationProof
  pub present : s.continuation ≡ some proof
  pub complete : IsContinuation proof
  pub created_there : s.created.transaction_id ≡ observed

pub continuation_sound :
    (s : SpendEntry) (observed : Bytes32)
    → validate_indexed_continuation s observed ≡ ok tt
    → IsContinuedBy s observed
unfolding validate_indexed_continuation
continuation_sound s observed h =
    let (p, e, h1) = >>=-eq-ok (ok_or s.continuation (structural missing_continuation_proof)) _ h in
    let (a, h2) = avoided (p.commitment ≟ zero32) _ h1 in
    let (b, h3) = avoided (p.shape_root ≟ zero32) _ h2 in
    let (c, h4) = avoided (p.transition_digest ≟ zero32) _ h3 in
    let (d, _) = passed (s.created.transaction_id ≟ observed) _ {k = ok tt} h4 in
    record {
      proof = p;
      present = ok_or-eq-ok s.continuation _ e;
      complete = record { commitment_set = a; shape_root_set = b; transition_set = c };
      created_there = d;
    }

module _ (sha256 : List ℕ → Bytes32) where
  -- The spend changed the policy, to the latest state's, with a valid migration proof.
  pub record IsMigratedBy (s : SpendEntry) (latest : RgkStateCommitment) : Type 0 where
    pub migration : PolicyMigrationProof
    pub continuation : ContinuationProof
    pub migration_present : s.policy_migration ≡ some migration
    pub continuation_present : s.continuation ≡ some continuation
    pub to_latest_policy : migration.new_policy ≡ latest.receipt_policy
    pub to_latest_digest : migration.new_state_digest ≡ latest.state_digest
    pub valid :
        IsMigration sha256 migration s.previous_receipt_policy s.new_receipt_policy
          s.new_state_digest s.resulting_state_digest continuation.transition_digest

  pub migration_sound :
      (s : SpendEntry) (latest : RgkStateCommitment)
      → s.previous_receipt_policy ≢ latest.receipt_policy
      → validate_indexed_policy_migration sha256 s latest ≡ ok tt
      → IsMigratedBy s latest
  unfolding validate_indexed_policy_migration
  migration_sound s latest n h =
      let (p, e, h1) =
        >>=-eq-ok (ok_or s.policy_migration (structural missing_policy_migration)) _ h in
      let (c, f, h2) =
        >>=-eq-ok (ok_or s.continuation (structural migration_requires_continuation)) _ h1 in
      let (a1, h3) = passed (p.previous_policy ≟ s.previous_receipt_policy) _ h2 in
      let (a2, h4) = passed (p.new_policy ≟ s.new_receipt_policy) _ h3 in
      let (a3, h5) = passed (p.new_policy ≟ latest.receipt_policy) _ h4 in
      let (a4, h6) = passed (p.previous_state_digest ≟ s.new_state_digest) _ h5 in
      let (a5, h7) = passed (p.new_state_digest ≟ s.resulting_state_digest) _ h6 in
      let (a6, h8) = passed (p.new_state_digest ≟ latest.state_digest) _ h7 in
      let (a7, h9) = passed (p.transition_digest ≟ c.transition_digest) _ h8 in
      let (a8, h10) = avoided (p.authorization_commitment ≟ zero32) _ h9 in
      let (a9, _) =
        passed
          (p.migration_commitment
            ≟ policy_migration_commitment sha256 p.previous_policy p.new_policy
                p.previous_state_digest p.new_state_digest p.transition_digest
                p.authorization_commitment)
          _ {k = ok tt} h10 in
      record {
        migration = p;
        continuation = c;
        migration_present = ok_or-eq-ok s.policy_migration _ e;
        continuation_present = ok_or-eq-ok s.continuation _ f;
        to_latest_policy = a3;
        to_latest_digest = a6;
        valid = record {
          changed = λ q. n (q ∙ sym a2 ∙ a3);
          previous_same = a1;
          new_same = a2;
          previous_digest_same = a4;
          new_digest_same = a5;
          transition_same = a7;
          authorized = a8;
          committed = a9;
        };
      }

module _ (sha256 : List ℕ → Bytes32) (b : KaspaChainBackend) (i : Indexer) (chain : KaspaChainId)
    (safety : ℕ) (covenant : Bytes32) where
  -- The policy was kept without a migration proof, or changed with a valid one.
  abbrev pub PolicyAccounted : SpendEntry → RgkStateCommitment → Type 0
  PolicyAccounted s latest =
      ((s.previous_receipt_policy ≡ latest.receipt_policy) × (s.policy_migration ≡ none))
      ⊎ ((s.previous_receipt_policy ≢ latest.receipt_policy) × IsMigratedBy sha256 s latest)

  policy-cases :
      (s : SpendEntry) (latest : RgkStateCommitment)
      → check_policy sha256 b i chain safety covenant s latest ≡ ok tt
      → ((s.previous_receipt_policy ≡ latest.receipt_policy) × (s.policy_migration ≡ none))
        ⊎ ((s.previous_receipt_policy ≢ latest.receipt_policy)
            × (validate_indexed_policy_migration sha256 s latest ≡ ok tt))
  unfolding check_policy
  policy-cases s latest h = ground arith

  policy_sound :
      (s : SpendEntry) (latest : RgkStateCommitment)
      → check_policy sha256 b i chain safety covenant s latest ≡ ok tt
      → PolicyAccounted s latest
  policy_sound s latest h = elim (policy-cases s latest h) [
    | inl k ↦ inl k
    | inr (n, v) ↦ inr (n, migration_sound sha256 s latest n v)
  ]

  -- The chain has the spend, deep enough.
  pub record IsDeep (o : KaspaOutpoint) (sp : SpendingInfo) : Type 0 where
    pub output : KaspaUtxo
    pub seen : b.get_utxo o ≡ ok (some output)
    pub spent : output.spending ≡ some sp
    pub some_depth : depth_of b sp.txid ≢ 0
    pub deep : safety ≤ depth_of b sp.txid

  -- The last indexed spend is on the chain, deep enough, in the transaction that created its output, with its
  -- proofs.
  pub record IsConfirmed (e : IndexedCovenant) (s : SpendEntry) (t : ValidTransition) : Type 0 where
    pub spending : SpendingInfo
    pub on_chain : IsDeep s.spent spending
    pub continued : IsContinuedBy s spending.txid
    pub policy : PolicyAccounted s e.latest_state
    pub answer : t ≡ record {
      spent_outpoint = s.spent;
      new_outpoint = s.created;
      receipt_id = s.receipt_id;
      new_state = e.latest_state;
      allocation_audit_certificate = s.allocation_audit_certificate;
      confirmation_depth = depth_of b spending.txid;
    }

  pub judge-facts :
      (e : IndexedCovenant) (s : SpendEntry) (sp : SpendingInfo) {r : ResolverState}
      → is_valid r ≡ true
      → settle (judge_spend sha256 b i chain safety covenant e s sp) ≡ r
      → (depth_of b sp.txid ≢ 0)
        × (safety ≤ depth_of b sp.txid)
        × IsContinuedBy s sp.txid
        × PolicyAccounted s e.latest_state
        × (native_transitioned_valid covenant (record {
          spent_outpoint = s.spent;
          new_outpoint = s.created;
          receipt_id = s.receipt_id;
          new_state = e.latest_state;
          allocation_audit_certificate = s.allocation_audit_certificate;
          confirmation_depth = depth_of b sp.txid;
        })
            ≡ r)
  unfolding judge_spend is_valid settle
  judge-facts e s sp {r} v h =
      let (n, h1) = settle-avoided (depth_of b sp.txid ≟ 0) _ _ refl v h in
      let (d, h2) = settle-passed (dec_le safety (depth_of b sp.txid)) _ _ refl v h1 in
      let (x, h3) = settle-passed (s.created.transaction_id ≟ sp.txid) _ _ refl v h2 in
      let (_, c, h4) =
        settle-bind
          (map_err (native_transitioned_invalid covenant) (validate_indexed_continuation s sp.txid))
          _ (map_err-IsRejecting _ (validate_indexed_continuation s sp.txid) (λ y. refl)) v h3 in
      let (_, p, h5) =
        settle-bind (check_policy sha256 b i chain safety covenant s e.latest_state) _
          (check_policy-IsRejecting sha256 b i chain safety covenant s e.latest_state) v h4 in
      (
        n,
        d,
        continuation_sound s sp.txid (map_err-eq-ok _ (validate_indexed_continuation s sp.txid) c),
        policy_sound s e.latest_state p,
        h5,
      )
