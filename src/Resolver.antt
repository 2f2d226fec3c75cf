-- ===== src/Resolver.antt =====
-- crates/rgk-resolver/src/lib.rs: from a covenant to a classified state. `resolve_by_covenant` is cut at its
-- numbered steps; an early return is an error of the step, and `settle` joins the two.
pub mod View
pub mod Settle
pub mod Sound
pub mod Valid
pub mod Accept
pub mod Stale
pub mod Names
use rgk.Prelude.{
  ℕ, zero, ◌≡◌, Bool, true, false, ◌&&◌, not, Option, none, some, List, [], ◌∷◌, ◌++◌, map, codes,
  Result, ok, err, map_err, ensure, reject, ok_or, ◌>>=◌, ◌>>◌, ◌≟◌, nat_eq, list_eq, bool_eq,
  dec_le, last, length, equals,
}
use rgk.Core.Bytes.{Bytes32, zero32}
use rgk.Core.Chain.{KaspaChainId, chain_eq}
use rgk.Core.Policy.{ReceiptPolicy, policy_eq}
use rgk.Core.Encoding.{to_le, decode_canonical}
use rgk.Core.Types.{KaspaOutpoint, RgkStateCommitment, RgkReceipt, PolicyMigrationProof}
use rgk.Core.Types.Wire.{receipt_canonical}
use rgk.Core.Commit.{policy_migration_commitment, receipt_commitment, domain_hash_str}
use rgk.Receipt.{
  ReceiptError, ReceiptReason, structural, decode_failure, replay, covenant_not_indexed,
  missing_continuation_proof, missing_commitment, missing_shape_root, missing_transition,
  created_txid_mismatch, missing_policy_migration, migration_requires_continuation,
  migration_previous_policy, migration_new_policy, migration_latest_policy,
  migration_previous_digest, migration_new_digest, migration_transition, migration_authorization,
  migration_commitment, migration_unchanged_policy, no_receipt_in_history, no_new_outpoint,
  verify_local,
}
use rgk.Indexer.Records.{
  ContinuationProof, AllocationAuditCertificateRecord, SpendEntry, IndexedCovenant, IndexedLane,
}
use rgk.Kaspa.{
  KaspaNetworkError, classify, ResolverClassify, is_node_down, is_rpc_failure, is_pruned,
  SpendingInfo, KaspaUtxo, KaspaChainBackend,
}

-- The lookups of the trait `Indexer` that the resolver calls.
pub record Indexer : Type 0 where
  pub lookup : Bytes32 → Option IndexedCovenant
  pub latest_state : Bytes32 → Option RgkStateCommitment
  pub open_outpoint : Bytes32 → Option KaspaOutpoint
  pub has_replay : Bytes32 → Bytes32 → Bool
  pub list : List Bytes32
  pub lane_by_id : Bytes32 → Option IndexedLane
  pub lane_by_scan_tag : Bytes32 → Option IndexedLane
  pub public_lanes : Bytes32 → List IndexedLane

-- The text of `NodeDown`, by what it reports.
pub data NodeReason : Type 0 where
  backend_on : KaspaChainId → KaspaChainId → NodeReason
  backend_error : KaspaNetworkError → NodeReason

-- The fields of `NativeTransitionedValid`, less the covenant.
pub record ValidTransition : Type 0 where
  pub spent_outpoint : KaspaOutpoint
  pub new_outpoint : KaspaOutpoint
  pub receipt_id : Bytes32
  pub new_state : RgkStateCommitment
  pub allocation_audit_certificate : Option AllocationAuditCertificateRecord
  pub confirmation_depth : ℕ

-- Every state starts with its covenant.
pub data ResolverState : Type 0 where
  still_open : Bytes32 → KaspaOutpoint → RgkStateCommitment → ResolverState
  native_transitioned_valid : Bytes32 → ValidTransition → ResolverState
  native_transitioned_invalid : Bytes32 → ReceiptError → ResolverState
  unconfirmed : Bytes32 → Bytes32 → ResolverState
  reorg_risk : Bytes32 → ℕ → ResolverState
  competing_branch : Bytes32 → KaspaOutpoint → Bytes32 → Bytes32 → Option ℕ → ResolverState
  policy_migration_required : Bytes32 → ReceiptPolicy → ReceiptPolicy → ResolverState
  replay_rejected : Bytes32 → Bytes32 → ResolverState
  unknown : Bytes32 → ResolverState
  node_down : Bytes32 → NodeReason → ResolverState

-- `ResolverState::covenant`
unfoldable pub covenant_of : ResolverState → Bytes32
covenant_of (still_open c _ _) = c
covenant_of (native_transitioned_valid c _) = c
covenant_of (native_transitioned_invalid c _) = c
covenant_of (unconfirmed c _) = c
covenant_of (reorg_risk c _) = c
covenant_of (competing_branch c _ _ _ _) = c
covenant_of (policy_migration_required c _ _) = c
covenant_of (replay_rejected c _) = c
covenant_of (unknown c) = c
covenant_of (node_down c _) = c

pub data LaneResolverState : Type 0 where
  lane_resolved : IndexedLane → ResolverState → LaneResolverState
  unknown_lane unknown_scan_tag : Bytes32 → LaneResolverState

pub data TransitionResolverState : Type 0 where
  transition_resolved : Bytes32 → Bytes32 → Bytes32 → ResolverState → TransitionResolverState
  unknown_transition : Bytes32 → TransitionResolverState

unfoldable pub validate_indexed_continuation : SpendEntry → Bytes32 → Result ReceiptError (Unit {0})
validate_indexed_continuation s observed = do
  proof ← ok_or s.continuation (structural missing_continuation_proof)
  reject (proof.commitment ≟ zero32) (structural missing_commitment)
  reject (proof.shape_root ≟ zero32) (structural missing_shape_root)
  reject (proof.transition_digest ≟ zero32) (structural missing_transition)
  ensure (s.created.transaction_id ≟ observed) (structural created_txid_mismatch)
  ok tt

unfoldable pub validate_indexed_policy_migration :
    (List ℕ → Bytes32) → SpendEntry → RgkStateCommitment → Result ReceiptError (Unit {0})
validate_indexed_policy_migration sha256 s latest = do
  p ← ok_or s.policy_migration (structural missing_policy_migration)
  c ← ok_or s.continuation (structural migration_requires_continuation)
  ensure (p.previous_policy ≟ s.previous_receipt_policy) (structural migration_previous_policy)
  ensure (p.new_policy ≟ s.new_receipt_policy) (structural migration_new_policy)
  ensure (p.new_policy ≟ latest.receipt_policy) (structural migration_latest_policy)
  ensure (p.previous_state_digest ≟ s.new_state_digest) (structural migration_previous_digest)
  ensure (p.new_state_digest ≟ s.resulting_state_digest) (structural migration_new_digest)
  ensure (p.new_state_digest ≟ latest.state_digest) (structural migration_new_digest)
  ensure (p.transition_digest ≟ c.transition_digest) (structural migration_transition)
  reject (p.authorization_commitment ≟ zero32) (structural migration_authorization)
  ensure
      (p.migration_commitment
        ≟ policy_migration_commitment sha256 p.previous_policy p.new_policy p.previous_state_digest
            p.new_state_digest p.transition_digest p.authorization_commitment)
      (structural migration_commitment)
  ok tt

-- `and_then(|e| e.spend_history.last().cloned())`
unfoldable pub last_spend : Option IndexedCovenant → Option SpendEntry
last_spend none = none
last_spend (some e) = last e.spend_history

-- An early return and a final value are both results.
unfoldable pub settle : Result ResolverState ResolverState → ResolverState
settle (ok s) = s
settle (err s) = s

unfoldable pub or_zero : Option ℕ → ℕ
or_zero none = 0
or_zero (some n) = n

-- `confirmation_depth(txid).ok().flatten().unwrap_or(0)`
unfoldable pub depth_of : KaspaChainBackend → Bytes32 → ℕ
unfolding or_zero
depth_of b txid = elim (b.confirmation_depth txid) [ err _ ↦ 0 | ok d ↦ or_zero d ]

module _ (sha256 : List ℕ → Bytes32) (b : KaspaChainBackend) (i : Indexer) (chain : KaspaChainId)
    (safety : ℕ) where
  -- The backend must be on the verifier's chain.
  unfoldable pub check_network : Bytes32 → Result ResolverState (Unit {0})
  check_network covenant = do
    net ← map_err (λ e. node_down covenant (backend_error e)) b.network_id
    ensure (net ≟ chain) (node_down covenant (backend_on net chain))

  -- What step 2 makes of an error: down, pruned, or as if there were no output.
  unfoldable pub spent_error :
      Bytes32 → KaspaNetworkError → ResolverClassify → Result ResolverState (Option KaspaUtxo)
  spent_error covenant e is_node_down = err (node_down covenant (backend_error e))
  spent_error covenant e is_rpc_failure = err (node_down covenant (backend_error e))
  spent_error covenant e is_pruned = err (unknown covenant)
  spent_error covenant e _ = ok none

  unfoldable pub fetch_spent : Bytes32 → KaspaOutpoint → Result ResolverState (Option KaspaUtxo)
  unfolding spent_error classify
  fetch_spent covenant o = elim (b.get_utxo o) [
    | ok u ↦ ok u
    | err e ↦ spent_error covenant e (classify e)
  ]

  -- What step 3 makes of an error.
  unfoldable pub open_error :
      Bytes32 → KaspaNetworkError → ResolverClassify → Result ResolverState KaspaUtxo
  open_error covenant e is_node_down = err (node_down covenant (backend_error e))
  open_error covenant e is_rpc_failure = err (node_down covenant (backend_error e))
  open_error covenant e _ = err (unknown covenant)

  unfoldable pub fetch_open : Bytes32 → KaspaOutpoint → Result ResolverState KaspaUtxo
  unfolding open_error classify
  fetch_open covenant o = elim (b.get_utxo o) [
    | ok (some u) ↦ ok u
    | ok none ↦ err (unknown covenant)
    | err e ↦ open_error covenant e (classify e)
  ]

  -- The policy branches of step 2.
  unfoldable pub check_policy :
      Bytes32 → SpendEntry → RgkStateCommitment → Result ResolverState (Unit {0})
  unfolding validate_indexed_policy_migration
  check_policy covenant s latest = elim (s.previous_receipt_policy ≟ latest.receipt_policy) [
    | yes _ ↦ elim s.policy_migration [
      | none ↦ ok tt
      | some _ ↦ err (native_transitioned_invalid covenant (structural migration_unchanged_policy))
    ]
    | no _ ↦ elim s.policy_migration [
      | none ↦
          err (policy_migration_required covenant s.previous_receipt_policy latest.receipt_policy)
      | some _ ↦
          map_err (native_transitioned_invalid covenant)
            (validate_indexed_policy_migration sha256 s latest)
    ]
  ]

  -- Step 2, for the spend that the chain shows of the outpoint that the last indexed transition consumed.
  unfoldable pub judge_spend :
      Bytes32 → IndexedCovenant → SpendEntry → SpendingInfo → Result ResolverState ResolverState
  unfolding depth_of check_policy validate_indexed_continuation
  judge_spend covenant e s sp = do
    reject (depth_of b sp.txid ≟ 0) (unconfirmed covenant sp.txid)
    ensure (dec_le safety (depth_of b sp.txid)) (reorg_risk covenant (or_zero sp.block_daa_score))
    ensure (s.created.transaction_id ≟ sp.txid)
        (competing_branch covenant s.spent s.created.transaction_id sp.txid sp.block_daa_score)
    map_err (native_transitioned_invalid covenant) (validate_indexed_continuation s sp.txid)
    check_policy covenant s e.latest_state
    ok (
        native_transitioned_valid covenant (record {
          spent_outpoint = s.spent;
          new_outpoint = s.created;
          receipt_id = s.receipt_id;
          new_state = e.latest_state;
          allocation_audit_certificate = s.allocation_audit_certificate;
          confirmation_depth = depth_of b sp.txid;
        }))

  -- Step 4, for a spend of the open outpoint; the indexer is asked again.
  unfoldable pub judge_open_spend :
      Bytes32 → KaspaOutpoint → SpendingInfo → Result ResolverState ResolverState
  unfolding depth_of last_spend
  judge_open_spend covenant o sp = do
    reject (depth_of b sp.txid ≟ 0) (unconfirmed covenant sp.txid)
    ensure (dec_le safety (depth_of b sp.txid)) (reorg_risk covenant (or_zero sp.block_daa_score))
    latest ← ok_or (i.latest_state covenant) (unknown covenant)
    s ←
        ok_or (last_spend (i.lookup covenant))
          (native_transitioned_invalid covenant (structural no_receipt_in_history))
    new_out ←
        ok_or (i.open_outpoint covenant)
          (native_transitioned_invalid covenant (structural no_new_outpoint))
    ok (
        native_transitioned_valid covenant (record {
          spent_outpoint = o;
          new_outpoint = new_out;
          receipt_id = s.receipt_id;
          new_state = latest;
          allocation_audit_certificate = s.allocation_audit_certificate;
          confirmation_depth = depth_of b sp.txid;
        }))

  -- Steps 3 and 4.
  unfoldable pub resolve_open :
      Bytes32 → IndexedCovenant → KaspaOutpoint → Result ResolverState ResolverState
  unfolding fetch_open judge_open_spend
  resolve_open covenant e o = do
    u ← fetch_open covenant o
    elim u.spending [
      | none ↦ ok (still_open covenant o e.latest_state)
      | some sp ↦ judge_open_spend covenant o sp
    ]

  -- Step 2: an output that is not found, or not spent, leads on to step 3.
  unfoldable pub judge_found :
      Bytes32
      → IndexedCovenant
      → KaspaOutpoint
      → SpendEntry
      → Option KaspaUtxo
      → Result ResolverState ResolverState
  unfolding judge_spend resolve_open
  judge_found covenant e o s none = resolve_open covenant e o
  judge_found covenant e o s (some u) = elim u.spending [
    | none ↦ resolve_open covenant e o
    | some sp ↦ judge_spend covenant e s sp
  ]

  unfoldable pub resolve_indexed :
      Bytes32
      → IndexedCovenant
      → KaspaOutpoint
      → Option SpendEntry
      → Result ResolverState ResolverState
  unfolding fetch_spent judge_found resolve_open
  resolve_indexed covenant e o none = resolve_open covenant e o
  resolve_indexed covenant e o (some s) = do
    found ← fetch_spent covenant s.spent
    judge_found covenant e o s found

  -- The steps in order.
  unfoldable pub resolve_steps : Bytes32 → Result ResolverState ResolverState
  unfolding check_network resolve_indexed
  resolve_steps covenant = do
    check_network covenant
    e ← ok_or (i.lookup covenant) (unknown covenant)
    o ← ok_or e.open_outpoint (unknown covenant)
    resolve_indexed covenant e o (last e.spend_history)

  unfoldable pub resolve_by_covenant : Bytes32 → ResolverState
  unfolding resolve_steps settle
  resolve_by_covenant covenant = settle (resolve_steps covenant)
