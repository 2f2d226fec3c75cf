-- ===== src/Indexer/Entry.antt =====
-- What happens to one covenant's entry: spends, rollback, certificates. An operation that fails has
-- changed nothing, so it returns the new entry or an error.
pub mod Apply
pub mod Replay
pub mod Lineage
pub mod Rollback
pub mod Certificates
use rgk.Prelude.{
  ℕ, zero, suc, ◌+◌, ◌-◌, ◌≤◌, ◌^◌, ◌≡◌, Bool, true, false, Option, none, some, List, [], ◌∷◌, ◌++◌,
  codes, take, drop, length, Result, ok, err, ensure, reject, ok_or, ◌>>=◌, ◌>>◌, ◌≟◌, nat_eq,
  list_eq, option_eq, bool_eq, contains, pop, drop_last, dec_le,
}
use rgk.Core.Bytes.{Bytes32, zero32}
use rgk.Core.Chain.{chain_eq}
use rgk.Core.Policy.{ReceiptPolicy, policy_eq}
use rgk.Core.Encoding.{max_blob_bytes}
use rgk.Core.Types.{KaspaOutpoint, RgkStateCommitment, PolicyMigrationProof, outpoint_eq}
use rgk.Core.Commit.{policy_migration_commitment}
use rgk.Indexer.Records.{
  IndexerError, chain_mismatch, replay, rollback_too_deep, continuation_incomplete,
  migration_invalid, certificate_invalid, spend_receipt_not_indexed, invariant, InvariantReason,
  state_covenant_mismatch, state_asset_mismatch, open_outpoint_mismatch, state_did_not_advance,
  history_shorter_than_depth, missing_commitment, missing_shape_root, missing_transition,
  unchanged_policy, previous_policy_mismatch, new_policy_mismatch, previous_digest_mismatch,
  new_digest_mismatch, transition_mismatch, missing_authorization, commitment_mismatch,
  requires_continuation, missing_id, bad_magic, id_mismatch, replaces_existing, too_long, too_short,
  ContinuationProof, AllocationAuditCertificateRecord, certificate_eq, SpendEntry, IndexedCovenant,
}

unfoldable pub validate_continuation_proof : ContinuationProof → Result IndexerError (Unit {0})
validate_continuation_proof p = do
  reject (p.commitment ≟ zero32) (continuation_incomplete missing_commitment)
  reject (p.shape_root ≟ zero32) (continuation_incomplete missing_shape_root)
  reject (p.transition_digest ≟ zero32) (continuation_incomplete missing_transition)
  ok tt

-- `if let Some(proof) = &continuation { ... }`
unfoldable pub check_continuation : Option ContinuationProof → Result IndexerError (Unit {0})
unfolding validate_continuation_proof
check_continuation none = ok tt
check_continuation (some p) = validate_continuation_proof p

module _ (sha256 : List ℕ → Bytes32) where
  unfoldable pub validate_policy_migration_proof :
      PolicyMigrationProof
      → ReceiptPolicy
      → ReceiptPolicy
      → Bytes32
      → Bytes32
      → Bytes32
      → Result IndexerError (Unit {0})
  validate_policy_migration_proof p previous new previous_digest new_digest transition = do
    reject (previous ≟ new) (migration_invalid unchanged_policy)
    ensure (p.previous_policy ≟ previous) (migration_invalid previous_policy_mismatch)
    ensure (p.new_policy ≟ new) (migration_invalid new_policy_mismatch)
    ensure (p.previous_state_digest ≟ previous_digest) (migration_invalid previous_digest_mismatch)
    ensure (p.new_state_digest ≟ new_digest) (migration_invalid new_digest_mismatch)
    ensure (p.transition_digest ≟ transition) (migration_invalid transition_mismatch)
    reject (p.authorization_commitment ≟ zero32) (migration_invalid missing_authorization)
    ensure
        (p.migration_commitment
          ≟ policy_migration_commitment sha256 p.previous_policy p.new_policy
              p.previous_state_digest p.new_state_digest p.transition_digest
              p.authorization_commitment)
        (migration_invalid commitment_mismatch)
    ok tt

  -- `if let Some(proof) = &policy_migration { ... }`
  unfoldable pub check_migration :
      Option PolicyMigrationProof
      → Option ContinuationProof
      → ReceiptPolicy
      → ReceiptPolicy
      → Bytes32
      → Bytes32
      → Result IndexerError (Unit {0})
  unfolding validate_policy_migration_proof
  check_migration none continuation previous new previous_digest new_digest = ok tt
  check_migration (some p) none previous new previous_digest new_digest =
      err (migration_invalid requires_continuation)
  check_migration (some p) (some c) previous new previous_digest new_digest =
      validate_policy_migration_proof p previous new previous_digest new_digest c.transition_digest

-- What a spend brings.
pub record Spend : Type 0 where
  pub receipt_id : Bytes32
  pub spent : KaspaOutpoint
  pub new_outpoint : KaspaOutpoint
  pub new_state : RgkStateCommitment
  pub daa_score : ℕ
  pub continuation : Option ContinuationProof
  pub policy_migration : Option PolicyMigrationProof

-- The history entry of a spend.
unfoldable pub spend_entry : IndexedCovenant → Spend → SpendEntry
spend_entry e s = record {
  daa_score = s.daa_score;
  spent = s.spent;
  created = s.new_outpoint;
  new_state_digest = e.latest_state.state_digest;
  resulting_state_digest = s.new_state.state_digest;
  previous_receipt_policy = e.latest_state.receipt_policy;
  new_receipt_policy = s.new_state.receipt_policy;
  receipt_id = s.receipt_id;
  continuation = s.continuation;
  policy_migration = s.policy_migration;
  allocation_audit_certificate = none;
}

-- The assignments at the end of `apply_spend_to_entry`.
unfoldable pub advance_entry : IndexedCovenant → Spend → IndexedCovenant
unfolding spend_entry
advance_entry e s = record e {
  open_outpoint = some s.new_outpoint;
  latest_state = s.new_state;
  last_update_daa_score = s.daa_score;
  accepted_receipts = e.accepted_receipts ++ (s.receipt_id ∷ []);
  spend_history = e.spend_history ++ (spend_entry e s ∷ []);
}

module _ (sha256 : List ℕ → Bytes32) where
  unfoldable pub apply_spend_to_entry :
      IndexedCovenant → Spend → Result IndexerError IndexedCovenant
  unfolding advance_entry
  apply_spend_to_entry e s = do
    check_continuation s.continuation
    ensure (contains e.accepted_receipts s.receipt_id ≟ false) (replay s.receipt_id)
    ensure (e.chain_id ≟ s.new_state.chain_id) (chain_mismatch e.chain_id s.new_state.chain_id)
    ensure (e.covenant_id ≟ s.new_state.covenant_id) (invariant state_covenant_mismatch)
    ensure (e.latest_state.asset_id ≟ s.new_state.asset_id) (invariant state_asset_mismatch)
    ensure (e.open_outpoint ≟ some s.spent) (invariant open_outpoint_mismatch)
    reject (e.latest_state.state_digest ≟ s.new_state.state_digest)
        (invariant state_did_not_advance)
    check_migration sha256 s.policy_migration s.continuation e.latest_state.receipt_policy
        s.new_state.receipt_policy e.latest_state.state_digest s.new_state.state_digest
    ok (advance_entry e s)

-- The entry after the loop of `rollback` has popped the history entry `last`.
unfoldable pub revert_entry : IndexedCovenant → List SpendEntry → SpendEntry → IndexedCovenant
revert_entry e rest last = record e {
  open_outpoint = some last.spent;
  latest_state = record e.latest_state {
    state_digest = last.new_state_digest;
    receipt_policy = last.previous_receipt_policy;
  };
  accepted_receipts = drop_last e.accepted_receipts;
  spend_history = rest;
  last_update_daa_score = last.daa_score - 1;
}

-- The loop of `rollback`.
unfoldable pub rollback_loop : ℕ → IndexedCovenant → Result IndexerError IndexedCovenant
unfolding revert_entry
rollback_loop zero e = ok e
rollback_loop (suc n) e = elim (pop e.spend_history) [
  | none ↦ err (invariant history_shorter_than_depth)
  | some (rest, last) ↦ rollback_loop n (revert_entry e rest last)
]

unfoldable pub rollback_entry : ℕ → IndexedCovenant → Result IndexerError IndexedCovenant
rollback_entry depth e = do
  ensure (dec_le depth (length e.spend_history)) (rollback_too_deep depth (length e.spend_history))
  rollback_loop depth e

-- `b"rgk:aac1"`
abbrev pub certificate_magic : List ℕ
certificate_magic = codes "rgk:aac1"

unfoldable pub validate_certificate :
    AllocationAuditCertificateRecord → Result IndexerError (Unit {0})
validate_certificate c = do
  reject (c.certificate_id ≟ zero32) (certificate_invalid missing_id)
  ensure (dec_le (length c.canonical_bytes) max_blob_bytes)
      (certificate_invalid (too_long (length c.canonical_bytes)))
  ensure (dec_le 41 (length c.canonical_bytes))
      (certificate_invalid (too_short (length c.canonical_bytes)))
  ensure (take 8 c.canonical_bytes ≟ certificate_magic) (certificate_invalid bad_magic)
  ensure (take 32 (drop 8 c.canonical_bytes) ≟ c.certificate_id) (certificate_invalid id_mismatch)
  ok tt

-- The history with the certificate set on the first spend of the receipt.
unfoldable pub attach :
    Bytes32
    → AllocationAuditCertificateRecord
    → Bytes32
    → List SpendEntry
    → Result IndexerError (List SpendEntry)
attach id c covenant [] = err (spend_receipt_not_indexed covenant id)
attach id c covenant (s ∷ ss) =
    let rest = attach id c covenant ss in
    elim (s.receipt_id ≟ id) [
      | no _ ↦ (do ss' ← rest; ok (s ∷ ss'))
      | yes _ ↦ elim s.allocation_audit_certificate [
        | none ↦ ok (record s { allocation_audit_certificate = some c } ∷ ss)
        | some old ↦ (do ensure (old ≟ c) (certificate_invalid replaces_existing); ok (s ∷ ss))
      ]
    ]

-- `record_allocation_audit_certificate_on_entry`
unfoldable pub record_certificate :
    Bytes32
    → AllocationAuditCertificateRecord
    → IndexedCovenant
    → Result IndexerError IndexedCovenant
unfolding validate_certificate attach
record_certificate id c e = do
  validate_certificate c
  history ← attach id c e.covenant_id e.spend_history
  ok (record e { spend_history = history })

-- The certificate that the history holds for a receipt: that of the first spend with its id.
unfoldable pub certificate_of : Bytes32 → List SpendEntry → Option AllocationAuditCertificateRecord
certificate_of id [] = none
certificate_of id (s ∷ ss) = elim (s.receipt_id ≟ id) [
  | yes _ ↦ s.allocation_audit_certificate
  | no _ ↦ certificate_of id ss
]
