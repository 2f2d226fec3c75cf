-- ===== src/Indexer/Records.antt =====
-- The records and errors of crates/rgk-indexer/src/lib.rs. `u64` values are plain numbers; the messages
-- of the errors that carry a text are constructors.
use rgk.Prelude.{ℕ, Bool, Option, some, List, [], PartialEq}
use rgk.Core.Error.{DecodeError}
use rgk.Core.Bytes.{Bytes32}
use rgk.Core.Chain.{KaspaChainId}
use rgk.Core.Policy.{ReceiptPolicy}
use rgk.Core.Types.{KaspaOutpoint, RgkStateCommitment, PolicyMigrationProof, Bytes32-discrete}

pub data InvariantReason : Type 0 where
  state_covenant_mismatch state_asset_mismatch open_outpoint_mismatch : InvariantReason
  state_did_not_advance history_shorter_than_depth cursor_name_empty : InvariantReason
  cursor_name_too_long no_open_outpoint checkpoint_covenant_mismatch : InvariantReason
  different_asset different_policy checkpoint_outpoint_mismatch : InvariantReason
  checkpoint_state_mismatch checkpoint_daa_mismatch receipts_without_history : InvariantReason
  history_not_from_checkpoint history_digest_mismatch : InvariantReason
  spend_covenant_mismatch spend_changes_asset spend_changes_policy : InvariantReason

pub data ContinuationReason : Type 0 where
  missing_commitment missing_shape_root missing_transition : ContinuationReason

pub data MigrationReason : Type 0 where
  unchanged_policy previous_policy_mismatch new_policy_mismatch : MigrationReason
  previous_digest_mismatch new_digest_mismatch transition_mismatch : MigrationReason
  missing_authorization commitment_mismatch requires_continuation : MigrationReason

pub data CertificateReason : Type 0 where
  missing_id bad_magic id_mismatch replaces_existing : CertificateReason
  too_long too_short : ℕ → CertificateReason

pub data LaneReason : Type 0 where
  zero_lane_id zero_digest zero_scan_tag covenant_differs asset_differs digest_differs : LaneReason
  daa_differs : LaneReason

-- The texts of `IndexerError::Storage`: an error of the database, or a record that cannot be read.
pub data StorageReason : Type 0 where
  -- The text of an error of the database.
  database : List ℕ → StorageReason
  corrupt : DecodeError → StorageReason
  bad_indexer_magic bad_lane_magic bad_observed_magic bad_cursor_magic : StorageReason
  migration_without_continuation state_key_mismatch : StorageReason
  bad_lane_id bad_lane_state_digest bad_lane_scan_tag : StorageReason

pub data IndexerError : Type 0 where
  not_indexed already_indexed : Bytes32 → IndexerError
  chain_mismatch : KaspaChainId → KaspaChainId → IndexerError
  lineage_mismatch : Bytes32 → Bytes32 → IndexerError
  replay : Bytes32 → IndexerError
  no_history open_outpoint_set : IndexerError
  rollback_too_deep : ℕ → ℕ → IndexerError
  continuation_incomplete : ContinuationReason → IndexerError
  migration_invalid : MigrationReason → IndexerError
  certificate_invalid : CertificateReason → IndexerError
  lane_invariant : LaneReason → IndexerError
  spend_receipt_not_indexed : Bytes32 → Bytes32 → IndexerError
  -- The text of an error of the source.
  rebuild_source : List ℕ → IndexerError
  rebuild_spend_missing : KaspaOutpoint → IndexerError
  rebuild_tx_mismatch : KaspaOutpoint → Bytes32 → Bytes32 → IndexerError
  rebuild_missing_daa_score : Bytes32 → IndexerError
  rebuild_insufficient_confirmations : Bytes32 → ℕ → Option ℕ → IndexerError
  invariant : InvariantReason → IndexerError
  storage : StorageReason → IndexerError

pub record ContinuationProof : Type 0 where
  pub commitment : Bytes32
  pub shape_root : Bytes32
  pub transition_digest : Bytes32

pub record AllocationAuditCertificateRecord : Type 0 where
  pub certificate_id : Bytes32
  pub canonical_bytes : List ℕ

pub CertificateRecord-discrete : Discrete AllocationAuditCertificateRecord
CertificateRecord-discrete = hlevel Bytes32-discrete

instance abbrev pub certificate_eq : PartialEq AllocationAuditCertificateRecord
certificate_eq = record { dec_eq = CertificateRecord-discrete }

pub record SpendEntry : Type 0 where
  pub daa_score : ℕ
  pub spent : KaspaOutpoint
  pub created : KaspaOutpoint
  pub new_state_digest : Bytes32
  pub resulting_state_digest : Bytes32
  pub previous_receipt_policy : ReceiptPolicy
  pub new_receipt_policy : ReceiptPolicy
  pub receipt_id : Bytes32
  pub continuation : Option ContinuationProof
  pub policy_migration : Option PolicyMigrationProof
  pub allocation_audit_certificate : Option AllocationAuditCertificateRecord

pub record IndexedCovenant : Type 0 where
  pub covenant_id : Bytes32
  pub lineage_id : Bytes32
  pub chain_id : KaspaChainId
  pub open_outpoint : Option KaspaOutpoint
  pub latest_state : RgkStateCommitment
  pub accepted_receipts : List Bytes32
  pub spend_history : List SpendEntry
  pub last_update_daa_score : ℕ

pub record IndexedLane : Type 0 where
  pub chain_id : KaspaChainId
  pub covenant_id : Bytes32
  pub asset_id : Bytes32
  pub lane_id : Bytes32
  pub epoch : ℕ
  pub scan_tag : Option Bytes32
  pub public_lineage : Bool
  pub state_digest : Bytes32
  pub last_update_daa_score : ℕ

pub record ScanCursor : Type 0 where
  pub chain_id : KaspaChainId
  pub block_hash : Bytes32
  pub daa_score : ℕ

pub record ObservedSpendRecord : Type 0 where
  pub spent : KaspaOutpoint
  pub spending_txid : Bytes32
  pub input_index : ℕ
  pub block_daa_score : Option ℕ

-- `IndexedCovenant::opened`
unfoldable pub opened :
    Bytes32 → KaspaChainId → Bytes32 → RgkStateCommitment → KaspaOutpoint → ℕ → IndexedCovenant
opened covenant chain lineage state outpoint daa = record {
  covenant_id = covenant;
  lineage_id = lineage;
  chain_id = chain;
  open_outpoint = some outpoint;
  latest_state = state;
  accepted_receipts = [];
  spend_history = [];
  last_update_daa_score = daa;
}
