-- ===== src/Indexer/Store/Decode.antt =====
-- The decoders of the store's records.
use rgk.Prelude.{
  ℕ, Bool, true, false, Option, none, some, List, Result, ok, err, ensure, reject, ◌≟◌, list_eq,
  nat_eq, option_eq, if◌then◌else◌,
}
use rgk.Prelude.Results
use rgk.Core.Bytes.{Bytes32, zero32}
use rgk.Core.Chain.{decode_chain, chain_eq}
use rgk.Core.Policy.{ReceiptPolicy, decode_policy}
use rgk.Core.Encoding.{
  Reader, reader, read_array, read_u32, read_u64, read_bool, read_blob, ensure_consumed,
}
use rgk.Core.Types.{PolicyMigrationProof}
use rgk.Core.Types.Wire.{decode_outpoint, decode_state}
use rgk.Indexer.Records.{
  IndexerError, storage, corrupt, bad_indexer_magic, bad_lane_magic, bad_observed_magic,
  bad_cursor_magic, migration_without_continuation, state_key_mismatch, bad_lane_id,
  bad_lane_state_digest, bad_lane_scan_tag, ContinuationProof, AllocationAuditCertificateRecord,
  SpendEntry, IndexedCovenant, IndexedLane, ScanCursor, ObservedSpendRecord,
}
use rgk.Indexer.Entry.{
  validate_continuation_proof, validate_policy_migration_proof, validate_certificate,
}
use rgk.Indexer.Store.Scan.{Scan, ◌>>=◌, ◌>>◌, pure, read, optional, read_list}
use rgk.Indexer.Store.{
  indexed_covenant_magic, indexed_covenant_magic_v2, indexed_lane_magic, observed_spend_magic,
  scan_cursor_magic,
}

unfoldable pub decode_continuation : Scan ContinuationProof
decode_continuation = do
  commitment ← read (read_array 32)
  shape_root ← read (read_array 32)
  transition_digest ← read (read_array 32)
  let proof : ContinuationProof = record {
    commitment = commitment;
    shape_root = shape_root;
    transition_digest = transition_digest;
  }
  validate_continuation_proof proof
  pure proof

unfoldable pub decode_migration : Scan PolicyMigrationProof
decode_migration = do
  previous_policy ← read decode_policy
  new_policy ← read decode_policy
  previous_state_digest ← read (read_array 32)
  new_state_digest ← read (read_array 32)
  transition_digest ← read (read_array 32)
  authorization_commitment ← read (read_array 32)
  migration_commitment ← read (read_array 32)
  pure (record {
    previous_policy = previous_policy;
    new_policy = new_policy;
    previous_state_digest = previous_state_digest;
    new_state_digest = new_state_digest;
    transition_digest = transition_digest;
    authorization_commitment = authorization_commitment;
    migration_commitment = migration_commitment;
  })

-- `decode_allocation_audit_certificate_record`
unfoldable pub decode_certificate : Scan AllocationAuditCertificateRecord
decode_certificate = do
  certificate_id ← read (read_array 32)
  canonical_bytes ← read read_blob
  let record_ : AllocationAuditCertificateRecord = record {
    certificate_id = certificate_id;
    canonical_bytes = canonical_bytes;
  }
  validate_certificate record_
  pure record_

module _ (sha256 : List ℕ → Bytes32) where
  -- `if let Some(proof) = &policy_migration { .. }`
  unfoldable pub check_stored_migration :
      Option PolicyMigrationProof
      → Option ContinuationProof
      → ReceiptPolicy
      → ReceiptPolicy
      → Bytes32
      → Bytes32
      → Result IndexerError (Unit {0})
  check_stored_migration none continuation previous new previous_digest new_digest = ok tt
  check_stored_migration (some p) none previous new previous_digest new_digest =
      err (storage migration_without_continuation)
  check_stored_migration (some p) (some c) previous new previous_digest new_digest =
      validate_policy_migration_proof sha256 p previous new previous_digest new_digest
        c.transition_digest

  -- One turn of the loop over the history; the second version of the format had no certificates.
  unfoldable pub decode_spend : Bool → Scan SpendEntry
  unfolding check_stored_migration
  decode_spend has_certificate_field = do
    daa_score ← read read_u64
    spent ← read decode_outpoint
    created ← read decode_outpoint
    new_state_digest ← read (read_array 32)
    resulting_state_digest ← read (read_array 32)
    previous_receipt_policy ← read decode_policy
    new_receipt_policy ← read decode_policy
    receipt_id ← read (read_array 32)
    continuation ← optional decode_continuation
    policy_migration ← optional decode_migration
    check_stored_migration policy_migration continuation previous_receipt_policy new_receipt_policy
        new_state_digest resulting_state_digest
    certificate ← if has_certificate_field then optional decode_certificate else pure none
    pure (record {
      daa_score = daa_score;
      spent = spent;
      created = created;
      new_state_digest = new_state_digest;
      resulting_state_digest = resulting_state_digest;
      previous_receipt_policy = previous_receipt_policy;
      new_receipt_policy = new_receipt_policy;
      receipt_id = receipt_id;
      continuation = continuation;
      policy_migration = policy_migration;
      allocation_audit_certificate = certificate;
    })

  -- The fields after the magic bytes.
  unfoldable pub decode_covenant_fields : Bool → Scan IndexedCovenant
  unfolding decode_spend
  decode_covenant_fields has_certificate_field = do
    covenant_id ← read (read_array 32)
    lineage_id ← read (read_array 32)
    chain_id ← read decode_chain
    open_outpoint ← optional (read decode_outpoint)
    latest_state ← read decode_state
    receipt_len ← read read_u32
    accepted_receipts ← read_list receipt_len (read (read_array 32))
    spend_len ← read read_u32
    spend_history ← read_list spend_len (decode_spend has_certificate_field)
    last_update_daa_score ← read read_u64
    pure (record {
      covenant_id = covenant_id;
      lineage_id = lineage_id;
      chain_id = chain_id;
      open_outpoint = open_outpoint;
      latest_state = latest_state;
      accepted_receipts = accepted_receipts;
      spend_history = spend_history;
      last_update_daa_score = last_update_daa_score;
    })

-- `ensure_consumed().map_err(decode_err)`
unfoldable pub finished : Reader → Result IndexerError (Unit {0})
unfolding ensure_consumed
finished r = elim (ensure_consumed r) [ err e ↦ err (storage (corrupt e)) | ok _ ↦ ok tt ]

unfoldable pub covenant_version : List ℕ → Result IndexerError Bool
covenant_version magic = elim (magic ≟ indexed_covenant_magic) [
  | yes _ ↦ ok true
  | no _ ↦ elim (magic ≟ indexed_covenant_magic_v2) [
    | yes _ ↦ ok false
    | no _ ↦ err (storage bad_indexer_magic)
  ]
]

unfoldable pub decode_indexed_covenant :
    (List ℕ → Bytes32) → List ℕ → Result IndexerError IndexedCovenant
unfolding finished covenant_version decode_covenant_fields
decode_indexed_covenant sha256 buf = Results.◌>>=◌ (read (read_array 8) (reader buf)) λ (magic, r).
    Results.◌>>=◌ (covenant_version magic) λ has_certificate_field.
      Results.◌>>=◌ (decode_covenant_fields sha256 has_certificate_field r) λ (e, r).
        Results.◌>>◌ (finished r) (
          Results.◌>>◌
            (ensure (e.latest_state.covenant_id ≟ e.covenant_id) (storage state_key_mismatch))
            (Results.◌>>◌
              (ensure (e.latest_state.chain_id ≟ e.chain_id) (storage state_key_mismatch)) (ok e)))

-- A record with one kind of magic bytes: the fields after them, the end of the buffer, and a last check.
unfoldable pub decode_stored :
    {A : Type 0}
    → List ℕ
    → IndexerError
    → Scan A
    → (A → Result IndexerError (Unit {0}))
    → List ℕ
    → Result IndexerError A
unfolding finished
decode_stored magic bad fields check buf =
    Results.◌>>=◌ (read (read_array 8) (reader buf)) λ (found, r).
      Results.◌>>◌ (ensure (found ≟ magic) bad) (
        Results.◌>>=◌ (fields r)
          λ (a, r). Results.◌>>◌ (finished r) (Results.◌>>◌ (check a) (ok a)))

unfoldable pub decode_lane_fields : Scan IndexedLane
decode_lane_fields = do
  chain_id ← read decode_chain
  covenant_id ← read (read_array 32)
  asset_id ← read (read_array 32)
  lane_id ← read (read_array 32)
  epoch ← read read_u64
  scan_tag ← optional (read (read_array 32))
  public_lineage ← read read_bool
  state_digest ← read (read_array 32)
  last_update_daa_score ← read read_u64
  pure (record {
    chain_id = chain_id;
    covenant_id = covenant_id;
    asset_id = asset_id;
    lane_id = lane_id;
    epoch = epoch;
    scan_tag = scan_tag;
    public_lineage = public_lineage;
    state_digest = state_digest;
    last_update_daa_score = last_update_daa_score;
  })

unfoldable pub check_stored_lane : IndexedLane → Result IndexerError (Unit {0})
check_stored_lane l = Results.◌>>◌ (reject (l.lane_id ≟ zero32) (storage bad_lane_id)) (
    Results.◌>>◌ (reject (l.state_digest ≟ zero32) (storage bad_lane_state_digest))
      (reject (l.scan_tag ≟ some zero32) (storage bad_lane_scan_tag)))

unfoldable pub decode_indexed_lane : List ℕ → Result IndexerError IndexedLane
unfolding decode_stored decode_lane_fields check_stored_lane
decode_indexed_lane =
    decode_stored indexed_lane_magic (storage bad_lane_magic) decode_lane_fields check_stored_lane

unfoldable pub decode_observed_fields : Scan ObservedSpendRecord
decode_observed_fields = do
  spent ← read decode_outpoint
  spending_txid ← read (read_array 32)
  input_index ← read read_u32
  block_daa_score ← optional (read read_u64)
  pure (record {
    spent = spent;
    spending_txid = spending_txid;
    input_index = input_index;
    block_daa_score = block_daa_score;
  })

unfoldable pub decode_observed_spend_record : List ℕ → Result IndexerError ObservedSpendRecord
unfolding decode_stored decode_observed_fields
decode_observed_spend_record =
    decode_stored observed_spend_magic (storage bad_observed_magic) decode_observed_fields
      λ _. ok tt

unfoldable pub decode_cursor_fields : Scan ScanCursor
decode_cursor_fields = do
  chain_id ← read decode_chain
  block_hash ← read (read_array 32)
  daa_score ← read read_u64
  pure (record { chain_id = chain_id; block_hash = block_hash; daa_score = daa_score })

unfoldable pub decode_scan_cursor : List ℕ → Result IndexerError ScanCursor
unfolding decode_stored decode_cursor_fields
decode_scan_cursor =
    decode_stored scan_cursor_magic (storage bad_cursor_magic) decode_cursor_fields λ _. ok tt
