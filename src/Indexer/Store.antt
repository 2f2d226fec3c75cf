-- ===== src/Indexer/Store.antt =====
-- The records of the persistent store in crates/rgk-indexer/src/lib.rs: how entries, lanes, observed spends and
-- scan cursors are written as bytes. `Decode` reads them.
pub mod Scan
pub mod Decode
pub mod Fields
pub mod Spends
pub mod Covenants
pub mod Others
use rgk.Prelude.{
  ℕ, ◌%◌, ◌^◌, Bool, true, false, Option, none, some, List, [], ◌∷◌, length, codes, ◌++◌, Result,
  ok, ◌>>=◌, ◌>>◌,
}
use rgk.Core.Bytes.{Bytes32}
use rgk.Core.Chain.{encode_chain}
use rgk.Core.Policy.{encode_policy}
use rgk.Core.Encoding.{Writer, ◌▸◌, write_u32, write_u64, write_bytes, write_blob, write_bool}
use rgk.Core.Types.{KaspaOutpoint, PolicyMigrationProof}
use rgk.Core.Types.Wire.{encode_outpoint, encode_state}
use rgk.Indexer.Records.{
  IndexerError, ContinuationProof, AllocationAuditCertificateRecord, SpendEntry, IndexedCovenant,
  IndexedLane, ScanCursor, ObservedSpendRecord,
}
use rgk.Indexer.Entry.{validate_certificate}

-- The magic bytes of the kinds of record.
abbrev pub indexed_covenant_magic : List ℕ
indexed_covenant_magic = codes "rgkidx3" ++ (0 ∷ [])

abbrev pub indexed_covenant_magic_v2 : List ℕ
indexed_covenant_magic_v2 = codes "rgkidx2" ++ (0 ∷ [])

abbrev pub scan_cursor_magic : List ℕ
scan_cursor_magic = codes "rgkscan" ++ (0 ∷ [])

abbrev pub indexed_lane_magic : List ℕ
indexed_lane_magic = codes "rgklane" ++ (0 ∷ [])

abbrev pub observed_spend_magic : List ℕ
observed_spend_magic = codes "rgkspnd" ++ (0 ∷ [])

module _ {A : Type 0} where
  -- `write_bool(o.is_some())`, and what is in it.
  unfoldable pub write_option : (A → Writer → Writer) → Option A → Writer → Writer
  unfolding write_bool
  write_option f none w = w ▸ write_bool false
  write_option f (some a) w = w ▸ write_bool true ▸ f a

unfoldable pub write_receipts : List Bytes32 → Writer → Writer
unfolding write_bytes
write_receipts [] w = w
write_receipts (id ∷ ids) w = write_receipts ids (w ▸ write_bytes id)

unfoldable pub write_continuation : ContinuationProof → Writer → Writer
unfolding write_bytes
write_continuation p w =
    w ▸ write_bytes p.commitment ▸ write_bytes p.shape_root ▸ write_bytes p.transition_digest

unfoldable pub write_migration : PolicyMigrationProof → Writer → Writer
unfolding write_bytes encode_policy
write_migration p w =
    w
    ▸ encode_policy p.previous_policy
    ▸ encode_policy p.new_policy
    ▸ write_bytes p.previous_state_digest
    ▸ write_bytes p.new_state_digest
    ▸ write_bytes p.transition_digest
    ▸ write_bytes p.authorization_commitment
    ▸ write_bytes p.migration_commitment

unfoldable pub write_certificate :
    Option AllocationAuditCertificateRecord → Writer → Result IndexerError Writer
unfolding write_bool write_bytes write_blob validate_certificate
write_certificate none w = ok (w ▸ write_bool false)
write_certificate (some c) w = do
  validate_certificate c
  ok (w ▸ write_bool true ▸ write_bytes c.certificate_id ▸ write_blob c.canonical_bytes)

-- One turn of the loop over the history.
unfoldable pub write_spend : SpendEntry → Writer → Result IndexerError Writer
unfolding write_u64 encode_outpoint write_bytes encode_policy write_option write_continuation
    write_migration write_certificate
write_spend s w = write_certificate s.allocation_audit_certificate (
    w
    ▸ write_u64 s.daa_score
    ▸ encode_outpoint s.spent
    ▸ encode_outpoint s.created
    ▸ write_bytes s.new_state_digest
    ▸ write_bytes s.resulting_state_digest
    ▸ encode_policy s.previous_receipt_policy
    ▸ encode_policy s.new_receipt_policy
    ▸ write_bytes s.receipt_id
    ▸ write_option write_continuation s.continuation
    ▸ write_option write_migration s.policy_migration)

unfoldable pub write_spends : List SpendEntry → Writer → Result IndexerError Writer
unfolding write_spend
write_spends [] w = ok w
write_spends (s ∷ ss) w = do w' ← write_spend s w; write_spends ss w'

unfoldable pub encode_indexed_covenant : IndexedCovenant → Result IndexerError (List ℕ)
unfolding write_bytes encode_chain write_option encode_outpoint encode_state write_u32
    write_receipts write_spends write_u64
encode_indexed_covenant e = do
  w ← write_spends e.spend_history (
      []
      ▸ write_bytes indexed_covenant_magic
      ▸ write_bytes e.covenant_id
      ▸ write_bytes e.lineage_id
      ▸ encode_chain e.chain_id
      ▸ write_option encode_outpoint e.open_outpoint
      ▸ encode_state e.latest_state
      ▸ write_u32 (length e.accepted_receipts % 2 ^ 32)
      ▸ write_receipts e.accepted_receipts
      ▸ write_u32 (length e.spend_history % 2 ^ 32))
  ok (w ▸ write_u64 e.last_update_daa_score)

unfoldable pub encode_indexed_lane : IndexedLane → List ℕ
unfolding write_bytes encode_chain write_option write_u64 write_bool
encode_indexed_lane l =
    []
    ▸ write_bytes indexed_lane_magic
    ▸ encode_chain l.chain_id
    ▸ write_bytes l.covenant_id
    ▸ write_bytes l.asset_id
    ▸ write_bytes l.lane_id
    ▸ write_u64 l.epoch
    ▸ write_option write_bytes l.scan_tag
    ▸ write_bool l.public_lineage
    ▸ write_bytes l.state_digest
    ▸ write_u64 l.last_update_daa_score

unfoldable pub encode_observed_spend_key : KaspaOutpoint → List ℕ
unfolding encode_outpoint
encode_observed_spend_key spent = [] ▸ encode_outpoint spent

unfoldable pub encode_observed_spend_record : ObservedSpendRecord → List ℕ
unfolding write_bytes encode_outpoint write_u32 write_option write_u64
encode_observed_spend_record r =
    []
    ▸ write_bytes observed_spend_magic
    ▸ encode_outpoint r.spent
    ▸ write_bytes r.spending_txid
    ▸ write_u32 r.input_index
    ▸ write_option write_u64 r.block_daa_score

unfoldable pub encode_scan_cursor : ScanCursor → List ℕ
unfolding write_bytes encode_chain write_u64
encode_scan_cursor c =
    []
    ▸ write_bytes scan_cursor_magic
    ▸ encode_chain c.chain_id
    ▸ write_bytes c.block_hash
    ▸ write_u64 c.daa_score
