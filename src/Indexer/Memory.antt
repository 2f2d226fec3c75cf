-- ===== src/Indexer/Memory.antt =====
-- The in-memory indexer. An operation that fails has changed nothing, so it returns the new indexer or an
-- error; `observed_spend` and `observed_spend_count`, which always succeed, return their value.
pub mod Reach
pub mod Lanes
use rgk.Prelude.{
  ℕ, ◌≡◌, Bool, true, false, ◌&&◌, not, Option, none, some, List, [], ◌∷◌, Result, ok, err, ensure,
  reject, ok_or, ◌>>=◌, ◌>>◌, ◌≟◌, nat_eq, list_eq, option_eq, bool_eq, contains, length, dec_le,
  BTreeMap, contains_key, get, insert, remove, keys, values, bytes_ord, filter, equals,
}
use rgk.Core.Bytes.{Bytes32, zero32}
use rgk.Core.Chain.{KaspaChainId, chain_eq}
use rgk.Core.Types.{
  KaspaOutpoint, RgkStateCommitment, PolicyMigrationProof, outpoint_eq, outpoint_ord,
}
use rgk.Indexer.Records.{
  IndexerError, not_indexed, already_indexed, chain_mismatch, lineage_mismatch, lane_invariant,
  zero_lane_id, zero_digest, zero_scan_tag, covenant_differs, asset_differs, digest_differs,
  daa_differs, invariant, cursor_name_empty, cursor_name_too_long, ContinuationProof,
  AllocationAuditCertificateRecord, IndexedCovenant, IndexedLane, ScanCursor, ObservedSpendRecord,
  opened,
}
use rgk.Indexer.Entry.{
  Spend, apply_spend_to_entry, rollback_entry, record_certificate, certificate_of,
}

pub record InMemoryIndexer : Type 0 where
  pub map : BTreeMap Bytes32 IndexedCovenant
  pub lanes : BTreeMap Bytes32 IndexedLane
  pub lane_scan_tags : BTreeMap Bytes32 Bytes32
  pub scan_cursors : BTreeMap (List ℕ) ScanCursor
  pub observed_spends : BTreeMap KaspaOutpoint ObservedSpendRecord

-- `InMemoryIndexer::new`
abbrev pub new_indexer : InMemoryIndexer
new_indexer = record {
  map = [];
  lanes = [];
  lane_scan_tags = [];
  scan_cursors = [];
  observed_spends = [];
}

-- `Indexer::open`
unfoldable pub open_covenant :
    KaspaChainId
    → Bytes32
    → Bytes32
    → RgkStateCommitment
    → KaspaOutpoint
    → ℕ
    → InMemoryIndexer
    → Result IndexerError InMemoryIndexer
unfolding opened
open_covenant chain covenant lineage initial outpoint daa s = do
  ensure (contains_key s.map covenant ≟ false) (already_indexed covenant)
  ensure (initial.chain_id ≟ chain) (chain_mismatch initial.chain_id chain)
  ensure (initial.covenant_id ≟ covenant) (lineage_mismatch initial.covenant_id covenant)
  ok (record s { map = insert covenant (opened covenant chain lineage initial outpoint daa) s.map })

-- `get_mut`, an operation on the entry, and the entry written back.
unfoldable pub on_entry :
    Bytes32
    → (IndexedCovenant → Result IndexerError IndexedCovenant)
    → InMemoryIndexer
    → Result IndexerError InMemoryIndexer
on_entry covenant f s = do
  entry ← ok_or (get s.map covenant) (not_indexed covenant)
  entry' ← f entry
  ok (record s { map = insert covenant entry' s.map })

-- `apply_spend`, `apply_spend_with_continuation` and `.._and_policy_migration`: the spend's continuation
-- and migration are both none, only the first is given, or both are.
unfoldable pub apply_spend :
    (List ℕ → Bytes32) → Bytes32 → Spend → InMemoryIndexer → Result IndexerError InMemoryIndexer
unfolding on_entry
apply_spend sha256 covenant spend s = on_entry covenant (λ e. apply_spend_to_entry sha256 e spend) s

unfoldable pub rollback : Bytes32 → ℕ → InMemoryIndexer → Result IndexerError InMemoryIndexer
unfolding on_entry
rollback covenant depth s = on_entry covenant (rollback_entry depth) s

-- `record_allocation_audit_certificate`
unfoldable pub store_certificate :
    Bytes32
    → Bytes32
    → AllocationAuditCertificateRecord
    → InMemoryIndexer
    → Result IndexerError InMemoryIndexer
unfolding on_entry
store_certificate covenant id c s = on_entry covenant (record_certificate id c) s

unfoldable pub allocation_audit_certificate :
    Bytes32 → Bytes32 → InMemoryIndexer → Option AllocationAuditCertificateRecord
allocation_audit_certificate covenant id s = elim (get s.map covenant) [
  | none ↦ none
  | some e ↦ certificate_of id e.spend_history
]

unfoldable pub lookup : Bytes32 → InMemoryIndexer → Option IndexedCovenant
lookup covenant s = get s.map covenant

unfoldable pub latest_state : Bytes32 → InMemoryIndexer → Option RgkStateCommitment
latest_state covenant s = elim (get s.map covenant) [ none ↦ none | some e ↦ some e.latest_state ]

unfoldable pub open_outpoint : Bytes32 → InMemoryIndexer → Option KaspaOutpoint
open_outpoint covenant s = elim (get s.map covenant) [ none ↦ none | some e ↦ e.open_outpoint ]

unfoldable pub has_replay : Bytes32 → Bytes32 → InMemoryIndexer → Bool
has_replay covenant id s = elim (get s.map covenant) [
  | none ↦ false
  | some e ↦ contains e.accepted_receipts id
]

unfoldable pub list : InMemoryIndexer → List Bytes32
list s = keys s.map

-- `if let Some(scan_tag) = lane.scan_tag { ... }`
unfoldable pub check_tag : Option Bytes32 → Result IndexerError (Unit {0})
check_tag none = ok tt
check_tag (some tag) = reject (tag ≟ zero32) (lane_invariant zero_scan_tag)

unfoldable pub validate_indexed_lane :
    IndexedCovenant → IndexedLane → Result IndexerError (Unit {0})
unfolding check_tag
validate_indexed_lane e l = do
  reject (l.lane_id ≟ zero32) (lane_invariant zero_lane_id)
  reject (l.state_digest ≟ zero32) (lane_invariant zero_digest)
  check_tag l.scan_tag
  ensure (l.chain_id ≟ e.chain_id) (chain_mismatch e.chain_id l.chain_id)
  ensure (l.covenant_id ≟ e.covenant_id) (lane_invariant covenant_differs)
  ensure (l.asset_id ≟ e.latest_state.asset_id) (lane_invariant asset_differs)
  ensure (l.state_digest ≟ e.latest_state.state_digest) (lane_invariant digest_differs)
  ensure (l.last_update_daa_score ≟ e.last_update_daa_score) (lane_invariant daa_differs)
  ok tt

-- The tag of the lane that an insert replaces is dropped, then the new one is set.
unfoldable pub drop_tag : Option IndexedLane → BTreeMap Bytes32 Bytes32 → BTreeMap Bytes32 Bytes32
drop_tag none tags = tags
drop_tag (some previous) tags = elim previous.scan_tag [ none ↦ tags | some t ↦ remove t tags ]

unfoldable pub set_tag :
    Option Bytes32 → Bytes32 → BTreeMap Bytes32 Bytes32 → BTreeMap Bytes32 Bytes32
set_tag none lane tags = tags
set_tag (some t) lane tags = insert t lane tags

unfoldable pub register_lane : IndexedLane → InMemoryIndexer → Result IndexerError InMemoryIndexer
unfolding validate_indexed_lane drop_tag set_tag
register_lane l s = do
  entry ← ok_or (get s.map l.covenant_id) (not_indexed l.covenant_id)
  validate_indexed_lane entry l
  ok (record s {
    lanes = insert l.lane_id l s.lanes;
    lane_scan_tags =
        set_tag l.scan_tag l.lane_id (drop_tag (get s.lanes l.lane_id) s.lane_scan_tags);
  })

unfoldable pub lane_by_id : Bytes32 → InMemoryIndexer → Option IndexedLane
lane_by_id id s = get s.lanes id

unfoldable pub lane_by_scan_tag : Bytes32 → InMemoryIndexer → Option IndexedLane
lane_by_scan_tag tag s = elim (get s.lane_scan_tags tag) [ none ↦ none | some id ↦ get s.lanes id ]

unfoldable pub public_lanes : Bytes32 → InMemoryIndexer → List IndexedLane
public_lanes asset s = filter (λ l. l.public_lineage && equals l.asset_id asset) (values s.lanes)

unfoldable pub validate_scan_cursor_name : List ℕ → Result IndexerError (List ℕ)
validate_scan_cursor_name name = do
  reject (name ≟ []) (invariant cursor_name_empty)
  ensure (dec_le (length name) 128) (invariant cursor_name_too_long)
  ok name

unfoldable pub load_scan_cursor : List ℕ → InMemoryIndexer → Result IndexerError (Option ScanCursor)
unfolding validate_scan_cursor_name
load_scan_cursor name s = do _ ← validate_scan_cursor_name name; ok (get s.scan_cursors name)

unfoldable pub store_scan_cursor :
    List ℕ → ScanCursor → InMemoryIndexer → Result IndexerError InMemoryIndexer
unfolding validate_scan_cursor_name
store_scan_cursor name cursor s = do
  _ ← validate_scan_cursor_name name
  ok (record s { scan_cursors = insert name cursor s.scan_cursors })

unfoldable pub clear_scan_cursor : List ℕ → InMemoryIndexer → Result IndexerError InMemoryIndexer
unfolding validate_scan_cursor_name
clear_scan_cursor name s = do
  _ ← validate_scan_cursor_name name
  ok (record s { scan_cursors = remove name s.scan_cursors })

unfoldable pub record_observed_spend :
    ObservedSpendRecord → InMemoryIndexer → Result IndexerError InMemoryIndexer
record_observed_spend r s = ok (record s { observed_spends = insert r.spent r s.observed_spends })

unfoldable pub observed_spend : KaspaOutpoint → InMemoryIndexer → Option ObservedSpendRecord
observed_spend o s = get s.observed_spends o

unfoldable pub observed_spend_count : InMemoryIndexer → ℕ
observed_spend_count s = length s.observed_spends
