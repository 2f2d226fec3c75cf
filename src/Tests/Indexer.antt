-- ===== src/Tests/Indexer.antt =====
-- The theorems on the indexer at a covenant that is opened, spent once and rolled back.
use rgk.Prelude.{
  ℕ, ◌≡◌, ◌≢◌, ◌≤◌, ◌+◌, ◌↔◌, refl, head_of, true, none, some, [], ◌∷◌, ◌++◌, length, ok, err,
  arith, bytes_ord, nat_eq, list_eq,
}
unfoldable use rgk.Prelude.Equality.{contains, Bool-discrete, List-discrete}
unfoldable use rgk.Prelude.Maps.{get, insert, contains_key}
unfoldable use rgk.Prelude.{ℕ_discrete, dec_le}
unfoldable use rgk.Core.Chain.{KaspaChainId-discrete}
use rgk.Core.Bytes.{Bytes32}
use rgk.Core.Chain.{kaspa_testnet}
use rgk.Core.Types.{KaspaOutpoint}
use rgk.Indexer.Records.{
  replay, rollback_too_deep, certificate_invalid, replaces_existing, ContinuationProof,
  AllocationAuditCertificateRecord, IndexedCovenant, IndexedLane, opened,
}
use rgk.Indexer.Entry.{
  Spend, advance_entry, apply_spend_to_entry, rollback_entry, certificate_magic,
  validate_certificate, record_certificate, certificate_of, attach,
}
use rgk.Indexer.Entry.Apply.{IsContinuation, Accepts, apply_spend_iff, apply_complete}
use rgk.Indexer.Entry.Replay.{stay, spend, certify, apply_spend_refuses_replay}
use rgk.Indexer.Entry.Lineage.{Head, IsLineage, head_at, opened-IsLineage, apply-rollback-IsLineage}
use rgk.Indexer.Entry.Rollback.{apply_spends, rollback_undoes_spends, rollback_entry_total}
use rgk.Indexer.Entry.Certificates.{record_certificate_once}
use rgk.Indexer.Memory.{
  InMemoryIndexer, new_indexer, open_covenant, register_lane, lane_by_id, lane_by_scan_tag,
}
use rgk.Indexer.Memory.Lanes.{IsLaneOf, register_lane_lookup}
use rgk.Indexer.Memory.Reach.{opens, Reach, start, step, IsIndexer, Reach-IsIndexer}
use rgk.Tests.{toy_sha, fill, state_at}

abbrev pub output : ℕ → KaspaOutpoint
output n = record { transaction_id = fill n; index = 0 }

abbrev pub entry0 : IndexedCovenant
entry0 = record {
  covenant_id = fill 1;
  lineage_id = fill 8;
  chain_id = kaspa_testnet;
  open_outpoint = some (output 10);
  latest_state = state_at (fill 3);
  accepted_receipts = [];
  spend_history = [];
  last_update_daa_score = 100;
}

abbrev pub proof : ContinuationProof
proof = record { commitment = fill 30; shape_root = fill 31; transition_digest = fill 32 }

abbrev pub spend1 : Spend
spend1 = record {
  receipt_id = fill 20;
  spent = output 10;
  new_outpoint = output 11;
  new_state = state_at (fill 4);
  daa_score = 105;
  continuation = some proof;
  policy_migration = none;
}

pub proof-IsContinuation : IsContinuation proof
proof-IsContinuation = record {
  commitment_set = λ e. omega (arith, head_of e);
  shape_root_set = λ e. omega (arith, head_of e);
  transition_set = λ e. omega (arith, head_of e);
}

pub spend1-Accepts : Accepts toy_sha entry0 spend1
unfolding contains
spend1-Accepts = record {
  continued = proof-IsContinuation;
  fresh = refl;
  same_chain = refl;
  same_covenant = refl;
  same_asset = refl;
  spends_open = refl;
  advances = λ e. omega (arith, head_of e);
  migrated = tt;
}

abbrev pub entry1 : IndexedCovenant
entry1 = record {
  covenant_id = fill 1;
  lineage_id = fill 8;
  chain_id = kaspa_testnet;
  open_outpoint = some (output 11);
  latest_state = state_at (fill 4);
  accepted_receipts = fill 20 ∷ [];
  spend_history =
      record {
        daa_score = 105;
        spent = output 10;
        created = output 11;
        new_state_digest = fill 3;
        resulting_state_digest = fill 4;
        previous_receipt_policy = (state_at (fill 3)).receipt_policy;
        new_receipt_policy = (state_at (fill 4)).receipt_policy;
        receipt_id = fill 20;
        continuation = some proof;
        policy_migration = none;
        allocation_audit_certificate = none;
      }
      ∷ [];
  last_update_daa_score = 105;
}

is_advanced : entry1 ≡ advance_entry entry0 spend1
unfolding advance_entry
is_advanced = refl

pub entry1-applied : apply_spend_to_entry toy_sha entry0 spend1 ≡ ok entry1
entry1-applied = (apply_spend_iff toy_sha entry0 spend1 entry1).1 (spend1-Accepts, is_advanced)

apply_spend_iff_example :
    (apply_spend_to_entry toy_sha entry0 spend1 ≡ ok entry1)
    ↔ (Accepts toy_sha entry0 spend1 × (entry1 ≡ advance_entry entry0 spend1))
apply_spend_iff_example = apply_spend_iff toy_sha entry0 spend1 entry1

both_applied : apply_spends toy_sha (spend1 ∷ []) entry0 ≡ ok entry1
unfolding apply_spends
both_applied = rw entry1-applied

rollback_undoes_spends_example :
    rollback_entry 1 entry1 ≡ ok (record entry0 { last_update_daa_score = 104 })
rollback_undoes_spends_example =
    rollback_undoes_spends toy_sha (spend1 ∷ []) entry0 entry1 both_applied (refl, tt) refl refl

rollback_entry_total_example :
    (1 ≤ 1
      → (e' : IndexedCovenant) × (rollback_entry 1 entry1 ≡ ok e')
        × (length e'.spend_history + 1 ≡ 1))
    × (¬ (1 ≤ 1) → rollback_entry 1 entry1 ≡ err (rollback_too_deep 1 1))
rollback_entry_total_example = rollback_entry_total 1 entry1

entry0-IsLineage : IsLineage (head_at (output 10) (state_at (fill 3))) (fill 2) entry0
unfolding opened
entry0-IsLineage = opened-IsLineage (fill 8) (state_at (fill 3)) (output 10) 100

apply-rollback-IsLineage_example :
    ((s : Spend)
      → apply_spend_to_entry toy_sha entry0 s ≡ ok entry1
      → IsLineage (head_at (output 10) (state_at (fill 3))) (fill 2) entry1)
    × ((depth : ℕ)
        → rollback_entry depth entry0 ≡ ok entry1
        → IsLineage (head_at (output 10) (state_at (fill 3))) (fill 2) entry1)
apply-rollback-IsLineage_example =
    apply-rollback-IsLineage toy_sha (head_at (output 10) (state_at (fill 3))) (fill 2) entry0
      entry1 entry0-IsLineage

abbrev certificate : AllocationAuditCertificateRecord
certificate = record {
  certificate_id = fill 40;
  canonical_bytes = certificate_magic ++ (fill 40 ++ (1 ∷ []));
}

abbrev entry2 : IndexedCovenant
entry2 = record entry1 {
  spend_history =
      record {
        daa_score = 105;
        spent = output 10;
        created = output 11;
        new_state_digest = fill 3;
        resulting_state_digest = fill 4;
        previous_receipt_policy = (state_at (fill 3)).receipt_policy;
        new_receipt_policy = (state_at (fill 4)).receipt_policy;
        receipt_id = fill 20;
        continuation = some proof;
        policy_migration = none;
        allocation_audit_certificate = some certificate;
      }
      ∷ [];
}

certified : record_certificate (fill 20) certificate entry1 ≡ ok entry2
unfolding record_certificate validate_certificate attach dec_le List-discrete ℕ_discrete
certified = refl

-- A second spend, after the certificate.
abbrev spend2 : Spend
spend2 = record spend1 {
  receipt_id = fill 21;
  spent = output 11;
  new_outpoint = output 12;
  new_state = state_at (fill 5);
}

spend2-Accepts : Accepts toy_sha entry2 spend2
unfolding contains List-discrete ℕ_discrete
spend2-Accepts = record {
  continued = proof-IsContinuation;
  fresh = refl;
  same_chain = refl;
  same_covenant = refl;
  same_asset = refl;
  spends_open = refl;
  advances = λ e. omega (arith, head_of e);
  migrated = tt;
}

apply_spend_refuses_replay_example :
    apply_spend_to_entry toy_sha (advance_entry entry2 spend2) spend1 ≡ err (replay (fill 20))
apply_spend_refuses_replay_example =
    apply_spend_refuses_replay toy_sha entry0 entry1 (advance_entry entry2 spend2) spend1 spend1
      entry1-applied
      (certify (fill 20) certificate certified (
        spend spend2 (apply_complete toy_sha entry2 spend2 spend2-Accepts)
          (stay (advance_entry entry2 spend2))))
      refl proof-IsContinuation

record_certificate_once_example :
    (certificate_of (fill 20) entry2.spend_history ≡ some certificate)
    × ((i : Bytes32)
        → i ≢ fill 20
        → certificate_of i entry2.spend_history ≡ certificate_of i entry1.spend_history)
    × (entry2.accepted_receipts ≡ entry1.accepted_receipts)
    × ((g : Head) (asset : Bytes32) → IsLineage g asset entry1 → IsLineage g asset entry2)
    × (record_certificate (fill 20) certificate entry2 ≡ ok entry2)
    × (validate_certificate certificate ≡ ok tt
        → certificate ≢ certificate
        → record_certificate (fill 20) certificate entry2
          ≡ err (certificate_invalid replaces_existing))
record_certificate_once_example =
    record_certificate_once (fill 20) certificate certificate entry1 entry2 certified

abbrev pub indexer0 : InMemoryIndexer
indexer0 = record new_indexer { map = (fill 1, entry0) ∷ [] }

pub indexer0-opened :
    open_covenant kaspa_testnet (fill 1) (fill 8) (state_at (fill 3)) (output 10) 100 new_indexer
    ≡ ok indexer0
unfolding open_covenant Bool-discrete contains_key KaspaChainId-discrete List-discrete ℕ_discrete
    insert
indexer0-opened = refl

pub indexer0-Reach : Reach toy_sha indexer0
indexer0-Reach =
    step start
      (opens kaspa_testnet (fill 1) (fill 8) (state_at (fill 3)) (output 10) 100 indexer0-opened)

Reach-IsIndexer_example : IsIndexer indexer0
Reach-IsIndexer_example = Reach-IsIndexer toy_sha indexer0 indexer0-Reach

abbrev lane : IndexedLane
lane = record {
  chain_id = kaspa_testnet;
  covenant_id = fill 1;
  asset_id = fill 2;
  lane_id = fill 50;
  epoch = 7;
  scan_tag = some (fill 51);
  public_lineage = true;
  state_digest = fill 3;
  last_update_daa_score = 100;
}

abbrev indexer1 : InMemoryIndexer
indexer1 = record indexer0 {
  lanes = (fill 50, lane) ∷ [];
  lane_scan_tags = (fill 51, fill 50) ∷ [];
}

lane_registered : register_lane lane indexer0 ≡ ok indexer1
unfolding register_lane get insert KaspaChainId-discrete List-discrete ℕ_discrete
lane_registered = refl

register_lane_lookup_example :
    ((e : IndexedCovenant) × (get indexer0.map (fill 1) ≡ some e) × IsLaneOf e lane)
    × (lane_by_id (fill 50) indexer1 ≡ some lane)
    × ((tag : Bytes32) → some (fill 51) ≡ some tag → lane_by_scan_tag tag indexer1 ≡ some lane)
    × ((id : Bytes32) → fill 50 ≢ id → lane_by_id id indexer1 ≡ lane_by_id id indexer0)
register_lane_lookup_example = register_lane_lookup lane indexer0 indexer1 lane_registered
