-- ===== src/Tests/Resolver.antt =====
-- The theorems on the resolver at a node that has the covenant's outputs.
use rgk.Prelude.{
  ℕ, ◌≡◌, ◌⊎◌, refl, false, none, some, [], ◌∷◌, ok, err, arith, equals, nat_eq, list_eq,
  if◌then◌else◌, ensure-of, ◌≟◌, bool_eq,
}
unfoldable use rgk.Prelude.Equality.{contains, List-discrete}
unfoldable use rgk.Prelude.Maps.{get}
unfoldable use rgk.Prelude.Vecs.{last, pop}
unfoldable use rgk.Prelude.{ℕ_discrete, dec_le}
use rgk.Core.Chain.{kaspa_testnet}
unfoldable use rgk.Core.Chain.{KaspaChainId-discrete}
use rgk.Core.Policy.{admits}
use rgk.Core.Types.Receipts.{decode-encode_receipt}
use rgk.Receipt.Verify.{Matches, verify_local_iff}
use rgk.Core.Encoding.{encode_canonical}
use rgk.Core.Types.{KaspaOutpoint, RgkReceipt, outpoint_eq}
use rgk.Core.Types.Wire.{receipt_canonical}
use rgk.Core.Commit.{receipt_commitment}
use rgk.Core.Commit.Binding.{Collision}
use rgk.Indexer.Records.{SpendEntry, IndexedCovenant}
use rgk.Indexer.Entry.{advance_entry, apply_spend_to_entry}
use rgk.Indexer.Memory.{
  InMemoryIndexer, new_indexer, lookup, latest_state, open_outpoint, has_replay,
}
use rgk.Indexer.Memory.Reach.{Reach-IsIndexer}
use rgk.Asset.{RgkCovenantAnchor, derive_blinded_lane_id, derive_scan_tag}
use rgk.Asset.Binding.{lane_identity_binding, nullifier_binding}
use rgk.Kaspa.{not_found, SpendingInfo, KaspaUtxo, KaspaChainBackend}
use rgk.Resolver.{
  ValidTransition, native_transitioned_valid, depth_of, settle, check_network, fetch_spent,
  fetch_open, judge_found, judge_open_spend, last_spend, resolve_open, resolve_indexed,
  resolve_steps, resolve_by_covenant, covenant_of,
}
use rgk.Resolver.Valid.{IsFallenThrough, resolve_valid_rests}
use rgk.Resolver.Names.{resolve_names_covenant}
use rgk.Resolver.Sound.{IsConfirmed}
use rgk.Resolver.View.{verify_receipt_against_indexer}
use rgk.Resolver.Accept.{in_memory, plain_spend, verified_receipt_applies}
use rgk.Resolver.Stale.{stale_spend_valid}
use rgk.Receipt.{verify_local}
use rgk.Tests.{
  toy_sha, fill, state_at, sample_receipt, sample-IsTypedReceipt, sample-fits, sample-range,
}
use rgk.Tests.Indexer.{output, proof, entry0, entry1, indexer0, indexer0-Reach}

abbrev spending : SpendingInfo
spending = record { txid = fill 60; input_index = 0; block_daa_score = some 200 }

abbrev spent_output : KaspaUtxo
spent_output = record {
  outpoint = output 11;
  value = 1;
  script_public_key = record { bytes = [] };
  block_daa_score = some 105;
  spending = some spending;
}

-- A node that has output 11, spent twelve blocks deep, and no other.
abbrev node : KaspaChainBackend
node = record {
  network_id = ok kaspa_testnet;
  current_tip = err not_found;
  get_transaction = λ txid. ok none;
  get_utxo = λ o. ok (if equals o.transaction_id (fill 11) then some spent_output else none);
  get_spending_transaction = λ o. ok none;
  confirmation_depth = λ txid. ok (some 12);
}

abbrev spent_indexer : InMemoryIndexer
spent_indexer = record new_indexer { map = (fill 1, entry1) ∷ [] }

abbrev last_entry : SpendEntry
last_entry = record {
  daa_score = 105;
  spent = output 10;
  created = output 11;
  new_state_digest = fill 3;
  resulting_state_digest = fill 4;
  previous_receipt_policy = (state_at (fill 3)).receipt_policy;
  new_receipt_policy = (state_at (fill 4)).receipt_policy;
  receipt_id = fill 20;
  continuation = some proof;
  policy_migration = none;
  allocation_audit_certificate = none;
}

abbrev answer : ValidTransition
answer = record {
  spent_outpoint = output 11;
  new_outpoint = output 11;
  receipt_id = fill 20;
  new_state = state_at (fill 4);
  allocation_audit_certificate = none;
  confirmation_depth = 12;
}

last-entry1 : last entry1.spend_history ≡ some last_entry
unfolding last pop
last-entry1 = refl

lookup-spent : lookup (fill 1) spent_indexer ≡ some entry1
unfolding lookup get List-discrete ℕ_discrete
lookup-spent = refl

stale_answer :
    resolve_by_covenant toy_sha node (in_memory spent_indexer) kaspa_testnet 10 (fill 1)
    ≡ native_transitioned_valid (fill 1) answer
unfolding resolve_by_covenant resolve_steps resolve_indexed judge_found settle in_memory depth_of
    lookup get latest_state open_outpoint resolve_open judge_open_spend fetch_open fetch_spent
    check_network last_spend last pop ℕ_discrete List-discrete KaspaChainId-discrete dec_le
stale_answer = refl

stale_spend_valid_example :
    resolve_by_covenant toy_sha node (in_memory spent_indexer) kaspa_testnet 10 (fill 1)
    ≡ native_transitioned_valid (fill 1) answer
unfolding depth_of ℕ_discrete List-discrete
stale_spend_valid_example =
    stale_spend_valid toy_sha node spent_indexer kaspa_testnet 10 (fill 1) entry1 (output 11)
      last_entry spent_output spending refl lookup-spent refl last-entry1 refl refl refl
      (omega arith) (omega arith)

resolve_valid_rests_example :
    (fill 1 ≡ fill 1)
    × (node.network_id ≡ ok kaspa_testnet)
    × (e : IndexedCovenant) × (o : KaspaOutpoint) × (s : SpendEntry) × ((in_memory
            spent_indexer).lookup
          (fill 1)
        ≡ some e)
    × (e.open_outpoint ≡ some o)
    × (last e.spend_history ≡ some s)
    × (IsConfirmed toy_sha node (in_memory spent_indexer) kaspa_testnet 10 (fill 1) e s answer
        ⊎ IsFallenThrough toy_sha node
            (in_memory spent_indexer)
            kaspa_testnet
            10
            (fill 1)
            e
            o
            s
            answer)
resolve_valid_rests_example =
    resolve_valid_rests toy_sha node (in_memory spent_indexer) kaspa_testnet 10 (fill 1) (fill 1)
      answer stale_answer

lane_identity_binding_example :
    (derive_blinded_lane_id toy_sha (fill 1) (fill 2) 7
        ≡ derive_blinded_lane_id toy_sha (fill 1) (fill 2) 7
      → ((fill 1 ≡ fill 1) × (fill 2 ≡ fill 2) × ◌≡◌ {A = ℕ} 7 7) ⊎ Collision toy_sha)
    × (derive_scan_tag toy_sha (fill 1) (fill 2) 7 ≡ derive_scan_tag toy_sha (fill 1) (fill 2) 7
        → ((fill 1 ≡ fill 1) × (fill 2 ≡ fill 2) × ◌≡◌ {A = ℕ} 7 7) ⊎ Collision toy_sha)
    × (derive_blinded_lane_id toy_sha (fill 1) (fill 2) 7
          ≡ derive_scan_tag toy_sha (fill 1) (fill 2) 7
        → Collision toy_sha)
lane_identity_binding_example =
    lane_identity_binding toy_sha (fill 1) (fill 1) (fill 2) (fill 2) 7 7 refl refl refl refl
      (omega arith) (omega arith)

abbrev anchor : RgkCovenantAnchor
anchor = record {
  chain = kaspa_testnet;
  covenant_outpoint = output 10;
  covenant_id = fill 1;
  witness_txid = fill 12;
  daa_score = 100;
  confirmation_depth = 12;
}

nullifier_binding_example :
    ((fill 3 ≡ fill 3) × (output 10 ≡ output 10) × (fill 1 ≡ fill 1)) ⊎ Collision toy_sha
nullifier_binding_example =
    nullifier_binding toy_sha (fill 3) (fill 3) anchor anchor refl refl (omega arith) (omega arith)
      refl

sample-Matches : Matches sample_receipt (fill 1) (state_at (fill 3)) kaspa_testnet
unfolding admits
sample-Matches = record {
  same_chain = refl;
  same_covenant = refl;
  old_asset = refl;
  new_asset = refl;
  old_digest = refl;
  admitted = refl;
}

sample-verifies :
    verify_local toy_sha
      (encode_canonical sample_receipt)
      (fill 1)
      (state_at (fill 3))
      kaspa_testnet
    ≡ ok (receipt_commitment toy_sha sample_receipt)
sample-verifies =
    (verify_local_iff toy_sha (fill 1) (state_at (fill 3)) kaspa_testnet
        (encode_canonical sample_receipt) (receipt_commitment toy_sha sample_receipt) sample-fits
        sample-range).1
      (sample_receipt, refl, sample-IsTypedReceipt, sample-Matches, refl)

lookup-entry0 : lookup (fill 1) indexer0 ≡ some entry0
unfolding lookup get List-discrete ℕ_discrete
lookup-entry0 = refl

lookups :
    (latest_state (fill 1) indexer0 ≡ some (state_at (fill 3)))
    × (has_replay (fill 1) (receipt_commitment toy_sha sample_receipt) indexer0 ≡ false)
unfolding latest_state has_replay get contains List-discrete ℕ_discrete
lookups = (refl, refl)

sample-accepted :
    verify_receipt_against_indexer toy_sha node
      (in_memory indexer0)
      kaspa_testnet
      10
      (fill 1)
      (encode_canonical sample_receipt)
    ≡ ok (state_at (fill 4))
unfolding verify_receipt_against_indexer in_memory
sample-accepted = rw (
  lookups.0,
  decode-encode_receipt sample_receipt sample-IsTypedReceipt,
  ensure-of (has_replay (fill 1) (receipt_commitment toy_sha sample_receipt) indexer0 ≟ false) _
      lookups.1,
  sample-verifies,
)

verified_receipt_applies_example :
    (r : RgkReceipt) × (encode_canonical sample_receipt ≡ encode_canonical r)
    × (r.new_state ≡ state_at (fill 4))
    × ((out : KaspaOutpoint) (daa : ℕ)
        → apply_spend_to_entry toy_sha entry0
            (plain_spend (receipt_commitment toy_sha r) (output 10) out (state_at (fill 4)) daa)
          ≡ ok (
              advance_entry entry0 (
                plain_spend
                  (receipt_commitment toy_sha r)
                  (output 10)
                  out
                  (state_at (fill 4))
                  daa)))
unfolding lookup get
verified_receipt_applies_example =
    verified_receipt_applies toy_sha node indexer0 kaspa_testnet 10 (fill 1)
      (encode_canonical sample_receipt) (state_at (fill 4)) entry0 (output 10) sample-fits
      sample-range lookup-entry0
      ((Reach-IsIndexer toy_sha indexer0 indexer0-Reach).entries (fill 1) entry0 lookup-entry0) refl
      refl sample-accepted

resolve_names_covenant_example :
    covenant_of
      (resolve_by_covenant toy_sha node (in_memory spent_indexer) kaspa_testnet 10 (fill 1))
    ≡ fill 1
resolve_names_covenant_example =
    resolve_names_covenant toy_sha node (in_memory spent_indexer) kaspa_testnet 10 (fill 1)
