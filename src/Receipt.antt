-- ===== src/Receipt.antt =====
-- crates/rgk-receipt/src/lib.rs: building and verifying receipts, and the set of accepted receipt ids.
pub mod Build
pub mod Verify
pub mod Replay
use rgk.Prelude.{
  ℕ, ◌≡◌, Bool, true, false, List, [], ◌∷◌, ◌++◌, codes, length, Result, ok, err, ensure, reject,
  map_err, ◌>>=◌, ◌>>◌, ◌≟◌, nat_eq, list_eq, bool_eq, contains,
}
use rgk.Core.Error.{DecodeError}
use rgk.Core.Bytes.{Bytes32, zero32}
use rgk.Core.Bytes.Hex.{to_hex}
use rgk.Core.Chain.{KaspaChainId, chain_eq}
use rgk.Core.Policy.{ProofMode, ReceiptPolicy, admits}
use rgk.Core.Encoding.{encode_canonical, decode_canonical}
use rgk.Core.Types.{RgkStateCommitment, RgkReceipt, new_receipt, new_state_commitment}
use rgk.Core.Types.Wire.{receipt_canonical}
use rgk.Core.Commit.{receipt_commitment}

-- The messages of `ReceiptError::Structural`.
pub data ReceiptReason : Type 0 where
  covenant_not_indexed missing_continuation_proof missing_commitment missing_shape_root :
      ReceiptReason
  missing_transition created_txid_mismatch missing_policy_migration : ReceiptReason
  migration_requires_continuation migration_previous_policy migration_new_policy : ReceiptReason
  migration_latest_policy migration_previous_digest migration_new_digest : ReceiptReason
  migration_transition migration_authorization migration_commitment : ReceiptReason
  migration_unchanged_policy no_receipt_in_history no_new_outpoint : ReceiptReason

pub data ReceiptError : Type 0 where
  chain_mismatch : KaspaChainId → KaspaChainId → ReceiptError
  covenant_mismatch : Bytes32 → Bytes32 → ReceiptError
  asset_mismatch : Bytes32 → Bytes32 → ReceiptError
  old_state_mismatch : Bytes32 → Bytes32 → ReceiptError
  policy_rejects_mode : ReceiptPolicy → ProofMode → ReceiptError
  decode_failure : DecodeError → ReceiptError
  structural : ReceiptReason → ReceiptError
  replay : Bytes32 → ReceiptError
  unknown_chain : KaspaChainId → ReceiptError
  missing_transition_digest : ReceiptError
  missing_continuation_commitment : ReceiptError
  missing_replay_nonce : ReceiptError

pub record ReceiptInput : Type 0 where
  pub chain_id : KaspaChainId
  pub covenant_id : Bytes32
  pub old_state : RgkStateCommitment
  pub new_state : RgkStateCommitment
  pub transition_digest : Bytes32
  pub continuation_commitment : Bytes32
  pub proof_mode : ProofMode
  pub replay_nonce : Bytes32

unfoldable pub to_validated_receipt : ReceiptInput → Result ReceiptError RgkReceipt
to_validated_receipt i = do
  reject (i.transition_digest ≟ zero32) missing_transition_digest
  reject (i.continuation_commitment ≟ zero32) missing_continuation_commitment
  reject (i.replay_nonce ≟ zero32) missing_replay_nonce
  map_err decode_failure (
      new_receipt i.chain_id i.covenant_id i.old_state i.new_state i.transition_digest
        i.continuation_commitment i.proof_mode i.replay_nonce)

-- `ReceiptInput::new`
unfoldable pub new_input :
    KaspaChainId
    → Bytes32
    → RgkStateCommitment
    → RgkStateCommitment
    → Bytes32
    → Bytes32
    → ProofMode
    → Bytes32
    → Result ReceiptError ReceiptInput
new_input chain covenant old new transition continuation mode nonce =
    let input : ReceiptInput = record {
      chain_id = chain;
      covenant_id = covenant;
      old_state = old;
      new_state = new;
      transition_digest = transition;
      continuation_commitment = continuation;
      proof_mode = mode;
      replay_nonce = nonce;
    } in
    to_validated_receipt input >>= λ _. ok input

module _ (sha256 : List ℕ → Bytes32) where
  -- `ReceiptBuilder::build`
  unfoldable pub build : ReceiptInput → Result ReceiptError (RgkReceipt × Bytes32 × List ℕ)
  build input = do
    receipt ← to_validated_receipt input
    ok (receipt, receipt_commitment sha256 receipt, encode_canonical receipt)

  unfoldable pub verify_local_structured :
      RgkReceipt → Bytes32 → RgkStateCommitment → KaspaChainId → Result ReceiptError Bytes32
  verify_local_structured r covenant old chain = do
    ensure (r.chain_id ≟ chain) (chain_mismatch r.chain_id chain)
    ensure (r.covenant_id ≟ covenant) (covenant_mismatch r.covenant_id covenant)
    ensure (r.old_state.asset_id ≟ old.asset_id) (asset_mismatch old.asset_id r.old_state.asset_id)
    ensure (r.new_state.asset_id ≟ old.asset_id) (asset_mismatch old.asset_id r.old_state.asset_id)
    ensure (r.old_state.state_digest ≟ old.state_digest)
        (old_state_mismatch r.old_state.state_digest old.state_digest)
    ensure (admits old.receipt_policy r.proof_mode ≟ true)
        (policy_rejects_mode old.receipt_policy r.proof_mode)
    ok (receipt_commitment sha256 r)

  unfoldable pub verify_local :
      List ℕ → Bytes32 → RgkStateCommitment → KaspaChainId → Result ReceiptError Bytes32
  verify_local bytes covenant old chain = do
    receipt ← map_err decode_failure (decode_canonical ⦃c = receipt_canonical⦄ bytes)
    verify_local_structured receipt covenant old chain

-- `receipt_id_hex`
unfoldable pub receipt_id_hex : Bytes32 → List ℕ
receipt_id_hex id = codes "0x" ++ to_hex id

pub record ReplaySet : Type 0 where
  pub seen : List Bytes32

abbrev pub new_replay_set : ReplaySet
new_replay_set = record { seen = [] }

-- `ReplaySet::record`; an error leaves the set as it was.
unfoldable pub record_id : Bytes32 → ReplaySet → Result ReceiptError ReplaySet
record_id id s = elim (contains s.seen id) [
  | true ↦ err (replay id)
  | false ↦ ok (record s { seen = s.seen ++ (id ∷ []) })
]

-- `ReplaySet::contains` and `ReplaySet::len`
unfoldable pub contains_id : ReplaySet → Bytes32 → Bool
contains_id s id = contains s.seen id

unfoldable pub seen_count : ReplaySet → ℕ
seen_count s = length s.seen

pub record NewStateSpec : Type 0 where
  pub chain_id : KaspaChainId
  pub covenant_id : Bytes32
  pub asset_id : Bytes32
  pub state_digest : Bytes32
  pub receipt_policy : ReceiptPolicy

unfoldable pub into_commitment : NewStateSpec → Result ReceiptError RgkStateCommitment
into_commitment s =
    map_err decode_failure
      (new_state_commitment s.chain_id s.covenant_id s.asset_id s.state_digest s.receipt_policy)
