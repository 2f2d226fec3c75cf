-- ===== src/Tests.antt =====
-- Concrete data, and the theorems at it: a covenant of a test network, a receipt that advances its state, and a
-- digest function in the place of SHA-256.
pub mod Core
pub mod Receipt
pub mod Indexer
pub mod Rebuild
pub mod Store
pub mod Resolver
pub mod Asset
use rgk.Prelude.{
  ℕ, ◌+◌, ◌%◌, ◌<◌, ◌≡◌, refl, head_of, Option, none, some, List, [], ◌∷◌, replicate, length, All,
  ok, Result, arith,
}
use rgk.Core.Bytes.{Bytes32, IsByte, IsBytes}
use rgk.Core.Chain.{kaspa_testnet}
use rgk.Core.Policy.{ReceiptPolicy, verifier_only, verifier_receipt, admits}
use rgk.Core.Types.{KaspaOutpoint, RgkStateCommitment, RgkReceipt, validate_state, validate_receipt}
use rgk.Core.Types.Codec.{IsTypedState, IsTypedReceipt}
use rgk.Core.Encoding.{usize_mod, encode_canonical}
use rgk.Core.Types.Wire.{receipt_canonical}
use rgk.Core.Types.Receipts.{length-encode_canonical, encode_canonical-IsByte}
use rgk.Core.Types.Valid.{IsValidState, IsValidReceipt, validate_state_iff, validate_receipt_iff}
use rgk.Receipt.{ReceiptInput}
use rgk.Receipt.Build.{receipt_of, IsTypedInput}

abbrev pub fill : ℕ → Bytes32
fill n = replicate 32 n

abbrev pub toy_sha : List ℕ → Bytes32
toy_sha xs = fill (length xs % 200 + 50)

abbrev pub state_at : Bytes32 → RgkStateCommitment
state_at digest = record {
  version = 1;
  chain_id = kaspa_testnet;
  covenant_id = fill 1;
  asset_id = fill 2;
  state_digest = digest;
  receipt_policy = verifier_only;
}

abbrev pub sample_input : ReceiptInput
sample_input = record {
  chain_id = kaspa_testnet;
  covenant_id = fill 1;
  old_state = state_at (fill 3);
  new_state = state_at (fill 4);
  transition_digest = fill 5;
  continuation_commitment = fill 6;
  proof_mode = verifier_receipt;
  replay_nonce = fill 7;
}

abbrev pub sample_receipt : RgkReceipt
sample_receipt = receipt_of sample_input

state-IsValidState : (n : ℕ) → ¬ (n ≡ 0) → IsValidState (state_at (fill n))
state-IsValidState n h = record {
  version = refl;
  covenant_id = λ e. omega (arith, head_of e);
  asset_id = λ e. omega (arith, head_of e);
  state_digest = λ e. h (head_of e);
}

pub sample-IsValidReceipt : IsValidReceipt sample_receipt
unfolding admits
sample-IsValidReceipt = record {
  version = refl;
  old_state = state-IsValidState 3 (omega arith);
  new_state = state-IsValidState 4 (omega arith);
  old_chain = refl;
  new_chain = refl;
  old_covenant = refl;
  new_covenant = refl;
  same_asset = refl;
  same_policy = refl;
  advances = λ e. omega (arith, head_of e);
  transition = λ e. omega (arith, head_of e);
  continuation = λ e. omega (arith, head_of e);
  admitted = refl;
}

pub fill-IsBytes : (n : ℕ) → IsByte n → IsBytes 32 (fill n)
fill-IsBytes n h = record { width = refl; bytes = omega arith }

pub state-IsTypedState : (n : ℕ) → IsByte n → ¬ (n ≡ 0) → IsTypedState (state_at (fill n))
state-IsTypedState n h z = record {
  version = omega arith;
  covenant_id = fill-IsBytes 1 (omega arith);
  asset_id = fill-IsBytes 2 (omega arith);
  state_digest = fill-IsBytes n h;
  valid = (validate_state_iff (state_at (fill n))).1 (state-IsValidState n z);
}

pub sample-IsTypedReceipt : IsTypedReceipt sample_receipt
sample-IsTypedReceipt = record {
  version = omega arith;
  covenant_id = fill-IsBytes 1 (omega arith);
  old_state = state-IsTypedState 3 (omega arith) (omega arith);
  new_state = state-IsTypedState 4 (omega arith) (omega arith);
  transition_digest = fill-IsBytes 5 (omega arith);
  continuation_commitment = fill-IsBytes 6 (omega arith);
  replay_nonce = fill-IsBytes 7 (omega arith);
  valid = (validate_receipt_iff sample_receipt).1 sample-IsValidReceipt;
}

pub sample-IsTypedInput : IsTypedInput sample_input
sample-IsTypedInput = record {
  covenant_id = fill-IsBytes 1 (omega arith);
  old_state = state-IsTypedState 3 (omega arith) (omega arith);
  new_state = state-IsTypedState 4 (omega arith) (omega arith);
  transition_digest = fill-IsBytes 5 (omega arith);
  continuation_commitment = fill-IsBytes 6 (omega arith);
  replay_nonce = fill-IsBytes 7 (omega arith);
}

-- The encoding of the sample receipt is short and made of bytes.
pub sample-fits : length (encode_canonical sample_receipt) < usize_mod
sample-fits = omega (arith, length-encode_canonical sample_receipt sample-IsTypedReceipt)

pub sample-range : All IsByte (encode_canonical sample_receipt)
sample-range = encode_canonical-IsByte sample_receipt sample-IsTypedReceipt
