-- ===== src/Receipt/Build.antt =====
-- What the builder promises: its receipts verify.
use rgk.Prelude.{
  ℕ, ◌≡◌, refl, sym, List, ok, >>=-eq-ok, map_err-eq-ok, avoided, ◌≟◌, list_eq, nat_eq, arith,
}
use rgk.Core.Bytes.{Bytes32, IsBytes, zero32}
use rgk.Core.Encoding.{encoding_version, encode_canonical, decode_canonical}
use rgk.Core.Types.{RgkReceipt, new_receipt, validate_receipt}
use rgk.Core.Types.Wire.{receipt_canonical}
use rgk.Core.Types.Codec.{IsTypedState, IsTypedReceipt}
use rgk.Core.Types.Valid.{IsValidReceipt, validate_receipt_iff}
use rgk.Core.Types.Receipts.{decode-encode_receipt}
use rgk.Core.Commit.{receipt_commitment}
use rgk.Receipt.{ReceiptInput, decode_failure, to_validated_receipt, build, verify_local}
use rgk.Receipt.Verify.{Matches, structured_complete}

-- The receipt that an input describes.
abbrev pub receipt_of : ReceiptInput → RgkReceipt
receipt_of i = record {
  version = encoding_version;
  chain_id = i.chain_id;
  covenant_id = i.covenant_id;
  old_state = i.old_state;
  new_state = i.new_state;
  transition_digest = i.transition_digest;
  continuation_commitment = i.continuation_commitment;
  proof_mode = i.proof_mode;
  replay_nonce = i.replay_nonce;
}

-- The fields lie in the ranges of their Rust types.
pub record IsTypedInput (i : ReceiptInput) : Type 0 where
  pub covenant_id : IsBytes 32 i.covenant_id
  pub old_state : IsTypedState i.old_state
  pub new_state : IsTypedState i.new_state
  pub transition_digest : IsBytes 32 i.transition_digest
  pub continuation_commitment : IsBytes 32 i.continuation_commitment
  pub replay_nonce : IsBytes 32 i.replay_nonce

new_receipt-inv :
    (i : ReceiptInput) {r : RgkReceipt}
    → new_receipt i.chain_id i.covenant_id i.old_state i.new_state i.transition_digest
        i.continuation_commitment i.proof_mode i.replay_nonce
      ≡ ok r
    → (r ≡ receipt_of i) × (validate_receipt (receipt_of i) ≡ ok tt)
unfolding new_receipt
new_receipt-inv i e =
    let (_, valid, same) = >>=-eq-ok (validate_receipt (receipt_of i)) _ e in (cc same, valid)

to_validated_receipt-inv :
    (i : ReceiptInput) {r : RgkReceipt}
    → to_validated_receipt i ≡ ok r
    → (r ≡ receipt_of i) × (validate_receipt (receipt_of i) ≡ ok tt) × ¬ (i.replay_nonce ≡ zero32)
unfolding to_validated_receipt
to_validated_receipt-inv i e =
    let (_, e1) = avoided (i.transition_digest ≟ zero32) _ e in
    let (_, e2) = avoided (i.continuation_commitment ≟ zero32) _ e1 in
    let (nonce, e3) = avoided (i.replay_nonce ≟ zero32) _ e2 in
    let (same, valid) = new_receipt-inv i (map_err-eq-ok decode_failure _ e3) in
    (same, valid, nonce)

receipt_of-IsTypedReceipt :
    (i : ReceiptInput)
    → IsTypedInput i
    → validate_receipt (receipt_of i) ≡ ok tt
    → IsTypedReceipt (receipt_of i)
receipt_of-IsTypedReceipt i t valid = record {
  version = omega arith;
  covenant_id = t.covenant_id;
  old_state = t.old_state;
  new_state = t.new_state;
  transition_digest = t.transition_digest;
  continuation_commitment = t.continuation_commitment;
  replay_nonce = t.replay_nonce;
  valid = valid;
}

receipt_of-Matches :
    (i : ReceiptInput)
    → IsValidReceipt (receipt_of i)
    → Matches (receipt_of i) i.covenant_id i.old_state i.chain_id
receipt_of-Matches i v = record {
  same_chain = refl;
  same_covenant = refl;
  old_asset = refl;
  new_asset = sym v.same_asset;
  old_digest = refl;
  admitted = v.admitted;
}

-- What `build` returns, when it returns: the receipt that the input describes, with a nonce that is not
-- zero, its commitment as the id, and bytes that decode to it and that the local verifier accepts, with
-- the same id, against the input's own covenant, old state and chain.
pub build-verify :
    (sha256 : List ℕ → Bytes32) (i : ReceiptInput) (r : RgkReceipt) (id : Bytes32) (bytes : List ℕ)
    → IsTypedInput i
    → build sha256 i ≡ ok (r, id, bytes)
    → (r ≡ receipt_of i)
      × ¬ (i.replay_nonce ≡ zero32)
      × (id ≡ receipt_commitment sha256 r)
      × (decode_canonical bytes ≡ ok r)
      × (verify_local sha256 bytes i.covenant_id i.old_state i.chain_id ≡ ok id)
unfolding build verify_local
build-verify sha256 i r id bytes t e =
    let (q, p, e1) = >>=-eq-ok (to_validated_receipt i) _ e in
    let (same, valid, nonce) = to_validated_receipt-inv i p in
    let typed = receipt_of-IsTypedReceipt i t valid in
    let read = decode-encode_receipt (receipt_of i) typed in
    let is_r : receipt_of i ≡ r = cc (e1, same) in
    let is_id : receipt_commitment sha256 (receipt_of i) ≡ id = cc (e1, same) in
    let is_bytes : encode_canonical (receipt_of i) ≡ bytes = cc (e1, same) in
    (
      sym is_r,
      nonce,
      rw (← is_id, ← is_r),
      rw (← is_bytes, ← is_r) read,
      rw (← is_bytes, ← is_id, read)
          (structured_complete sha256 i.covenant_id i.old_state i.chain_id (receipt_of i)
            (receipt_of-Matches i ((validate_receipt_iff (receipt_of i)).0 valid))),
    )
