-- ===== src/Receipt/Verify.antt =====
-- What local verification accepts.
use rgk.Prelude.{
  ℕ, ◌≡◌, sym, ◌<◌, ◌↔◌, true, List, All, length, ok, >>=-eq-ok, map_err, map_err-eq-ok, passed,
  ensure-of, ◌≟◌, nat_eq, list_eq, bool_eq,
}
use rgk.Core.Bytes.{Bytes32, IsByte}
use rgk.Core.Chain.{KaspaChainId, chain_eq}
use rgk.Core.Policy.{ReceiptPolicy, admits}
use rgk.Core.Encoding.{usize_mod, encode_canonical, decode_canonical}
use rgk.Core.Types.{RgkStateCommitment, RgkReceipt}
use rgk.Core.Types.Wire.{receipt_canonical}
use rgk.Core.Types.Codec.{IsTypedReceipt}
use rgk.Core.Types.Receipts.{decode_receipt_canonical, decode-encode_receipt}
use rgk.Core.Commit.{receipt_commitment}
use rgk.Receipt.{decode_failure, verify_local, verify_local_structured}

-- What the verifier checks of a receipt that it has decoded.
pub record Matches (r : RgkReceipt) (covenant : Bytes32) (old : RgkStateCommitment)
    (chain : KaspaChainId) : Type 0 where
  pub same_chain : r.chain_id ≡ chain
  pub same_covenant : r.covenant_id ≡ covenant
  pub old_asset : r.old_state.asset_id ≡ old.asset_id
  pub new_asset : r.new_state.asset_id ≡ old.asset_id
  pub old_digest : r.old_state.state_digest ≡ old.state_digest
  pub admitted : admits old.receipt_policy r.proof_mode ≡ true

module _ (sha256 : List ℕ → Bytes32) (covenant : Bytes32) (old : RgkStateCommitment)
    (chain : KaspaChainId) where
  structured_sound :
      (r : RgkReceipt) {id : Bytes32}
      → verify_local_structured sha256 r covenant old chain ≡ ok id
      → Matches r covenant old chain × (id ≡ receipt_commitment sha256 r)
  unfolding verify_local_structured
  structured_sound r e =
      let (c, e1) = passed (r.chain_id ≟ chain) _ e in
      let (k, e2) = passed (r.covenant_id ≟ covenant) _ e1 in
      let (a, e3) = passed (r.old_state.asset_id ≟ old.asset_id) _ e2 in
      let (b, e4) = passed (r.new_state.asset_id ≟ old.asset_id) _ e3 in
      let (d, e5) = passed (r.old_state.state_digest ≟ old.state_digest) _ e4 in
      let (m, e6) = passed (admits old.receipt_policy r.proof_mode ≟ true) _ e5 in
      (
        record {
          same_chain = c;
          same_covenant = k;
          old_asset = a;
          new_asset = b;
          old_digest = d;
          admitted = m;
        },
        cc e6,
      )

  pub structured_complete :
      (r : RgkReceipt)
      → Matches r covenant old chain
      → verify_local_structured sha256 r covenant old chain ≡ ok (receipt_commitment sha256 r)
  unfolding verify_local_structured
  structured_complete r h = rw (
    ensure-of (r.chain_id ≟ chain) _ h.same_chain,
    ensure-of (r.covenant_id ≟ covenant) _ h.same_covenant,
    ensure-of (r.old_state.asset_id ≟ old.asset_id) _ h.old_asset,
    ensure-of (r.new_state.asset_id ≟ old.asset_id) _ h.new_asset,
    ensure-of (r.old_state.state_digest ≟ old.state_digest) _ h.old_digest,
    ensure-of (admits old.receipt_policy r.proof_mode ≟ true) _ h.admitted,
  )

  verify_local_sound :
      (bytes : List ℕ) {id : Bytes32}
      → length bytes < usize_mod
      → All IsByte bytes
      → verify_local sha256 bytes covenant old chain ≡ ok id
      → (r : RgkReceipt) × (bytes ≡ encode_canonical r)
        × IsTypedReceipt r
        × Matches r covenant old chain
        × (id ≡ receipt_commitment sha256 r)
  unfolding verify_local
  verify_local_sound bytes fits range e =
      let (r, p, q) =
        >>=-eq-ok (map_err decode_failure (decode_canonical ⦃c = receipt_canonical⦄ bytes)) _ e in
      let (typed, same) =
        decode_receipt_canonical bytes r fits range (map_err-eq-ok decode_failure _ p) in
      let (matches, id) = structured_sound r q in (r, sym same, typed, matches, id)

  verify_local_complete :
      (r : RgkReceipt)
      → IsTypedReceipt r
      → Matches r covenant old chain
      → verify_local sha256 (encode_canonical r) covenant old chain
        ≡ ok (receipt_commitment sha256 r)
  unfolding verify_local
  verify_local_complete r t h = rw (decode-encode_receipt r t) (structured_complete r h)

-- For every buffer of fewer than 2^64 bytes: local verification answers an id exactly when the buffer is the canonical
-- encoding of some receipt in range and structurally valid that is on the verifier's chain, under the
-- covenant, of the expected asset on both sides, from the expected digest, with a mode that the expected
-- policy admits; and the id is then that receipt's commitment. Nothing is asked of the replay nonce: a
-- receipt with the zero nonce is accepted as well.
pub verify_local_iff :
    (sha256 : List ℕ → Bytes32) (covenant : Bytes32) (old : RgkStateCommitment)
    (chain : KaspaChainId) (bytes : List ℕ) (id : Bytes32)
    → length bytes < usize_mod
    → All IsByte bytes
    → (verify_local sha256 bytes covenant old chain ≡ ok id) ↔ (
        (r : RgkReceipt) × (bytes ≡ encode_canonical r)
        × IsTypedReceipt r
        × Matches r covenant old chain
        × (id ≡ receipt_commitment sha256 r))
verify_local_iff sha256 covenant old chain bytes id fits range = (
  verify_local_sound sha256 covenant old chain bytes fits range,
  λ (r, same, typed, matches, e).
      rw (same, e) (verify_local_complete sha256 covenant old chain r typed matches),
)

-- Local verification does not compare the receipt's policy with the expected one: two expected states that
-- differ only in their policies, both of which admit the receipt's mode, get the same answer.
pub verify_local_ignores_policy :
    (sha256 : List ℕ → Bytes32) (r : RgkReceipt) (covenant : Bytes32) (old : RgkStateCommitment)
    (chain : KaspaChainId) (policy : ReceiptPolicy)
    → admits old.receipt_policy r.proof_mode ≡ true
    → admits policy r.proof_mode ≡ true
    → verify_local_structured sha256 r covenant (record old { receipt_policy = policy }) chain
      ≡ verify_local_structured sha256 r covenant old chain
unfolding verify_local_structured
verify_local_ignores_policy sha256 r covenant old chain policy p q = rw (
  ensure-of (admits policy r.proof_mode ≟ true) _ q,
  ensure-of (admits old.receipt_policy r.proof_mode ≟ true) _ p,
)
