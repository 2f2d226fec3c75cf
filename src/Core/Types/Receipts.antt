-- ===== src/Core/Types/Receipts.antt =====
-- State commitments and receipts on the wire: round trip, and no second encoding.
use rgk.Prelude.{
  ℕ, ◌<◌, ◌≡◌, refl, sym, ap, ◌∙◌, List, [], ◌++◌, All, All-join, length, length-append, ok, arith,
}
use rgk.Core.Bytes.{IsByte}
use rgk.Core.Chain.{KaspaChainId, chain_as_u8}
use rgk.Core.Policy.{ReceiptPolicy, ProofMode, policy_as_u8, mode_as_u8}
use rgk.Core.Encoding.{usize_mod, to_le, encode_canonical, decode_canonical}
use rgk.Core.Encoding.Widths.{to_le-IsByte, length-to_le}
use rgk.Core.Encoding.Codec.{same-IsCodec}
use rgk.Core.Encoding.Header.{header-bytes, IsLawful, header, framed, decode-encode, decode_exact}
use rgk.Core.Types.{RgkStateCommitment, RgkReceipt}
use rgk.Core.Types.Wire.{state_canonical, receipt_canonical}
use rgk.Core.Types.Codec.{
  IsTypedState, IsTypedReceipt, state-IsCodec, receipt-IsCodec, state_bytes, receipt_bytes,
  chain_bytes, policy_bytes, mode_bytes, encode_state-append, encode_receipt-append,
}

pub chain_bytes-IsByte : (c : KaspaChainId) → All IsByte (chain_bytes c)
unfolding chain_as_u8
chain_bytes-IsByte c = ground arith

pub policy_bytes-IsByte : (p : ReceiptPolicy) → All IsByte (policy_bytes p)
unfolding policy_as_u8
policy_bytes-IsByte p = ground arith

mode_bytes-IsByte : (m : ProofMode) → All IsByte (mode_bytes m)
unfolding mode_as_u8
mode_bytes-IsByte m = ground arith

module _ (s : RgkStateCommitment) (t : IsTypedState s) where
  pub state_bytes-IsByte : All IsByte (state_bytes s)
  state_bytes-IsByte =
      search
        (
          All-join IsByte,
          to_le-IsByte 2 s.version,
          chain_bytes-IsByte s.chain_id,
          t.covenant_id.bytes,
          t.asset_id.bytes,
          t.state_digest.bytes,
          policy_bytes-IsByte s.receipt_policy,
        )
        depth 12

  length-state_bytes : length (state_bytes s) ≡ 102
  length-state_bytes =
      simp
        (length-append, length-to_le, t.covenant_id.width, t.asset_id.width, t.state_digest.width)
        (omega arith)

module _ (r : RgkReceipt) (t : IsTypedReceipt r) where
  receipt_bytes-IsByte : All IsByte (receipt_bytes r)
  receipt_bytes-IsByte =
      search
        (
          All-join IsByte,
          to_le-IsByte 2 r.version,
          chain_bytes-IsByte r.chain_id,
          t.covenant_id.bytes,
          state_bytes-IsByte r.old_state t.old_state,
          state_bytes-IsByte r.new_state t.new_state,
          t.transition_digest.bytes,
          t.continuation_commitment.bytes,
          mode_bytes-IsByte r.proof_mode,
          t.replay_nonce.bytes,
        )
        depth 14

  length-receipt_bytes : length (receipt_bytes r) ≡ 338
  length-receipt_bytes =
      simp
        (
          length-append, length-to_le, t.covenant_id.width, t.transition_digest.width,
          t.continuation_commitment.width, t.replay_nonce.width,
        )
        (omega arith)

pub state-IsLawful : IsLawful state_canonical IsTypedState
state-IsLawful = record {
  appends = λ s w. encode_state-append s w ∙ sym (ap (λ b. w ++ b) (encode_state-append s []));
  typed_bytes = λ s t. rw (encode_state-append s []) (state_bytes-IsByte s t);
  codec =
      same-IsCodec (λ s. (λ t. t, λ t. t)) (λ s t. sym (encode_state-append s [])) state-IsCodec;
}

pub receipt-IsLawful : IsLawful receipt_canonical IsTypedReceipt
receipt-IsLawful = record {
  appends = λ r w. encode_receipt-append r w ∙ sym (ap (λ b. w ++ b) (encode_receipt-append r []));
  typed_bytes = λ r t. rw (encode_receipt-append r []) (receipt_bytes-IsByte r t);
  codec =
      same-IsCodec (λ r. (λ t. t, λ t. t)) (λ r t. sym (encode_receipt-append r []))
        receipt-IsCodec;
}

length-header : length header ≡ 10
unfolding to_le
length-header = refl

-- The canonical encoding of a receipt has 348 bytes.
pub length-encode_canonical :
    (r : RgkReceipt) → IsTypedReceipt r → length (encode_canonical r) ≡ 348
length-encode_canonical r t =
    rw (framed receipt-IsLawful r, encode_receipt-append r [])
      (omega
        (arith, length-append header (receipt_bytes r), length-header, length-receipt_bytes r t))

pub encode_canonical-IsByte : (r : RgkReceipt) → IsTypedReceipt r → All IsByte (encode_canonical r)
encode_canonical-IsByte r t =
    rw (framed receipt-IsLawful r)
      (All-join IsByte header _ header-bytes (receipt-IsLawful.typed_bytes r t))

-- A receipt whose fields are in range and that passes `validate_structure` is read back from its
-- canonical encoding.
pub decode-encode_receipt :
    (r : RgkReceipt) → IsTypedReceipt r → decode_canonical (encode_canonical r) ≡ ok r
decode-encode_receipt r t =
    decode-encode receipt-IsLawful r t (omega (arith, length-encode_canonical r t))

-- Every buffer of fewer than 2^64 bytes that is accepted as a receipt is the canonical encoding of the receipt that it
-- gives, whose fields are in range and which passes `validate_structure`: no receipt has a second
-- encoding.
pub decode_receipt_canonical :
    (buf : List ℕ) (r : RgkReceipt)
    → length buf < usize_mod
    → All IsByte buf
    → decode_canonical buf ≡ ok r
    → IsTypedReceipt r × (encode_canonical r ≡ buf)
decode_receipt_canonical buf r fits bytes e = decode_exact receipt-IsLawful buf fits bytes e
