-- ===== src/Core/Types/Codec.antt =====
-- The wire types are codecs.
use rgk.Prelude.{ℕ, ◌<◌, ◌^◌, ◌≡◌, refl, List, [], ◌∷◌, ◌++◌, append_assoc, append-nil, ok}
use rgk.Core.Bytes.{IsBytes}
use rgk.Core.Chain.{KaspaChainId, chain_tag, chain_as_u8, encode_chain}
use rgk.Core.Chain.Codec.{chain-IsCodec}
use rgk.Core.Policy.{
  ProofMode, ReceiptPolicy, policy_tag, policy_as_u8, encode_policy, mode_tag, mode_as_u8,
  encode_mode,
}
use rgk.Core.Policy.Codec.{policy-IsCodec, mode-IsCodec}
use rgk.Core.Encoding.{Writer, to_le, write_u16, write_u8, write_bytes}
use rgk.Core.Encoding.Codec.{
  IsCodec, array-IsCodec, u16-IsCodec, u32-IsCodec, field-IsCodec, return-IsCodec, check-IsCodec,
  same-IsCodec,
}
use rgk.Core.Types.{
  KaspaOutpoint, RgkAssetRef, RgkStateCommitment, RgkReceipt, validate_state, validate_receipt,
}
use rgk.Core.Types.Wire.{
  decode_outpoint, encode_state, decode_state, encode_receipt, decode_receipt,
}

abbrev pub chain_bytes : KaspaChainId → List ℕ
chain_bytes c = chain_tag ∷ chain_as_u8 c ∷ []

abbrev pub policy_bytes : ReceiptPolicy → List ℕ
policy_bytes p = policy_tag ∷ policy_as_u8 p ∷ []

abbrev pub mode_bytes : ProofMode → List ℕ
mode_bytes m = mode_tag ∷ mode_as_u8 m ∷ []

abbrev pub outpoint_bytes : KaspaOutpoint → List ℕ
outpoint_bytes o = o.transaction_id ++ (to_le 4 o.index ++ [])

abbrev asset_ref_bytes : RgkAssetRef → List ℕ
asset_ref_bytes a = a.asset_id ++ (a.schema_id ++ [])

abbrev pub state_bytes : RgkStateCommitment → List ℕ
state_bytes s =
    to_le 2 s.version
    ++ (chain_bytes s.chain_id
        ++ (s.covenant_id
            ++ (s.asset_id ++ (s.state_digest ++ (policy_bytes s.receipt_policy ++ [])))))

abbrev pub receipt_bytes : RgkReceipt → List ℕ
receipt_bytes r =
    to_le 2 r.version
    ++ (chain_bytes r.chain_id
        ++ (r.covenant_id
            ++ (state_bytes r.old_state
                ++ (state_bytes r.new_state
                    ++ (r.transition_digest
                        ++ (r.continuation_commitment
                            ++ (mode_bytes r.proof_mode ++ (r.replay_nonce ++ []))))))))

outpoint_fields :
    IsCodec
      (λ (o : KaspaOutpoint).
        (IsBytes 32 o.transaction_id × ((o.index < 256 ^ 4) × Unit {0})) × Unit {0})
      outpoint_bytes
      decode_outpoint
unfolding decode_outpoint
outpoint_fields =
    field-IsCodec (λ o. o.transaction_id) _ _ (array-IsCodec 32)
      λ txid.
        field-IsCodec (λ o. o.index) _ _ u32-IsCodec
          λ index. return-IsCodec _ ((tt, refl), refl) (λ o h. cc)

state_fields :
    IsCodec
      (λ (s : RgkStateCommitment).
        ((s.version < 256 ^ 2)
          × (Unit {0}
              × (IsBytes 32 s.covenant_id
                  × (IsBytes 32 s.asset_id
                      × (IsBytes 32 s.state_digest × (Unit {0} × (validate_state s ≡ ok tt)))))))
        × Unit {0})
      state_bytes
      decode_state
unfolding decode_state
state_fields =
    field-IsCodec (λ s. s.version) _ _ u16-IsCodec
      λ version.
        field-IsCodec (λ s. s.chain_id) _ _ chain-IsCodec
          λ chain.
            field-IsCodec (λ s. s.covenant_id) _ _ (array-IsCodec 32)
              λ covenant.
                field-IsCodec (λ s. s.asset_id) _ _ (array-IsCodec 32)
                  λ asset.
                    field-IsCodec (λ s. s.state_digest) _ _ (array-IsCodec 32)
                      λ digest.
                        field-IsCodec (λ s. s.receipt_policy) _ _ policy-IsCodec
                          λ policy.
                            check-IsCodec _ ((((((tt, refl), refl), refl), refl), refl), refl)
                              (λ s h. cc)

-- The values of the fields lie in the ranges of their Rust types, and the value passes its check.
pub record IsTypedState (s : RgkStateCommitment) : Type 0 where
  pub version : s.version < 256 ^ 2
  pub covenant_id : IsBytes 32 s.covenant_id
  pub asset_id : IsBytes 32 s.asset_id
  pub state_digest : IsBytes 32 s.state_digest
  pub valid : validate_state s ≡ ok tt

pub record IsTypedReceipt (r : RgkReceipt) : Type 0 where
  pub version : r.version < 256 ^ 2
  pub covenant_id : IsBytes 32 r.covenant_id
  pub old_state : IsTypedState r.old_state
  pub new_state : IsTypedState r.new_state
  pub transition_digest : IsBytes 32 r.transition_digest
  pub continuation_commitment : IsBytes 32 r.continuation_commitment
  pub replay_nonce : IsBytes 32 r.replay_nonce
  pub valid : validate_receipt r ≡ ok tt

pub state-IsCodec : IsCodec IsTypedState state_bytes decode_state
state-IsCodec =
    same-IsCodec
      (λ s. (
        λ h. record {
          version = h.0.0;
          covenant_id = h.0.1.1.0;
          asset_id = h.0.1.1.1.0;
          state_digest = h.0.1.1.1.1.0;
          valid = h.0.1.1.1.1.1.1;
        },
        λ t.
            ((t.version, (tt, (t.covenant_id, (t.asset_id, (t.state_digest, (tt, t.valid)))))), tt),
      ))
      (λ s h. refl) state_fields

receipt_fields :
    IsCodec
      (λ (r : RgkReceipt).
        ((r.version < 256 ^ 2)
          × (Unit {0}
              × (IsBytes 32 r.covenant_id
                  × (IsTypedState r.old_state
                      × (IsTypedState r.new_state
                          × (IsBytes 32 r.transition_digest
                              × (IsBytes 32 r.continuation_commitment
                                  × (Unit {0}
                                      × (IsBytes 32 r.replay_nonce
                                          × (validate_receipt r ≡ ok tt))))))))))
        × Unit {0})
      receipt_bytes
      decode_receipt
unfolding decode_receipt
receipt_fields =
    field-IsCodec (λ r. r.version) _ _ u16-IsCodec
      λ version.
        field-IsCodec (λ r. r.chain_id) _ _ chain-IsCodec
          λ chain.
            field-IsCodec (λ r. r.covenant_id) _ _ (array-IsCodec 32)
              λ covenant.
                field-IsCodec (λ r. r.old_state) _ _ state-IsCodec
                  λ old.
                    field-IsCodec (λ r. r.new_state) _ _ state-IsCodec
                      λ new.
                        field-IsCodec (λ r. r.transition_digest) _ _ (array-IsCodec 32)
                          λ transition.
                            field-IsCodec (λ r. r.continuation_commitment) _ _ (array-IsCodec 32)
                              λ continuation.
                                field-IsCodec (λ r. r.proof_mode) _ _ mode-IsCodec
                                  λ mode.
                                    field-IsCodec (λ r. r.replay_nonce) _ _ (array-IsCodec 32)
                                      λ nonce.
                                        check-IsCodec _
                                          (
                                            (
                                              (
                                                ((((((tt, refl), refl), refl), refl), refl), refl),
                                                refl,
                                              ),
                                              refl,
                                            ),
                                            refl,
                                          )
                                          (λ r h. cc)

pub receipt-IsCodec : IsCodec IsTypedReceipt receipt_bytes decode_receipt
receipt-IsCodec =
    same-IsCodec
      (λ r. (
        λ h. record {
          version = h.0.0;
          covenant_id = h.0.1.1.0;
          old_state = h.0.1.1.1.0;
          new_state = h.0.1.1.1.1.0;
          transition_digest = h.0.1.1.1.1.1.0;
          continuation_commitment = h.0.1.1.1.1.1.1.0;
          replay_nonce = h.0.1.1.1.1.1.1.1.1.0;
          valid = h.0.1.1.1.1.1.1.1.1.1;
        },
        λ t. (
          (
            t.version,
            (
              tt,
              (
                t.covenant_id,
                (
                  t.old_state,
                  (
                    t.new_state,
                    (
                      t.transition_digest,
                      (t.continuation_commitment, (tt, (t.replay_nonce, t.valid))),
                    ),
                  ),
                ),
              ),
            ),
          ),
          tt,
        ),
      ))
      (λ r h. refl) receipt_fields

pub encode_state-append :
    (s : RgkStateCommitment) (w : Writer) → encode_state s w ≡ w ++ state_bytes s
unfolding encode_state encode_chain encode_policy write_u8 write_u16 write_bytes
encode_state-append s w = simp (append_assoc, append-nil)

pub encode_receipt-append :
    (r : RgkReceipt) (w : Writer) → encode_receipt r w ≡ w ++ receipt_bytes r
unfolding encode_receipt encode_chain encode_mode write_u8 write_u16 write_bytes
encode_receipt-append r w = simp (encode_state-append, append_assoc, append-nil)

pub outpoint-IsCodec :
    IsCodec (λ o. IsBytes 32 o.transaction_id × (o.index < 256 ^ 4)) outpoint_bytes decode_outpoint
outpoint-IsCodec =
    same-IsCodec (λ o. (λ h. (h.0.0, h.0.1.0), λ t. ((t.0, (t.1, tt)), tt))) (λ o h. refl)
      outpoint_fields
