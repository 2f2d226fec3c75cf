-- ===== src/Core/Policy/Codec.antt =====
-- Proof modes and receipt policies are read back as written.
use rgk.Prelude.{◌≡◌, some, refl, arith, [], ◌∷◌}
use rgk.Core.Policy.{
  ProofMode, verifier_receipt, ReceiptPolicy, any, mode_tag, mode_as_u8, mode_from_tag, decode_mode,
  policy_tag, policy_as_u8, policy_from_tag, decode_policy,
}
use rgk.Core.Error.{unknown_proof_mode, unknown_receipt_policy}
use rgk.Core.Encoding.Codec.{IsCodec}
use rgk.Core.Encoding.Tagged.{IsTagged, tagged-IsCodec}

mode_from_tag-mode_as_u8 : (c : ProofMode) → mode_from_tag (mode_as_u8 c) ≡ some c
unfolding mode_from_tag mode_as_u8
mode_from_tag-mode_as_u8 verifier_receipt = refl
mode_from_tag-mode_as_u8 _ = refl

mode_tags : IsTagged mode_tag mode_as_u8 mode_from_tag unknown_proof_mode
unfolding mode_from_tag mode_as_u8
mode_tags = record {
  small = λ c. ground arith;
  known = mode_from_tag-mode_as_u8;
  only = λ v c e. ground arith;
}

pub mode-IsCodec : IsCodec (λ c. Unit {0}) (λ c. mode_tag ∷ mode_as_u8 c ∷ []) decode_mode
unfolding decode_mode
mode-IsCodec =
    tagged-IsCodec mode_tag mode_as_u8 mode_from_tag unknown_proof_mode (omega arith) mode_tags

policy_from_tag-policy_as_u8 : (c : ReceiptPolicy) → policy_from_tag (policy_as_u8 c) ≡ some c
unfolding policy_from_tag policy_as_u8
policy_from_tag-policy_as_u8 any = refl
policy_from_tag-policy_as_u8 _ = refl

policy_tags : IsTagged policy_tag policy_as_u8 policy_from_tag unknown_receipt_policy
unfolding policy_from_tag policy_as_u8
policy_tags = record {
  small = λ c. ground arith;
  known = policy_from_tag-policy_as_u8;
  only = λ v c e. ground arith;
}

pub policy-IsCodec : IsCodec (λ c. Unit {0}) (λ c. policy_tag ∷ policy_as_u8 c ∷ []) decode_policy
unfolding decode_policy
policy-IsCodec =
    tagged-IsCodec policy_tag policy_as_u8 policy_from_tag unknown_receipt_policy (omega arith)
      policy_tags
