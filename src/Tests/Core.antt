-- ===== src/Tests/Core.antt =====
-- The theorems on the core types at the sample data.
use rgk.Prelude.{◌≡◌, ◌⊎◌, ◌↔◌, refl, some, ok, arith}
use rgk.Core.Chain.{kaspa_testnet}
use rgk.Core.Policy.{verifier_only, verifier_receipt}
use rgk.Core.Encoding.{encode_canonical, decode_canonical}
use rgk.Core.Types.{validate_receipt}
use rgk.Core.Types.Wire.{receipt_canonical}
use rgk.Core.Types.Codec.{IsTypedReceipt}
use rgk.Core.Types.Receipts.{decode-encode_receipt, decode_receipt_canonical}
use rgk.Core.Types.Valid.{IsValidReceipt, validate_receipt_iff}
use rgk.Core.Commit.{receipt}
use rgk.Core.Commit.Domains.{domain_string-injective}
use rgk.Core.Commit.Binding.{Collision, domain_hash_binding}
use rgk.Core.Commit.Binding.Bodies.{forget_asset, commit_state_binding, receipt_commitment_binding}
use rgk.Tests.{
  toy_sha, fill, state_at, sample_receipt, sample-IsTypedReceipt, state-IsTypedState, sample-fits,
  sample-range,
}

decode-encode_receipt_example :
    decode_canonical (encode_canonical sample_receipt) ≡ ok sample_receipt
decode-encode_receipt_example = decode-encode_receipt sample_receipt sample-IsTypedReceipt

decode_receipt_canonical_example :
    IsTypedReceipt sample_receipt
    × (encode_canonical sample_receipt ≡ encode_canonical sample_receipt)
decode_receipt_canonical_example =
    decode_receipt_canonical (encode_canonical sample_receipt) sample_receipt sample-fits
      sample-range (decode-encode_receipt sample_receipt sample-IsTypedReceipt)

validate_receipt_iff_example :
    (validate_receipt sample_receipt ≡ ok tt) ↔ IsValidReceipt sample_receipt
validate_receipt_iff_example = validate_receipt_iff sample_receipt

domain_string-injective_example :
    (kaspa_testnet ≡ kaspa_testnet)
    × (verifier_only ≡ verifier_only)
    × (some verifier_receipt ≡ some verifier_receipt)
domain_string-injective_example =
    domain_string-injective kaspa_testnet kaspa_testnet verifier_only verifier_only
      (some verifier_receipt) (some verifier_receipt) refl

domain_hash_binding_example : ((receipt ≡ receipt) × (fill 9 ≡ fill 9)) ⊎ Collision toy_sha
domain_hash_binding_example = domain_hash_binding toy_sha receipt receipt (fill 9) (fill 9) refl

commit_state_binding_example : (state_at (fill 3) ≡ state_at (fill 3)) ⊎ Collision toy_sha
commit_state_binding_example =
    commit_state_binding toy_sha (state_at (fill 3)) (state_at (fill 3))
      (state-IsTypedState 3 (omega arith) (omega arith))
      (state-IsTypedState 3 (omega arith) (omega arith)) refl

receipt_commitment_binding_example :
    (forget_asset sample_receipt ≡ forget_asset sample_receipt) ⊎ Collision toy_sha
receipt_commitment_binding_example =
    receipt_commitment_binding toy_sha sample_receipt sample_receipt sample-IsTypedReceipt
      sample-IsTypedReceipt refl
