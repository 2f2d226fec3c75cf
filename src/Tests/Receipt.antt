-- ===== src/Tests/Receipt.antt =====
-- The theorems on receipts at the sample data.
use rgk.Prelude.{
  ◌≡◌, ◌≢◌, ◌↔◌, ◌+◌, refl, false, [], ◌∷◌, ok, err, Distinct, arith, reject-of, ◌≟◌, nat_eq,
  list_eq, head_of,
}
unfoldable use rgk.Prelude.Equality.{contains}
use rgk.Core.Bytes.{Bytes32, zero32}
use rgk.Core.Chain.{kaspa_testnet}
use rgk.Core.Policy.{any, admits}
use rgk.Core.Encoding.{encode_canonical, decode_canonical}
use rgk.Core.Types.{RgkReceipt, RgkStateCommitment}
use rgk.Core.Types.Wire.{receipt_canonical}
use rgk.Core.Types.Codec.{IsTypedReceipt}
use rgk.Core.Commit.{receipt_commitment}
use rgk.Core.Types.{new_receipt}
use rgk.Core.Types.Valid.{validate_receipt_iff}
use rgk.Receipt.{
  to_validated_receipt, ReplaySet, new_replay_set, replay, record_id, contains_id, seen_count,
  build, verify_local, verify_local_structured,
}
use rgk.Receipt.Verify.{Matches, verify_local_iff, verify_local_ignores_policy}
use rgk.Receipt.Build.{receipt_of, build-verify}
use rgk.Receipt.Replay.{record_id_once}
use rgk.Tests.{
  toy_sha, fill, state_at, sample_input, sample_receipt, sample-IsTypedInput, sample-IsValidReceipt,
  sample-fits, sample-range,
}

abbrev one_id : ReplaySet
one_id = record { seen = fill 9 ∷ [] }

record_id_once_example :
    (contains_id new_replay_set (fill 9) ≡ false)
    × (record_id (fill 9) one_id ≡ err (replay (fill 9)))
    × ((other : Bytes32)
        → fill 9 ≢ other
        → contains_id one_id other ≡ contains_id new_replay_set other)
    × (seen_count one_id ≡ seen_count new_replay_set + 1)
    × (Distinct new_replay_set.seen → Distinct one_id.seen)
unfolding record_id contains
record_id_once_example = record_id_once (fill 9) new_replay_set one_id refl

verify_local_ignores_policy_example :
    verify_local_structured toy_sha sample_receipt
      (fill 1)
      (record (state_at (fill 3)) { receipt_policy = any })
      kaspa_testnet
    ≡ verify_local_structured toy_sha sample_receipt (fill 1) (state_at (fill 3)) kaspa_testnet
unfolding admits
verify_local_ignores_policy_example =
    verify_local_ignores_policy toy_sha sample_receipt (fill 1) (state_at (fill 3)) kaspa_testnet
      any refl refl

abbrev sample_old : RgkStateCommitment
sample_old = state_at (fill 3)

verify_local_iff_example :
    (verify_local toy_sha (encode_canonical sample_receipt) (fill 1) sample_old kaspa_testnet
      ≡ ok (receipt_commitment toy_sha sample_receipt))
    ↔ ((r : RgkReceipt) × (encode_canonical sample_receipt ≡ encode_canonical r)
        × IsTypedReceipt r
        × Matches r (fill 1) sample_old kaspa_testnet
        × (receipt_commitment toy_sha sample_receipt ≡ receipt_commitment toy_sha r))
verify_local_iff_example =
    verify_local_iff toy_sha (fill 1) sample_old kaspa_testnet (encode_canonical sample_receipt)
      (receipt_commitment toy_sha sample_receipt) sample-fits sample-range

sample-build :
    build toy_sha sample_input
    ≡ ok
        (sample_receipt, receipt_commitment toy_sha sample_receipt, encode_canonical sample_receipt)
unfolding build to_validated_receipt new_receipt
sample-build = rw (
  reject-of (fill 5 ≟ zero32) _ (λ e. omega (arith, head_of e)),
  reject-of (fill 6 ≟ zero32) _ (λ e. omega (arith, head_of e)),
  reject-of (fill 7 ≟ zero32) _ (λ e. omega (arith, head_of e)),
  (validate_receipt_iff sample_receipt).1 sample-IsValidReceipt,
)

build-verify_example :
    (sample_receipt ≡ receipt_of sample_input)
    × ¬ (sample_input.replay_nonce ≡ zero32)
    × (receipt_commitment toy_sha sample_receipt ≡ receipt_commitment toy_sha sample_receipt)
    × (decode_canonical (encode_canonical sample_receipt) ≡ ok sample_receipt)
    × (verify_local toy_sha (encode_canonical sample_receipt) (fill 1) sample_old kaspa_testnet
        ≡ ok (receipt_commitment toy_sha sample_receipt))
build-verify_example =
    build-verify toy_sha sample_input sample_receipt (receipt_commitment toy_sha sample_receipt)
      (encode_canonical sample_receipt) sample-IsTypedInput sample-build
