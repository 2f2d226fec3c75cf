-- ===== src/Asset/Policies.antt =====
-- Proof policies of crates/rgk-asset/src/native.rs: what they must name, and their commitment.
use rgk.Prelude.{
  ℕ, ◌%◌, ◌^◌, Bool, true, false, List, [], ◌∷◌, ◌++◌, codes, length, if◌then◌else◌, ◌==◌, Result,
  ok, err, reject, ◌≟◌, bool_eq,
}
use rgk.Prelude.Results.{◌>>◌}
use rgk.Core.Bytes.{Bytes32}
use rgk.Core.Encoding.{to_le}
use rgk.Core.Commit.{domain_hash_str}
use rgk.Asset.Errors.{RgkAssetError, zero_verifier_key, unconstrained_image_id}

pub data LanePrivacyPolicy : Type 0 where
  public_lineage private_lane stealth_lane : LanePrivacyPolicy

-- `LanePrivacyPolicy::as_u8`
unfoldable pub privacy_as_u8 : LanePrivacyPolicy → ℕ
privacy_as_u8 public_lineage = 0
privacy_as_u8 private_lane = 1
privacy_as_u8 stealth_lane = 2

unfoldable pub exposes_public_fields : LanePrivacyPolicy → Bool
exposes_public_fields public_lineage = true
exposes_public_fields _ = false

pub data ImageIdPolicy : Type 0 where
  fixed : Bytes32 → ImageIdPolicy
  allowed_set : List Bytes32 → ImageIdPolicy
  policy_branch : Bytes32 → ImageIdPolicy

pub data RgkProofPolicy : Type 0 where
  verifier_receipt : (verifier_key_hash : Bytes32) → RgkProofPolicy
  zk_receipt : (verifier_key_id : Bytes32) (image_id_policy : ImageIdPolicy) → RgkProofPolicy
  hybrid : (verifier_key_hash verifier_key_id : Bytes32) → RgkProofPolicy

unfoldable pub is_zero32 : Bytes32 → Bool
is_zero32 [] = true
is_zero32 (b ∷ bytes) = let rest = is_zero32 bytes in if b == 0 then rest else false

abbrev pub reject_zero : Bytes32 → RgkAssetError → Result RgkAssetError (Unit {0})
reject_zero bytes error = reject (is_zero32 bytes ≟ true) error

-- The `for` over the allowed set.
unfoldable pub reject_zero_images : List Bytes32 → Result RgkAssetError (Unit {0})
reject_zero_images [] = ok tt
reject_zero_images (image_id ∷ set) =
    reject_zero image_id unconstrained_image_id >> reject_zero_images set

unfoldable pub validate_images : ImageIdPolicy → Result RgkAssetError (Unit {0})
validate_images (fixed image_id) = reject_zero image_id unconstrained_image_id
validate_images (allowed_set []) = err unconstrained_image_id
validate_images (allowed_set (image_id ∷ set)) = reject_zero_images (image_id ∷ set)
validate_images (policy_branch branch) = reject_zero branch unconstrained_image_id

-- `RgkProofPolicy::validate`
unfoldable pub validate_policy : RgkProofPolicy → Result RgkAssetError (Unit {0})
validate_policy (verifier_receipt verifier_key_hash) =
    reject_zero verifier_key_hash zero_verifier_key
validate_policy (zk_receipt verifier_key_id image_id_policy) =
    reject_zero verifier_key_id zero_verifier_key >> validate_images image_id_policy
validate_policy (hybrid verifier_key_hash verifier_key_id) =
    reject_zero verifier_key_hash zero_verifier_key >> reject_zero verifier_key_id zero_verifier_key

unfoldable pub joined : List Bytes32 → List ℕ
joined [] = []
joined (image_id ∷ set) = image_id ++ joined set

unfoldable pub encode_image_id_policy : ImageIdPolicy → List ℕ
encode_image_id_policy (fixed image_id) = 0 ∷ image_id
encode_image_id_policy (allowed_set set) = 1 ∷ to_le 4 (length set % 2 ^ 32) ++ joined set
encode_image_id_policy (policy_branch branch) = 2 ∷ branch

unfoldable pub encode_proof_policy : RgkProofPolicy → List ℕ
encode_proof_policy (verifier_receipt verifier_key_hash) = 0 ∷ verifier_key_hash
encode_proof_policy (zk_receipt verifier_key_id image_id_policy) =
    1 ∷ verifier_key_id ++ encode_image_id_policy image_id_policy
encode_proof_policy (hybrid verifier_key_hash verifier_key_id) =
    2 ∷ verifier_key_hash ++ verifier_key_id

abbrev pub policy_domain : List ℕ
policy_domain = codes "rgk:asset:policy:v1"

module _ (sha256 : List ℕ → Bytes32) where
  abbrev pub policy_digest : RgkProofPolicy → Bytes32
  policy_digest policy = domain_hash_str sha256 policy_domain (encode_proof_policy policy)

  -- `RgkProofPolicy::commitment`
  unfoldable pub policy_commitment : RgkProofPolicy → Result RgkAssetError Bytes32
  policy_commitment policy = validate_policy policy >> ok (policy_digest policy)
