-- ===== src/Asset/Supply/Delta.antt =====
-- Which pairs of supplies pass with which burn, and the policies and owners that pass.
use rgk.Prelude.{
  String, ℕ, zero, suc, ◌+◌, ◌-◌, ◌≤◌, ◌≡◌, ◌≢◌, ◌↔◌, refl, true, Option, none, some, List, [], ◌∷◌,
  ok, ◌≟◌, nat_eq, list_eq, bool_eq, arith, dec_le, ensured, rejected, checked, rejected_last,
  returned, avoided, err_ok, All, cons_nil,
}
use rgk.Core.Bytes.{Bytes32}
use rgk.Asset.Policies.{
  RgkProofPolicy, verifier_receipt, zk_receipt, hybrid, ImageIdPolicy, fixed, allowed_set,
  policy_branch, is_zero32, validate_policy, validate_images, reject_zero_images, policy_commitment,
  policy_digest,
}
use rgk.Asset.Records.{RgkBurnProof}
use rgk.Asset.Supply.{
  judge_burn, validate_supply_delta, validate_common, validate_metadata_commitment,
  validate_owner_commitment, validate_ownership_handoff,
}
use rgk.Asset.Supply.Sets.{NonZero}

-- A burn proof accounts for exactly what is burned: no proof for nothing, and else an authorised one.
abbrev pub Accounts : ℕ → Option RgkBurnProof → Type 0
Accounts burned none = burned ≡ 0
Accounts burned (some proof) =
    (proof.amount ≡ burned) × (¬ (burned ≡ 0) × NonZero proof.authorization_commitment)

judge_burn_iff :
    (spent new gap total : ℕ) (burn : Option RgkBurnProof)
    → (judge_burn spent new gap burn ≡ ok total) ↔ (Accounts gap burn × (total ≡ gap))
unfolding judge_burn
judge_burn_iff spent new zero total none =
    (λ h. (refl, (returned total).0 h), λ (_, e). (returned total).1 e)
judge_burn_iff spent new zero total (some proof) =
    (λ h. absurd (err_ok (avoided (proof.amount ≟ 0) _ h).1), λ ((_, (n, _)), _). absurd (n refl))
judge_burn_iff spent new (suc less) total none = (λ h. cc, λ (e, _). absurd (omega arith))
judge_burn_iff spent new (suc less) total (some proof) =
    let (there, back) = rejected (proof.amount ≟ 0) _ (
      rejected (is_zero32 proof.authorization_commitment ≟ true) _
        (ensured (proof.amount ≟ suc less) _ (returned total))) in
    (
      λ h. let (_, (z, (same, e))) = there h in ((same, (omega arith, z)), e),
      λ ((same, (_, z)), e). back (omega arith, (z, (same, e))),
    )

-- What a proof burns, and what a proof has to carry.
abbrev pub burned : Option RgkBurnProof → ℕ
burned none = 0
burned (some proof) = proof.amount

abbrev pub IsBurn : Option RgkBurnProof → Type 0
IsBurn none = Unit {0}
IsBurn (some proof) = ¬ (proof.amount ≡ 0) × NonZero proof.authorization_commitment

Accounts-iff :
    (spent new : ℕ) (burn : Option RgkBurnProof)
    → ((new ≤ spent) × Accounts (spent - new) burn) ↔ ((spent ≡ new + burned burn) × IsBurn burn)
Accounts-iff spent new none = (λ (le, e). (omega arith, tt), λ (e, _). (omega arith, omega arith))
Accounts-iff spent new (some proof) = (
  λ (le, (same, (n, z))). (omega arith, (λ e. n (omega arith), z)),
  λ (e, (n, z)). (omega arith, (omega arith, (λ k. n (omega arith), z))),
)

-- Nothing is created, and what is missing is burned with authority.
pub supply_delta_iff :
    (spent new : ℕ) (burn : Option RgkBurnProof) (gone : ℕ)
    → (validate_supply_delta spent new burn ≡ ok gone)
      ↔ (((spent ≡ new + burned burn) × IsBurn burn) × (gone ≡ burned burn))
unfolding validate_supply_delta
supply_delta_iff spent new burn gone =
    let (there, back) =
      ensured (dec_le new spent) _ (judge_burn_iff spent new (spent - new) gone burn) in
    let (forth, hence) = Accounts-iff spent new burn in
    (
      λ h.
          let (le, (acc, e)) = there h in
          let (same, fine) = forth (le, acc) in ((same, fine), omega arith),
      λ ((same, fine), e). let (le, acc) = hence (same, fine) in back (le, (acc, omega arith)),
    )

-- A policy names its keys and at least one image.
abbrev pub NamesImages : ImageIdPolicy → Type 0
NamesImages (fixed image_id) = NonZero image_id
NamesImages (allowed_set set) = set ≢ [] × All NonZero set
NamesImages (policy_branch branch) = NonZero branch

abbrev pub NamesKeys : RgkProofPolicy → Type 0
NamesKeys (verifier_receipt key) = NonZero key
NamesKeys (zk_receipt key images) = NonZero key × NamesImages images
NamesKeys (hybrid hash key) = NonZero hash × NonZero key

reject_zero_images_iff : (set : List Bytes32) → (reject_zero_images set ≡ ok tt) ↔ All NonZero set
unfolding reject_zero_images
reject_zero_images_iff [] = (λ _. tt, λ _. refl)
reject_zero_images_iff (image ∷ set) =
    rejected (is_zero32 image ≟ true) _ (reject_zero_images_iff set)

validate_images_iff : (p : ImageIdPolicy) → (validate_images p ≡ ok tt) ↔ NamesImages p
unfolding validate_images
validate_images_iff (fixed image_id) = rejected_last (is_zero32 image_id ≟ true) _
validate_images_iff (allowed_set []) = (λ h. cc, λ (n, _). absurd (n refl))
validate_images_iff (allowed_set (image ∷ set)) =
    let (there, back) = reject_zero_images_iff (image ∷ set) in
    (λ h. (λ e. cons_nil e, there h), λ (_, all). back all)
validate_images_iff (policy_branch branch) = rejected_last (is_zero32 branch ≟ true) _

pub validate_policy_iff : (p : RgkProofPolicy) → (validate_policy p ≡ ok tt) ↔ NamesKeys p
unfolding validate_policy
validate_policy_iff (verifier_receipt key) = rejected_last (is_zero32 key ≟ true) _
validate_policy_iff (zk_receipt key images) =
    rejected (is_zero32 key ≟ true) _ (validate_images_iff images)
validate_policy_iff (hybrid hash key) =
    rejected (is_zero32 hash ≟ true) _ (rejected_last (is_zero32 key ≟ true) _)

-- The checks that every object of an asset shares.
abbrev pub IsCommon : Bytes32 → Bytes32 → ℕ → Bytes32 → RgkProofPolicy → Type 0
IsCommon schema asset total lane policy =
    NonZero schema × (NonZero asset × (¬ (total ≡ 0) × (NonZero lane × NamesKeys policy)))

pub validate_common_iff :
    (schema asset : Bytes32) (total : ℕ) (lane : Bytes32) (policy : RgkProofPolicy)
    → (validate_common schema asset total lane policy ≡ ok tt)
      ↔ IsCommon schema asset total lane policy
unfolding validate_common
validate_common_iff schema asset total lane policy = rejected (is_zero32 schema ≟ true) _ (
    rejected (is_zero32 asset ≟ true) _
      (rejected (total ≟ 0) _ (rejected (is_zero32 lane ≟ true) _ (validate_policy_iff policy))))

-- A change of owner is authorised.
abbrev pub IsHandoff : Bytes32 → Bytes32 → Bytes32 → Type 0
IsHandoff previous new authorization = previous ≢ new → NonZero authorization

pub IsHandoff-iff :
    (previous new authorization : Bytes32)
    → (validate_ownership_handoff previous new authorization ≡ ok tt)
      ↔ IsHandoff previous new authorization
unfolding validate_ownership_handoff
IsHandoff-iff previous new authorization = ground arith

-- A policy that names its keys has a commitment.
pub policy_commitment_iff :
    (sha256 : List ℕ → Bytes32) (p : RgkProofPolicy) (c : Bytes32)
    → (policy_commitment sha256 p ≡ ok c) ↔ (NamesKeys p × (c ≡ policy_digest sha256 p))
unfolding policy_commitment
policy_commitment_iff sha256 p c = checked (validate_policy p) (validate_policy_iff p) (returned c)

pub metadata_iff : (b : Bytes32) → (validate_metadata_commitment b ≡ ok tt) ↔ NonZero b
unfolding validate_metadata_commitment
metadata_iff b = rejected_last (is_zero32 b ≟ true) _

pub owner_iff :
    (b : Bytes32) (role : String) → (validate_owner_commitment b role ≡ ok tt) ↔ NonZero b
unfolding validate_owner_commitment
owner_iff b role = rejected_last (is_zero32 b ≟ true) _
