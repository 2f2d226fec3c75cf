-- ===== src/Asset/Roots/Binding.antt =====
-- What the allocation root and the state digest bind, and what they forget.
use mathlib.Core.List.{Perm}
use mathlib.Core.List.Perm
use rgk.Prelude.{
  ℕ, ◌^◌, ◌<◌, ◌≡◌, refl, sym, ap, ◌∙◌, ◌⊎◌, inl, inr, List, length, All, Distinct, Option, none,
  some, some_of, head_of, tail_of, sort_by_key, sort-perm, sort-All, length-sort, ◌==◌,
  if◌then◌else◌, arith, pair_ord, list_eq, nat_eq, bytes_ord, nat_ord,
}
use rgk.Core.Types.{outpoint_ord, outpoint_eq}
use rgk.Core.Bytes.{Bytes32}
use rgk.Core.Commit.{domain_hash_str}
use rgk.Core.Commit.Binding.{Collision, domain_hash_str_binding}
use rgk.Asset.Policies.{
  LanePrivacyPolicy, public_lineage, private_lane, stealth_lane, privacy_as_u8,
}
use rgk.Asset.Records.{RgkAllocation}
use rgk.Asset.Roots.{
  allocation_key, allocation_payload, allocation_root, allocation_root_domain, RgkStateDigestInput,
  state_payload, state_domain, state_digest_for_allocations,
}
use rgk.Asset.Roots.Order.{ordered-of_Perm}
use rgk.Asset.Roots.Wire.{IsTypedAllocation, encode_allocations-injective, hash_front, number_front}
use rgk.Asset.Supply.Sets.{outpoints}

-- One listing is a rearrangement of another exactly when the payloads agree.
payload-Perm :
    (xs ys : List RgkAllocation)
    → All IsTypedAllocation xs
    → All IsTypedAllocation ys
    → length xs < 2 ^ 32
    → length ys < 2 ^ 32
    → allocation_payload xs ≡ allocation_payload ys
    → Perm xs ys
unfolding allocation_payload
payload-Perm xs ys p q m n e =
    let a = sort_by_key allocation_key xs in
    let b = sort_by_key allocation_key ys in
    let (count, rest) = number_front 4 (omega arith) (omega arith) e in
    let sizes = length-sort allocation_key xs in
    let sizes' = length-sort allocation_key ys in
    let same =
      encode_allocations-injective a b (sort-All allocation_key IsTypedAllocation xs p)
        (sort-All allocation_key IsTypedAllocation ys q) (omega arith) rest in
    Perm.trans (Perm.symm (sort-perm allocation_key xs)) (rw same (sort-perm allocation_key ys))

module _ (sha256 : List ℕ → Bytes32) where
  -- The root of a set of allocations on distinct outpoints does not depend on the order in which they are
  -- listed, and two lists of well-typed allocations with one root are the same up to order, unless
  -- SHA-256 collides. Each list has fewer than 2^32 allocations.
  pub allocation_root_iff_Perm :
      (xs ys : List RgkAllocation)
      → All IsTypedAllocation xs
      → All IsTypedAllocation ys
      → length xs < 2 ^ 32
      → length ys < 2 ^ 32
      → Distinct (outpoints xs)
      → (Perm xs ys → allocation_root sha256 xs ≡ allocation_root sha256 ys)
        × (allocation_root sha256 xs ≡ allocation_root sha256 ys → Perm xs ys ⊎ Collision sha256)
  unfolding allocation_root allocation_payload
  allocation_root_iff_Perm xs ys p q m n d = (
    λ same. rw (ordered-of_Perm xs ys d same),
    λ e.
        elim (domain_hash_str_binding sha256 allocation_root_domain allocation_root_domain _ _
          (omega arith) (omega arith) e) [
            | inl (_, payload) ↦ inl (payload-Perm xs ys p q m n payload)
            | inr c ↦ inr c
          ],
  )

privacy_of : ℕ → Option LanePrivacyPolicy
privacy_of b =
    if b == 0
    then some public_lineage
    else if b == 1
    then some private_lane
    else if b == 2
    then some stealth_lane
    else none

privacy_of-privacy_as_u8 : (p : LanePrivacyPolicy) → privacy_of (privacy_as_u8 p) ≡ some p
unfolding privacy_of privacy_as_u8
privacy_of-privacy_as_u8 public_lineage = refl
privacy_of-privacy_as_u8 _ = refl

pub privacy_as_u8-injective : (p q : LanePrivacyPolicy) → privacy_as_u8 p ≡ privacy_as_u8 q → p ≡ q
privacy_as_u8-injective p q e =
    some_of (sym (privacy_of-privacy_as_u8 p) ∙ ap privacy_of e ∙ privacy_of-privacy_as_u8 q)

-- The ranges of a digest's input.
pub record IsTypedDigestInput (s : RgkStateDigestInput) : Type 0 where
  pub asset_id : length s.asset_id ≡ 32
  pub total_supply : s.total_supply < 2 ^ 64
  pub allocations : All IsTypedAllocation s.allocations
  pub count : length s.allocations < 2 ^ 32
  pub policy : length s.policy_commitment ≡ 32
  pub metadata : length s.metadata_commitment ≡ 32
  pub owner : length s.owner_commitment ≡ 32

-- All that a digest covers, the allocations up to order.
abbrev pub SameState : RgkStateDigestInput → RgkStateDigestInput → Type 0
SameState s t = Perm s.allocations t.allocations × (s ≡ record t { allocations = s.allocations })

module _ (sha256 : List ℕ → Bytes32) (wide : (x : List ℕ) → length (sha256 x) ≡ 32) where
  root_width : (xs : List RgkAllocation) → length (allocation_root sha256 xs) ≡ 32
  unfolding allocation_root domain_hash_str
  root_width xs = wide _

  -- Two asset states with one digest are the same state, their allocations up to order, unless SHA-256
  -- collides: the asset, the supply, the owner, the metadata, the policies and the lane agree. SHA-256
  -- answers 32 bytes, the allocations of the first state are on distinct outpoints, and in both states the
  -- fields, those of the allocations too but not the lane, have the widths of their types and there are
  -- fewer than 2^32 allocations.
  pub state_digest_binding :
      (s t : RgkStateDigestInput)
      → IsTypedDigestInput s
      → IsTypedDigestInput t
      → Distinct (outpoints s.allocations)
      → state_digest_for_allocations sha256 s ≡ state_digest_for_allocations sha256 t
      → SameState s t ⊎ Collision sha256
  unfolding state_digest_for_allocations state_payload
  state_digest_binding s t p q d e =
      elim (domain_hash_str_binding sha256 state_domain state_domain _ _ (omega arith) (omega arith)
        e) [
          | inl (_, e0) ↦
              let (asset, e1) = hash_front p.asset_id q.asset_id e0 in
              let (total, e2) = number_front 8 p.total_supply q.total_supply e1 in
              let (root, e3) =
                hash_front (root_width s.allocations) (root_width t.allocations) e2 in
              let (policy, e4) = hash_front p.policy q.policy e3 in
              let (metadata, e5) = hash_front p.metadata q.metadata e4 in
              let (owner, e6) = hash_front p.owner q.owner e5 in
              let privacy =
                privacy_as_u8-injective s.privacy_policy t.privacy_policy (head_of e6) in
              let lane = tail_of e6 in
              elim ((allocation_root_iff_Perm sha256 s.allocations t.allocations p.allocations
                  q.allocations p.count q.count d).1
                root) [ inl same ↦ inl (same, cc) | inr c ↦ inr c ]
          | inr c ↦ inr c
        ]
