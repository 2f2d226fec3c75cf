-- ===== src/Asset/Transitions/Binding.antt =====
-- What a transition digest binds.
use rgk.Prelude.{
  ℕ, ◌^◌, ◌<◌, ◌≡◌, refl, ap, ◌⊎◌, inl, inr, Option, none, some, List, [], ◌∷◌, ◌++◌, length, All,
  append_assoc, head_of, tail_of, arith,
}
use rgk.Core.Bytes.{Bytes32}
use rgk.Core.Commit.{domain_hash_str}
use rgk.Core.Commit.Binding.{Collision, domain_hash_str_binding}
use rgk.Asset.Records.{RgkAllocation, RgkBurnProof, RgkTransition}
use rgk.Asset.Roots.{encode_burn_proof}
use rgk.Asset.Roots.Wire.{
  IsTypedAllocation, hash_front, number_front, allocation_front, chain_as_u8-injective,
}
use rgk.Asset.Roots.Binding.{privacy_as_u8-injective}
use rgk.Asset.Transitions.{transition_domain, encode_side, transition_payload}

abbrev pub IsTypedBurn : Option RgkBurnProof → Type 0
IsTypedBurn none = Unit {0}
IsTypedBurn (some b) = (b.amount < 2 ^ 64) × (length b.authorization_commitment ≡ 32)

pub burn_front :
    (b c : Option RgkBurnProof) {u v : List ℕ}
    → IsTypedBurn b
    → IsTypedBurn c
    → encode_burn_proof b ++ u ≡ encode_burn_proof c ++ v
    → (b ≡ c) × (u ≡ v)
unfolding encode_burn_proof
burn_front none none p q e = (refl, tail_of e)
burn_front none (some c) p q e = absurd (omega (arith, head_of e))
burn_front (some b) none p q e = absurd (omega (arith, head_of e))
burn_front (some b) (some c) p q e =
    let (amount, e1) = number_front 8 p.0 q.0 (simp append_assoc at (tail_of e)) in
    let (authority, rest) = hash_front p.1 q.1 e1 in (cc, rest)

-- One side of the transition, in its order.
side_front :
    (marker : ℕ) (xs ys : List RgkAllocation) (u v : List ℕ)
    → All IsTypedAllocation xs
    → All IsTypedAllocation ys
    → length xs ≡ length ys
    → encode_side marker xs ++ u ≡ encode_side marker ys ++ v
    → (xs ≡ ys) × (u ≡ v)
unfolding encode_side
side_front marker [] [] u v p q n e = (refl, e)
side_front marker [] (y ∷ ys) u v p q n e = absurd (omega arith)
side_front marker (x ∷ xs) [] u v p q n e = absurd (omega arith)
side_front marker (x ∷ xs) (y ∷ ys) u v p q n e =
    let (head, e1) =
      allocation_front x y (encode_side marker xs ++ u) (encode_side marker ys ++ v) p.0 q.0
        (simp append_assoc at (tail_of e)) in
    let (rest, end) = side_front marker xs ys u v p.1 q.1 (omega arith) e1 in (cc, end)

-- The ranges of a transition's fields.
pub record IsTypedTransition (t : RgkTransition) : Type 0 where
  pub schema_id : length t.schema_id ≡ 32
  pub asset_id : length t.asset_id ≡ 32
  pub total_supply : t.total_supply < 2 ^ 64
  pub metadata : length t.metadata_commitment ≡ 32
  pub previous_owner : length t.previous_owner_commitment ≡ 32
  pub new_owner : length t.new_owner_commitment ≡ 32
  pub authorization : length t.ownership_authorization_commitment ≡ 32
  pub previous_digest : length t.previous_state_digest ≡ 32
  pub spent : All IsTypedAllocation t.spent_allocations
  pub spent_count : length t.spent_allocations < 2 ^ 32
  pub created : All IsTypedAllocation t.new_allocations
  pub created_count : length t.new_allocations < 2 ^ 32
  pub burn : IsTypedBurn t.burn
  pub witness : length t.witness_txid ≡ 32
  pub lane : length t.lane_id ≡ 32

-- The payload determines every field but the proof policy, of which it holds the commitment.
transition_payload-injective :
    (t u : RgkTransition) (d f a b : Bytes32)
    → IsTypedTransition t
    → IsTypedTransition u
    → length d ≡ 32
    → length f ≡ 32
    → length a ≡ 32
    → length b ≡ 32
    → transition_payload t d a ≡ transition_payload u f b
    → (t ≡ record u { proof_policy = t.proof_policy }) × (d ≡ f) × (a ≡ b)
unfolding transition_payload
transition_payload-injective t u d f a b p q hd hf ha hb e =
    let chain = chain_as_u8-injective t.chain u.chain (head_of e) in
    let (schema, e1) = hash_front p.schema_id q.schema_id (tail_of e) in
    let (asset, e2) = hash_front p.asset_id q.asset_id e1 in
    let (total, e3) = number_front 8 p.total_supply q.total_supply e2 in
    let (previous, e4) = hash_front p.previous_digest q.previous_digest e3 in
    let (digest, e5) = hash_front hd hf e4 in
    let (witness, e6) = hash_front p.witness q.witness e5 in
    let (burn, e7) = burn_front t.burn u.burn p.burn q.burn e6 in
    let (lane, e8) = hash_front p.lane q.lane e7 in
    let privacy = privacy_as_u8-injective t.privacy_policy u.privacy_policy (head_of e8) in
    let (policy, e9) = hash_front ha hb (tail_of e8) in
    let (metadata, e10) = hash_front p.metadata q.metadata e9 in
    let (old, e11) = hash_front p.previous_owner q.previous_owner e10 in
    let (new, e12) = hash_front p.new_owner q.new_owner e11 in
    let (handoff, e13) = hash_front p.authorization q.authorization e12 in
    let (spent_count, e14) = number_front 4 (omega arith) (omega arith) e13 in
    let (spent, e15) =
      side_front b'i' t.spent_allocations u.spent_allocations _ _ p.spent q.spent
        (omega (arith, p.spent_count, q.spent_count)) e14 in
    let (created_count, e16) = number_front 4 (omega arith) (omega arith) e15 in
    let (created, _) =
      side_front b'o' t.new_allocations u.new_allocations [] [] p.created q.created
        (omega (arith, p.created_count, q.created_count)) (ap (λ l. l ++ []) e16) in
    (cc, digest, policy)

module _ (sha256 : List ℕ → Bytes32) where
  -- Two transitions with one digest are the same in every field but the proof policy, and the two policies
  -- have one commitment, unless SHA-256 collides. The fields have their types' ranges.
  pub transition_digest_binding :
      (t u : RgkTransition) (d f a b : Bytes32)
      → IsTypedTransition t
      → IsTypedTransition u
      → length d ≡ 32
      → length f ≡ 32
      → length a ≡ 32
      → length b ≡ 32
      → domain_hash_str sha256 transition_domain (transition_payload t d a)
        ≡ domain_hash_str sha256 transition_domain (transition_payload u f b)
      → ((t ≡ record u { proof_policy = t.proof_policy }) × (d ≡ f) × (a ≡ b)) ⊎ Collision sha256
  transition_digest_binding t u d f a b p q hd hf ha hb e =
      elim (domain_hash_str_binding sha256 transition_domain transition_domain _ _ (omega arith)
        (omega arith) e) [
          | inl (_, payload) ↦
              inl (transition_payload-injective t u d f a b p q hd hf ha hb payload)
          | inr c ↦ inr c
        ]
