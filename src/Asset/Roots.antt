-- ===== src/Asset/Roots.antt =====
-- The roots and the state digest of crates/rgk-asset/src/native.rs: allocations and shapes are put in the
-- order of their keys, written one after the other and hashed under a domain of their own.
pub mod Order
pub mod Wire
pub mod Binding
use rgk.Prelude.{
  ℕ, ◌%◌, ◌^◌, Bool, List, [], ◌∷◌, ◌++◌, codes, length, Option, none, some, sort_by_key, pair_ord,
  bytes_ord, Ord, list_eq, nat_eq, PartialEq, nat_ord,
}
use rgk.Core.Bytes.{Bytes32, zero32}
use rgk.Core.Chain.{KaspaChainId, chain_as_u8}
use rgk.Core.Encoding.{to_le}
use rgk.Core.Types.{KaspaOutpoint, outpoint_ord, outpoint_eq}
use rgk.Core.Commit.{domain_hash_str}
use rgk.Asset.Policies.{LanePrivacyPolicy, privacy_as_u8}
use rgk.Asset.Records.{RgkAllocation, RgkBurnProof, RgkContinuationAllocationShape}

unfoldable pub encode_allocation : RgkAllocation → List ℕ
encode_allocation a =
    chain_as_u8 a.anchor.chain
    ∷ (a.anchor.covenant_outpoint.transaction_id
        ++ (to_le 4 a.anchor.covenant_outpoint.index
            ++ (a.anchor.covenant_id
                ++ (a.anchor.witness_txid
                    ++ (to_le 8 a.anchor.daa_score
                        ++ (to_le 8 a.anchor.confirmation_depth
                            ++ (to_le 8 a.amount ++ a.encrypted_note_commitment)))))))

unfoldable pub encode_burn_proof : Option RgkBurnProof → List ℕ
encode_burn_proof none = 0 ∷ []
encode_burn_proof (some proof) = 1 ∷ (to_le 8 proof.amount ++ proof.authorization_commitment)

unfoldable pub burn_authorization_commitment : Option RgkBurnProof → Bytes32
burn_authorization_commitment none = zero32
burn_authorization_commitment (some proof) = proof.authorization_commitment

abbrev pub AllocationKey : Type 0
AllocationKey = KaspaOutpoint × (Bytes32 × (Bytes32 × (ℕ × ℕ)))

unfoldable pub allocation_key : RgkAllocation → AllocationKey
allocation_key a = (
  a.anchor.covenant_outpoint,
  (a.anchor.covenant_id, (a.anchor.witness_txid, (a.anchor.daa_score, a.amount))),
)

unfoldable pub encode_allocations : List RgkAllocation → List ℕ
encode_allocations [] = []
encode_allocations (a ∷ ordered) = encode_allocation a ++ encode_allocations ordered

unfoldable pub allocation_payload : List RgkAllocation → List ℕ
allocation_payload allocations =
    let ordered = sort_by_key allocation_key allocations in
    to_le 4 (length ordered % 2 ^ 32) ++ encode_allocations ordered

abbrev pub ShapeKey : Type 0
ShapeKey = ℕ × (Bytes32 × (Bytes32 × ℕ))

-- The key of `continuation_shape_root`.
unfoldable pub shape_key : RgkContinuationAllocationShape → ShapeKey
shape_key s = (s.output_index, (s.covenant_id, (s.encrypted_note_commitment, s.amount)))

unfoldable pub encode_shapes : List RgkContinuationAllocationShape → List ℕ
encode_shapes [] = []
encode_shapes (s ∷ ordered) =
    to_le 4 s.output_index
    ++ (s.covenant_id
        ++ (to_le 8 s.amount ++ (s.encrypted_note_commitment ++ encode_shapes ordered)))

unfoldable pub shape_payload : KaspaChainId → List RgkContinuationAllocationShape → List ℕ
shape_payload chain shapes =
    let ordered = sort_by_key shape_key shapes in
    chain_as_u8 chain ∷ (to_le 4 (length ordered % 2 ^ 32) ++ encode_shapes ordered)

pub record RgkStateDigestInput : Type 0 where
  pub asset_id : Bytes32
  pub total_supply : ℕ
  pub allocations : List RgkAllocation
  pub lane_id : Bytes32
  pub privacy_policy : LanePrivacyPolicy
  pub policy_commitment : Bytes32
  pub metadata_commitment : Bytes32
  pub owner_commitment : Bytes32

abbrev pub allocation_root_domain : List ℕ
allocation_root_domain = codes "rgk:asset:allocation-root:v1"

abbrev pub shape_root_domain : List ℕ
shape_root_domain = codes "rgk:continuation:shape-root:v1"

abbrev pub state_domain : List ℕ
state_domain = codes "rgk:asset:state:v2"

-- The payload of `state_digest_for_allocations` after its root is known.
unfoldable pub state_payload : Bytes32 → RgkStateDigestInput → List ℕ
state_payload root input =
    input.asset_id
    ++ (to_le 8 input.total_supply
        ++ (root
            ++ (input.policy_commitment
                ++ (input.metadata_commitment
                    ++ (input.owner_commitment
                        ++ (privacy_as_u8 input.privacy_policy ∷ input.lane_id))))))

module _ (sha256 : List ℕ → Bytes32) where
  unfoldable pub allocation_root : List RgkAllocation → Bytes32
  unfolding allocation_payload
  allocation_root allocations =
      domain_hash_str sha256 allocation_root_domain (allocation_payload allocations)

  unfoldable pub continuation_shape_root :
      KaspaChainId → List RgkContinuationAllocationShape → Bytes32
  unfolding shape_payload
  continuation_shape_root chain shapes =
      domain_hash_str sha256 shape_root_domain (shape_payload chain shapes)

  unfoldable pub state_digest_for_allocations : RgkStateDigestInput → Bytes32
  unfolding state_payload
  state_digest_for_allocations input =
      domain_hash_str sha256 state_domain (state_payload (allocation_root input.allocations) input)
