-- ===== src/Asset/Transitions.antt =====
-- `RgkTransition` of crates/rgk-asset/src/native.rs: what a transition has to satisfy, and its report.
pub mod Valid
pub mod Binding
use rgk.Prelude.{
  ℕ, ◌+◌, ◌%◌, ◌^◌, true, List, [], ◌∷◌, ◌++◌, codes, length, map, Result, ok, err, ensure, reject,
  ◌≟◌, contains, list_eq, nat_eq, bool_eq, List-discrete,
}
use rgk.Prelude.Results.{◌>>◌, ◌>>=◌}
use rgk.Core.Bytes.{Bytes32}
use rgk.Core.Chain.{chain_as_u8}
use rgk.Core.Encoding.{to_le}
use rgk.Core.Types.{KaspaOutpoint, outpoint_eq}
use rgk.Core.Commit.{domain_hash_str}
use rgk.Asset.Errors.{
  RgkAssetError, zero_previous_state_digest, zero_transition_witness_txid, empty_allocations,
  previous_state_digest_mismatch, no_op_transition, reused_spent_anchor, transition_digest_mismatch,
}
use rgk.Asset.Policies.{is_zero32, privacy_as_u8, policy_commitment}
use rgk.Asset.Records.{RgkAllocation, RgkTransition, RgkTransitionReport}
use rgk.Asset.Roots.{
  encode_allocation, encode_burn_proof, burn_authorization_commitment, RgkStateDigestInput,
  state_digest_for_allocations,
}
use rgk.Asset.Shapes.{require_counts}
use rgk.Asset.Supply.{
  validate_common, validate_metadata_commitment, validate_owner_commitment,
  validate_ownership_handoff, validate_allocation_set_structure,
  validate_allocation_set_structure_allow_empty, validate_supply_delta,
}

abbrev pub transition_domain : List ℕ
transition_domain = codes "rgk:asset:transition:v2"

-- The two `for` loops of `transition_digest_unchecked`, each with its byte.
unfoldable pub encode_side : ℕ → List RgkAllocation → List ℕ
encode_side marker [] = []
encode_side marker (a ∷ rest) = marker ∷ (encode_allocation a ++ encode_side marker rest)

unfoldable pub transition_payload : RgkTransition → Bytes32 → Bytes32 → List ℕ
transition_payload t new_state_digest policy =
    chain_as_u8 t.chain
    ∷ (t.schema_id
        ++ (t.asset_id
            ++ (to_le 8 t.total_supply
                ++ (t.previous_state_digest
                    ++ (new_state_digest
                        ++ (t.witness_txid
                            ++ (encode_burn_proof t.burn
                                ++ (t.lane_id
                                    ++ (privacy_as_u8 t.privacy_policy
                                        ∷ (policy
                                            ++ (t.metadata_commitment
                                                ++ (t.previous_owner_commitment
                                                    ++ (t.new_owner_commitment
                                                        ++ (t.ownership_authorization_commitment
                                                            ++ (to_le 4
                                                            (length t.spent_allocations % 2 ^ 32)
                                                            ++ (encode_side b'i' t.spent_allocations
                                                            ++ (to_le 4
                                                            (length t.new_allocations % 2 ^ 32)
                                                            ++ encode_side b'o'
                                                            t.new_allocations)))))))))))))))))

-- The state before a transition, and the state after it.
abbrev pub previous_state : RgkTransition → Bytes32 → RgkStateDigestInput
previous_state t policy = record {
  asset_id = t.asset_id;
  total_supply = t.total_supply;
  allocations = t.spent_allocations;
  lane_id = t.lane_id;
  privacy_policy = t.privacy_policy;
  policy_commitment = policy;
  metadata_commitment = t.metadata_commitment;
  owner_commitment = t.previous_owner_commitment;
}

abbrev pub new_state : RgkTransition → Bytes32 → RgkStateDigestInput
new_state t policy = record {
  asset_id = t.asset_id;
  total_supply = t.total_supply;
  allocations = t.new_allocations;
  lane_id = t.lane_id;
  privacy_policy = t.privacy_policy;
  policy_commitment = policy;
  metadata_commitment = t.metadata_commitment;
  owner_commitment = t.new_owner_commitment;
}

-- The last `for` of `validate_structure`.
unfoldable pub check_reuse :
    List KaspaOutpoint → ℕ → List RgkAllocation → Result RgkAssetError (Unit {0})
check_reuse spent_outpoints index [] = ok tt
check_reuse spent_outpoints index (allocation ∷ allocations) =
    reject (contains spent_outpoints allocation.anchor.covenant_outpoint ≟ true)
      (reused_spent_anchor index)
    >> check_reuse spent_outpoints (index + 1) allocations

module _ (sha256 : List ℕ → Bytes32) where
  -- `RgkTransition::validate_structure`
  unfoldable pub transition_structure : RgkTransition → Result RgkAssetError (Unit {0})
  unfolding check_reuse
  transition_structure t = do
    validate_common t.schema_id t.asset_id t.total_supply t.lane_id t.proof_policy
    validate_metadata_commitment t.metadata_commitment
    validate_owner_commitment t.previous_owner_commitment "previous"
    validate_owner_commitment t.new_owner_commitment "new"
    validate_ownership_handoff t.previous_owner_commitment t.new_owner_commitment
        t.ownership_authorization_commitment
    reject (is_zero32 t.previous_state_digest ≟ true) zero_previous_state_digest
    reject (is_zero32 t.witness_txid ≟ true) zero_transition_witness_txid
    reject (length t.spent_allocations ≟ 0) empty_allocations
    spent_supply ← validate_allocation_set_structure t.chain t.spent_allocations
    new_supply ← validate_allocation_set_structure_allow_empty t.chain t.new_allocations
    burned ← validate_supply_delta spent_supply new_supply t.burn
    policy ← policy_commitment sha256 t.proof_policy
    ensure (state_digest_for_allocations sha256 (previous_state t policy) ≟ t.previous_state_digest)
        (previous_state_digest_mismatch t.previous_state_digest
          (state_digest_for_allocations sha256 (previous_state t policy)))
    reject (state_digest_for_allocations sha256 (new_state t policy) ≟ t.previous_state_digest)
        no_op_transition
    check_reuse (map (λ a. a.anchor.covenant_outpoint) t.spent_allocations) 0 t.new_allocations

  -- The report that `report_unchecked` fills in, from the supplies and the policy's commitment.
  abbrev pub transition_report_with : RgkTransition → ℕ → ℕ → ℕ → Bytes32 → RgkTransitionReport
  transition_report_with t spent new burned policy = record {
    chain = t.chain;
    schema_id = t.schema_id;
    asset_id = t.asset_id;
    total_supply = t.total_supply;
    metadata_commitment = t.metadata_commitment;
    previous_owner_commitment = t.previous_owner_commitment;
    new_owner_commitment = t.new_owner_commitment;
    ownership_authorization_commitment = t.ownership_authorization_commitment;
    spent_supply = spent;
    new_supply = new;
    burned_supply = burned;
    burn_authorization_commitment = burn_authorization_commitment t.burn;
    spent_allocation_count = length t.spent_allocations;
    new_allocation_count = length t.new_allocations;
    lane_id = t.lane_id;
    privacy_policy = t.privacy_policy;
    policy_commitment = policy;
    previous_state_digest = t.previous_state_digest;
    new_state_digest = state_digest_for_allocations sha256 (new_state t policy);
    transition_digest =
        domain_hash_str sha256 transition_domain
          (transition_payload t (state_digest_for_allocations sha256 (new_state t policy)) policy);
  }

  -- `RgkTransition::report_unchecked`
  unfoldable pub transition_report_unchecked :
      RgkTransition → Result RgkAssetError RgkTransitionReport
  unfolding transition_payload
  transition_report_unchecked t = do
    spent_supply ← validate_allocation_set_structure t.chain t.spent_allocations
    new_supply ← validate_allocation_set_structure_allow_empty t.chain t.new_allocations
    burned_supply ← validate_supply_delta spent_supply new_supply t.burn
    policy ← policy_commitment sha256 t.proof_policy
    ok (transition_report_with t spent_supply new_supply burned_supply policy)

  -- `RgkTransition::validate`
  unfoldable pub validate_transition : RgkTransition → Result RgkAssetError RgkTransitionReport
  validate_transition t = transition_structure t >> transition_report_unchecked t

  unfoldable pub validate_transition_for_production_zk :
      RgkTransition → Result RgkAssetError RgkTransitionReport
  validate_transition_for_production_zk t = do
    transition_structure t
    shape ← require_counts (length t.spent_allocations) (length t.new_allocations)
    transition_report_unchecked t

  abbrev pub expect_transition_digest :
      Bytes32 → RgkTransitionReport → Result RgkAssetError RgkTransitionReport
  expect_transition_digest expected report =
      ensure (report.transition_digest ≟ expected)
        (transition_digest_mismatch expected report.transition_digest)
      >> ok report

  unfoldable pub validate_against_transition_digest :
      RgkTransition → Bytes32 → Result RgkAssetError RgkTransitionReport
  validate_against_transition_digest t expected =
      validate_transition t >>= expect_transition_digest expected

  unfoldable pub validate_against_transition_digest_for_production_zk :
      RgkTransition → Bytes32 → Result RgkAssetError RgkTransitionReport
  validate_against_transition_digest_for_production_zk t expected =
      validate_transition_for_production_zk t >>= expect_transition_digest expected
