-- ===== src/Asset/Continuations.antt =====
-- `RgkContinuationPlan` of crates/rgk-asset/src/native.rs: a transition that is planned before its
-- witness transaction exists, and its completion when the transaction is known.
pub mod Valid
pub mod Finalized
use rgk.Prelude.{
  ℕ, ◌≡◌, List, ◌∷◌, ◌++◌, codes, length, map, Result, ok, err, ensure, reject, ◌≟◌, list_eq,
  nat_eq, true, bool_eq,
}
use rgk.Prelude.Results.{◌>>◌, ◌>>=◌}
use rgk.Core.Bytes.{Bytes32}
use rgk.Core.Chain.{chain_as_u8}
use rgk.Core.Encoding.{to_le}
use rgk.Core.Commit.{domain_hash_str}
use rgk.Asset.{RgkCovenantAnchor}
use rgk.Asset.Errors.{
  RgkAssetError, zero_previous_state_digest, empty_allocations, previous_state_digest_mismatch,
  continuation_commitment_mismatch,
}
use rgk.Asset.Policies.{is_zero32, privacy_as_u8, policy_commitment}
use rgk.Asset.Records.{
  RgkAllocation, RgkTransition, RgkContinuationAllocationShape, RgkContinuationPlan,
  RgkContinuationReport, RgkFinalizedContinuation,
}
use rgk.Asset.Roots.{
  encode_burn_proof, burn_authorization_commitment, RgkStateDigestInput, allocation_root,
  continuation_shape_root, state_digest_for_allocations,
}
use rgk.Asset.Shapes.{require_counts}
use rgk.Asset.Supply.{
  validate_common, validate_metadata_commitment, validate_owner_commitment,
  validate_ownership_handoff, validate_allocation_set_structure,
  validate_continuation_shapes_structure_allow_empty, validate_supply_delta,
}
use rgk.Asset.Transitions.{validate_transition}

abbrev pub continuation_domain : List ℕ
continuation_domain = codes "rgk:continuation:phase1:v2"

-- The payload of `commitment_unchecked`, from the two roots and the policy's commitment.
unfoldable pub continuation_payload : RgkContinuationPlan → Bytes32 → Bytes32 → Bytes32 → List ℕ
continuation_payload p spent_root shape_root policy =
    chain_as_u8 p.chain
    ∷ (p.schema_id
        ++ (p.asset_id
            ++ (to_le 8 p.total_supply
                ++ (p.previous_state_digest
                    ++ (spent_root
                        ++ (shape_root
                            ++ (encode_burn_proof p.burn
                                ++ (p.lane_id
                                    ++ (privacy_as_u8 p.privacy_policy
                                        ∷ (policy
                                            ++ (p.metadata_commitment
                                                ++ (p.previous_owner_commitment
                                                    ++ (p.new_owner_commitment
                                                        ++ p.ownership_authorization_commitment)))))))))))))

abbrev pub planned_state : RgkContinuationPlan → Bytes32 → RgkStateDigestInput
planned_state p policy = record {
  asset_id = p.asset_id;
  total_supply = p.total_supply;
  allocations = p.spent_allocations;
  lane_id = p.lane_id;
  privacy_policy = p.privacy_policy;
  policy_commitment = policy;
  metadata_commitment = p.metadata_commitment;
  owner_commitment = p.previous_owner_commitment;
}

-- The allocation that a shape becomes once the witness transaction is known.
unfoldable pub allocation_at :
    RgkContinuationPlan → Bytes32 → ℕ → ℕ → RgkContinuationAllocationShape → RgkAllocation
allocation_at p witness_txid daa_score confirmation_depth shape = record {
  anchor = record {
    chain = p.chain;
    covenant_outpoint = record { transaction_id = witness_txid; index = shape.output_index };
    covenant_id = shape.covenant_id;
    witness_txid = witness_txid;
    daa_score = daa_score;
    confirmation_depth = confirmation_depth;
  };
  amount = shape.amount;
  encrypted_note_commitment = shape.encrypted_note_commitment;
}

-- The transition that `finalize` puts together.
unfoldable pub transition_at : RgkContinuationPlan → Bytes32 → ℕ → ℕ → RgkTransition
unfolding allocation_at
transition_at p witness_txid daa_score confirmation_depth = record {
  chain = p.chain;
  schema_id = p.schema_id;
  asset_id = p.asset_id;
  total_supply = p.total_supply;
  metadata_commitment = p.metadata_commitment;
  previous_owner_commitment = p.previous_owner_commitment;
  new_owner_commitment = p.new_owner_commitment;
  ownership_authorization_commitment = p.ownership_authorization_commitment;
  previous_state_digest = p.previous_state_digest;
  spent_allocations = p.spent_allocations;
  new_allocations =
      map (allocation_at p witness_txid daa_score confirmation_depth) p.new_allocation_shapes;
  burn = p.burn;
  witness_txid = witness_txid;
  lane_id = p.lane_id;
  privacy_policy = p.privacy_policy;
  proof_policy = p.proof_policy;
}

module _ (sha256 : List ℕ → Bytes32) where
  -- `RgkContinuationPlan::validate_structure`
  unfoldable pub plan_structure : RgkContinuationPlan → Result RgkAssetError (Unit {0})
  plan_structure p = do
    validate_common p.schema_id p.asset_id p.total_supply p.lane_id p.proof_policy
    validate_metadata_commitment p.metadata_commitment
    validate_owner_commitment p.previous_owner_commitment "previous"
    validate_owner_commitment p.new_owner_commitment "new"
    validate_ownership_handoff p.previous_owner_commitment p.new_owner_commitment
        p.ownership_authorization_commitment
    reject (is_zero32 p.previous_state_digest ≟ true) zero_previous_state_digest
    reject (length p.spent_allocations ≟ 0) empty_allocations
    spent_supply ← validate_allocation_set_structure p.chain p.spent_allocations
    policy ← policy_commitment sha256 p.proof_policy
    ensure (state_digest_for_allocations sha256 (planned_state p policy) ≟ p.previous_state_digest)
        (previous_state_digest_mismatch p.previous_state_digest
          (state_digest_for_allocations sha256 (planned_state p policy)))
    new_supply ← validate_continuation_shapes_structure_allow_empty p.new_allocation_shapes p.burn
    burned ← validate_supply_delta spent_supply new_supply p.burn
    ok tt

  -- `RgkContinuationPlan::commitment_unchecked`
  unfoldable pub commitment_unchecked : RgkContinuationPlan → Bytes32 → Bytes32 → Bytes32
  unfolding continuation_payload
  commitment_unchecked p policy shape_root =
      domain_hash_str sha256 continuation_domain
        (continuation_payload p (allocation_root sha256 p.spent_allocations) shape_root policy)

  abbrev pub plan_report_with : RgkContinuationPlan → ℕ → ℕ → ℕ → Bytes32 → RgkContinuationReport
  plan_report_with p spent new burned policy =
      let shape_root = continuation_shape_root sha256 p.chain p.new_allocation_shapes in
      record {
        chain = p.chain;
        schema_id = p.schema_id;
        asset_id = p.asset_id;
        total_supply = p.total_supply;
        metadata_commitment = p.metadata_commitment;
        previous_owner_commitment = p.previous_owner_commitment;
        new_owner_commitment = p.new_owner_commitment;
        ownership_authorization_commitment = p.ownership_authorization_commitment;
        spent_supply = spent;
        new_supply = new;
        burned_supply = burned;
        burn_authorization_commitment = burn_authorization_commitment p.burn;
        spent_allocation_count = length p.spent_allocations;
        new_allocation_count = length p.new_allocation_shapes;
        lane_id = p.lane_id;
        privacy_policy = p.privacy_policy;
        policy_commitment = policy;
        previous_state_digest = p.previous_state_digest;
        shape_root = shape_root;
        commitment = commitment_unchecked p policy shape_root;
      }

  -- `RgkContinuationPlan::report_unchecked`
  unfoldable pub plan_report_unchecked :
      RgkContinuationPlan → Result RgkAssetError RgkContinuationReport
  plan_report_unchecked p = do
    spent_supply ← validate_allocation_set_structure p.chain p.spent_allocations
    new_supply ← validate_continuation_shapes_structure_allow_empty p.new_allocation_shapes p.burn
    burned_supply ← validate_supply_delta spent_supply new_supply p.burn
    policy ← policy_commitment sha256 p.proof_policy
    ok (plan_report_with p spent_supply new_supply burned_supply policy)

  -- `RgkContinuationPlan::validate`
  unfoldable pub validate_plan : RgkContinuationPlan → Result RgkAssetError RgkContinuationReport
  validate_plan p = plan_structure p >> plan_report_unchecked p

  unfoldable pub validate_plan_for_production_zk :
      RgkContinuationPlan → Result RgkAssetError RgkContinuationReport
  validate_plan_for_production_zk p = do
    plan_structure p
    shape ← require_counts (length p.spent_allocations) (length p.new_allocation_shapes)
    plan_report_unchecked p

  abbrev pub expect_commitment :
      Bytes32 → RgkContinuationReport → Result RgkAssetError RgkContinuationReport
  expect_commitment expected report =
      ensure (report.commitment ≟ expected)
        (continuation_commitment_mismatch expected report.commitment)
      >> ok report

  unfoldable pub validate_against_commitment :
      RgkContinuationPlan → Bytes32 → Result RgkAssetError RgkContinuationReport
  validate_against_commitment p expected = validate_plan p >>= expect_commitment expected

  unfoldable pub validate_against_commitment_for_production_zk :
      RgkContinuationPlan → Bytes32 → Result RgkAssetError RgkContinuationReport
  validate_against_commitment_for_production_zk p expected =
      validate_plan_for_production_zk p >>= expect_commitment expected

  unfoldable pub finalize :
      RgkContinuationPlan → Bytes32 → ℕ → ℕ → Result RgkAssetError RgkFinalizedContinuation
  unfolding transition_at
  finalize p witness_txid daa_score confirmation_depth = do
    continuation_report ← validate_plan p
    transition_report ←
        validate_transition sha256 (transition_at p witness_txid daa_score confirmation_depth)
    ok (record {
      commitment = continuation_report.commitment;
      transition = transition_at p witness_txid daa_score confirmation_depth;
      transition_report = transition_report;
    })

  unfoldable pub finalize_for_production_zk :
      RgkContinuationPlan → Bytes32 → ℕ → ℕ → Result RgkAssetError RgkFinalizedContinuation
  finalize_for_production_zk p witness_txid daa_score confirmation_depth = do
    report ← validate_plan_for_production_zk p
    finalized ← finalize p witness_txid daa_score confirmation_depth
    shape ←
        require_counts (length finalized.transition.spent_allocations)
          (length finalized.transition.new_allocations)
    ok finalized
