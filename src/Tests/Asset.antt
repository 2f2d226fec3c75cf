-- ===== src/Tests/Asset.antt =====
-- An asset of one hundred units, its issue and a transfer that splits it, and the theorems on assets there.
pub mod Life
pub mod Plans
use rgk.Prelude.{
  ℕ, ◌+◌, ◌%◌, ◌≡◌, ◌≢◌, refl, Option, none, some, List, [], ◌∷◌, ok, length, length-replicate,
}
unfoldable use rgk.Prelude.Equality.{List-discrete, Bool-discrete, contains}
unfoldable use rgk.Prelude.{ℕ_discrete, dec_lt, dec_le}
use rgk.Core.Bytes.{Bytes32}
unfoldable use rgk.Core.Chain.{KaspaChainId-discrete, chain_as_u8}
unfoldable use rgk.Core.Commit.{domain_hash_str, tagged_preimage}
unfoldable use rgk.Core.Encoding.{to_le}
unfoldable use rgk.Prelude.Sorts.{sort_by_key, insert_by_key, lt_pair}
unfoldable use rgk.Core.Types.{KaspaOutpoint-discrete, Bytes32-discrete, lt_outpoint}
use rgk.Core.Chain.{kaspa_testnet}
use rgk.Asset.{RgkCovenantAnchor}
use rgk.Asset.Policies.{
  private_lane, verifier_receipt, policy_digest, is_zero32, validate_policy, policy_commitment,
  encode_proof_policy, privacy_as_u8,
}
use rgk.Asset.Records.{
  RgkAllocation, RgkAssetIssue, RgkTransition, RgkContinuationAllocationShape, RgkContinuationPlan,
  RgkBurnProof,
}
use rgk.Asset.Roots.{
  state_digest_for_allocations, allocation_root, encode_allocations, encode_allocation,
  allocation_key,
}
use rgk.Asset.Issues.{issue_state, validate_issue, issue_structure, issue_report_unchecked}
use rgk.Asset.Issues.Valid.{issue_report_of}
use rgk.Asset.Continuations.{transition_at, validate_plan, plan_structure, plan_report_unchecked}
use rgk.Asset.Continuations.Valid.{plan_report_of}
use rgk.Asset.Transitions.{validate_transition, transition_structure, transition_report_unchecked}
use rgk.Asset.Transitions.Valid.{report_of}
use rgk.Asset.Supply.{
  validate_common, validate_metadata_commitment, validate_owner_commitment,
  validate_allocation_set_exact, validate_allocation_set_structure,
  validate_allocation_set_structure_allow_empty, checked_add_u64, validate_ownership_handoff,
  validate_supply_delta, validate_continuation_shapes_structure_allow_empty,
  validate_continuation_shapes_structure, check_shapes,
}
use rgk.Tests.{fill}

abbrev sum : List ℕ → ℕ
sum [] = 0
sum (b ∷ bytes) = b + sum bytes

-- A digest that tells sets of allocations apart.
abbrev pub sum_sha : List ℕ → Bytes32
sum_sha bytes = fill (sum bytes % 200 + 50)

abbrev pub held : RgkAllocation
held = record {
  anchor = record {
    chain = kaspa_testnet;
    covenant_outpoint = record { transaction_id = fill 11; index = 0 };
    covenant_id = fill 1;
    witness_txid = fill 11;
    daa_score = 900;
    confirmation_depth = 10;
  };
  amount = 100;
  encrypted_note_commitment = fill 13;
}

abbrev pub sample_issue : RgkAssetIssue
sample_issue = record {
  chain = kaspa_testnet;
  schema_id = fill 21;
  asset_id = fill 2;
  total_supply = 100;
  metadata_commitment = fill 22;
  owner_commitment = fill 23;
  allocations = held ∷ [];
  lane_id = fill 24;
  privacy_policy = private_lane;
  proof_policy = verifier_receipt (fill 25);
}

abbrev pub shape_of : ℕ → ℕ → RgkContinuationAllocationShape
shape_of index amount = record {
  output_index = index;
  covenant_id = fill 1;
  amount = amount;
  encrypted_note_commitment = fill 14;
}

abbrev plan_of : List RgkContinuationAllocationShape → Option RgkBurnProof → RgkContinuationPlan
plan_of shapes burn = record {
  chain = kaspa_testnet;
  schema_id = fill 21;
  asset_id = fill 2;
  total_supply = 100;
  metadata_commitment = fill 22;
  previous_owner_commitment = fill 23;
  new_owner_commitment = fill 26;
  ownership_authorization_commitment = fill 27;
  previous_state_digest =
      state_digest_for_allocations sum_sha
        (issue_state sample_issue (policy_digest sum_sha (verifier_receipt (fill 25))));
  spent_allocations = held ∷ [];
  new_allocation_shapes = shapes;
  burn = burn;
  lane_id = fill 24;
  privacy_policy = private_lane;
  proof_policy = verifier_receipt (fill 25);
}

abbrev pub sample_plan : RgkContinuationPlan
sample_plan =
    plan_of (shape_of 1 60 ∷ shape_of 0 30 ∷ [])
      (some (record { amount = 10; authorization_commitment = fill 28 }))

-- The whole amount moved.
abbrev pub sample_move : RgkContinuationPlan
sample_move = plan_of (shape_of 0 100 ∷ []) none

abbrev pub sample_transition : RgkTransition
sample_transition = transition_at sample_plan (fill 12) 950 3

pub issue_runs : validate_issue sum_sha sample_issue ≡ ok (issue_report_of sum_sha sample_issue)
unfolding validate_issue issue_structure validate_common Bool-discrete is_zero32 ℕ_discrete
    validate_policy validate_metadata_commitment validate_owner_commitment
    validate_allocation_set_exact validate_allocation_set_structure
    validate_allocation_set_structure_allow_empty KaspaChainId-discrete KaspaOutpoint-discrete
    Bytes32-discrete List-discrete contains checked_add_u64 issue_report_unchecked policy_commitment
    dec_lt
issue_runs = refl

pub plan_runs : validate_plan sum_sha sample_plan ≡ ok (plan_report_of sum_sha sample_plan)
unfolding validate_plan plan_structure validate_common Bool-discrete is_zero32 ℕ_discrete
    validate_policy validate_metadata_commitment validate_owner_commitment
    validate_ownership_handoff validate_allocation_set_structure
    validate_allocation_set_structure_allow_empty KaspaChainId-discrete KaspaOutpoint-discrete
    Bytes32-discrete List-discrete contains checked_add_u64 plan_report_unchecked policy_commitment
    dec_lt dec_le validate_supply_delta validate_continuation_shapes_structure_allow_empty
    validate_continuation_shapes_structure state_digest_for_allocations domain_hash_str
    tagged_preimage to_le allocation_root sort_by_key insert_by_key encode_allocations
    encode_allocation chain_as_u8 encode_proof_policy privacy_as_u8 check_shapes
plan_runs = refl

pub move_runs : validate_plan sum_sha sample_move ≡ ok (plan_report_of sum_sha sample_move)
unfolding validate_plan plan_structure validate_common Bool-discrete is_zero32 ℕ_discrete
    validate_policy validate_metadata_commitment validate_owner_commitment
    validate_ownership_handoff validate_allocation_set_structure
    validate_allocation_set_structure_allow_empty KaspaChainId-discrete KaspaOutpoint-discrete
    Bytes32-discrete List-discrete contains checked_add_u64 plan_report_unchecked policy_commitment
    dec_lt dec_le validate_supply_delta validate_continuation_shapes_structure_allow_empty
    validate_continuation_shapes_structure state_digest_for_allocations domain_hash_str
    tagged_preimage to_le allocation_root sort_by_key insert_by_key encode_allocations
    encode_allocation chain_as_u8 encode_proof_policy privacy_as_u8 check_shapes
move_runs = refl

pub transition_runs :
    validate_transition sum_sha sample_transition ≡ ok (report_of sum_sha sample_transition)
unfolding validate_transition transition_structure validate_common Bool-discrete is_zero32
    ℕ_discrete validate_policy validate_metadata_commitment validate_owner_commitment
    validate_ownership_handoff validate_allocation_set_structure
    validate_allocation_set_structure_allow_empty KaspaChainId-discrete KaspaOutpoint-discrete
    Bytes32-discrete List-discrete contains checked_add_u64 transition_report_unchecked
    policy_commitment dec_lt dec_le validate_supply_delta state_digest_for_allocations transition_at
    domain_hash_str tagged_preimage to_le allocation_root sort_by_key insert_by_key
    encode_allocations encode_allocation chain_as_u8 encode_proof_policy privacy_as_u8 lt_pair
    allocation_key lt_outpoint
transition_runs = refl

pub length-sum_sha : (x : List ℕ) → length (sum_sha x) ≡ 32
length-sum_sha x = length-replicate 32 (sum x % 200 + 50)
