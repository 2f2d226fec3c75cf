-- ===== src/Tests/Asset/Life.antt =====
-- The theorems on issues, transitions, plans and digests at the sample asset.
use mathlib.Core.List.{Perm}
use rgk.Prelude.{ℕ, ◌+◌, ◌<◌, ◌≡◌, ◌↔◌, ◌⊎◌, refl, ap, ◌^◌, length, List, [], ◌∷◌, ok, arith}
use rgk.Core.Commit.{domain_hash_str, tagged_preimage}
use rgk.Core.Commit.Binding.{Collision}
use rgk.Asset.Policies.{policy_digest}
use rgk.Asset.Records.{RgkAllocation, RgkFinalizedContinuation}
use rgk.Asset.Roots.{allocation_root, state_digest_for_allocations, RgkStateDigestInput}
use rgk.Asset.Roots.Wire.{IsTypedAllocation}
use rgk.Asset.Roots.Binding.{
  IsTypedDigestInput, SameState, allocation_root_iff_Perm, state_digest_binding,
}
use rgk.Asset.Issues.{issue_state, validate_issue}
use rgk.Asset.Issues.Valid.{IsIssue, issue_report_of, validate_issue_iff}
use rgk.Core.Types.{KaspaOutpoint}
use rgk.Asset.Transitions.{new_state, validate_transition}
use rgk.Asset.Transitions.Valid.{IsTransition, report_of, validate_transition_iff}
use rgk.Asset.Transitions.Binding.{IsTypedTransition, transition_digest_binding}
use rgk.Asset.Continuations.{transition_at, allocation_at, finalize}
use rgk.Asset.Continuations.Valid.{IsPlan, plan_report_of}
use rgk.Asset.Continuations.Finalized.{IsWitness, finalize_iff}
use rgk.Asset.History.{issued, moved, IsConserved, History-IsConserved}
use rgk.Tests.{fill}
use rgk.Tests.Asset.{
  sum_sha, held, sample_issue, sample_plan, sample_transition, issue_runs, transition_runs,
  length-sum_sha, shape_of,
}

validate_transition_iff_example :
    (validate_transition sum_sha sample_transition ≡ ok (report_of sum_sha sample_transition)) ↔ (
      IsTransition sum_sha sample_transition
      × (report_of sum_sha sample_transition ≡ report_of sum_sha sample_transition))
validate_transition_iff_example =
    validate_transition_iff sum_sha sample_transition (report_of sum_sha sample_transition)

validate_issue_iff_example :
    (validate_issue sum_sha sample_issue ≡ ok (issue_report_of sum_sha sample_issue)) ↔ (
      IsIssue sample_issue
      × (issue_report_of sum_sha sample_issue ≡ issue_report_of sum_sha sample_issue))
validate_issue_iff_example =
    validate_issue_iff sum_sha sample_issue (issue_report_of sum_sha sample_issue)

abbrev finalized : RgkFinalizedContinuation
finalized = record {
  commitment = (plan_report_of sum_sha sample_plan).commitment;
  transition = sample_transition;
  transition_report = report_of sum_sha sample_transition;
}

finalize_iff_example : (finalize sum_sha sample_plan (fill 12) 950 3 ≡ ok finalized) ↔ (
    IsPlan sum_sha sample_plan
    × (IsWitness sum_sha sample_plan (fill 12) 950 3 × (finalized ≡ finalized)))
finalize_iff_example = finalize_iff sum_sha sample_plan (fill 12) 950 3 finalized

held_at : ℕ → RgkAllocation
held_at n = record held {
  anchor = record (held.anchor) {
    covenant_outpoint = record { transaction_id = fill 11; index = n };
  };
}

held_at-IsTyped : (n : ℕ) → n < 2 ^ 32 → IsTypedAllocation (held_at n)
unfolding held_at
held_at-IsTyped n h = record {
  transaction_id = refl;
  index = h;
  covenant_id = refl;
  witness_txid = refl;
  daa_score = omega arith;
  confirmation_depth = omega arith;
  amount = omega arith;
  note = refl;
}

abbrev one_way : List RgkAllocation
one_way = held_at 0 ∷ held_at 1 ∷ []

abbrev other_way : List RgkAllocation
other_way = held_at 1 ∷ held_at 0 ∷ []

allocation_root_iff_Perm_example :
    (Perm one_way other_way → allocation_root sum_sha one_way ≡ allocation_root sum_sha other_way)
    × (allocation_root sum_sha one_way ≡ allocation_root sum_sha other_way
        → Perm one_way other_way ⊎ Collision sum_sha)
unfolding held_at
allocation_root_iff_Perm_example =
    allocation_root_iff_Perm sum_sha one_way other_way
      (held_at-IsTyped 0 (omega arith), (held_at-IsTyped 1 (omega arith), tt))
      (held_at-IsTyped 1 (omega arith), (held_at-IsTyped 0 (omega arith), tt)) (omega arith)
      (omega arith) ((λ e. omega (arith, ap (λ (o : KaspaOutpoint). o.index) e), tt), (tt, tt))

abbrev issued_state : RgkStateDigestInput
issued_state = issue_state sample_issue (policy_digest sum_sha sample_issue.proof_policy)

abbrev left_state : RgkStateDigestInput
left_state = new_state sample_transition (policy_digest sum_sha sample_transition.proof_policy)

held-IsTyped : IsTypedAllocation held
held-IsTyped = record {
  transaction_id = refl;
  index = omega arith;
  covenant_id = refl;
  witness_txid = refl;
  daa_score = omega arith;
  confirmation_depth = omega arith;
  amount = omega arith;
  note = refl;
}

digest-wide : (d p : List ℕ) → length (domain_hash_str sum_sha d p) ≡ 32
unfolding domain_hash_str
digest-wide d p = length-sum_sha (tagged_preimage d p)

state-wide : (s : RgkStateDigestInput) → length (state_digest_for_allocations sum_sha s) ≡ 32
unfolding state_digest_for_allocations
state-wide s = digest-wide _ _

issued-IsTyped : IsTypedDigestInput issued_state
issued-IsTyped = record {
  asset_id = refl;
  total_supply = omega arith;
  allocations = (held-IsTyped, tt);
  count = omega arith;
  policy = digest-wide _ _;
  metadata = refl;
  owner = refl;
}

made-IsTyped :
    (index amount : ℕ)
    → index < 2 ^ 32
    → amount < 2 ^ 64
    → IsTypedAllocation (allocation_at sample_plan (fill 12) 950 3 (shape_of index amount))
unfolding allocation_at
made-IsTyped index amount h k = record {
  transaction_id = refl;
  index = h;
  covenant_id = refl;
  witness_txid = refl;
  daa_score = omega arith;
  confirmation_depth = omega arith;
  amount = k;
  note = refl;
}

left-IsTyped : IsTypedDigestInput left_state
unfolding transition_at
left-IsTyped = record {
  asset_id = refl;
  total_supply = omega arith;
  allocations = (
    made-IsTyped 1 60 (omega arith) (omega arith),
    (made-IsTyped 0 30 (omega arith) (omega arith), tt),
  );
  count = omega arith;
  policy = digest-wide _ _;
  metadata = refl;
  owner = refl;
}

state_digest_binding_example : SameState issued_state issued_state ⊎ Collision sum_sha
state_digest_binding_example =
    state_digest_binding sum_sha length-sum_sha issued_state issued_state issued-IsTyped
      issued-IsTyped (tt, tt) refl

History-IsConserved_example :
    IsConserved sum_sha sample_issue left_state (0 + 10) ⊎ Collision sum_sha
unfolding transition_at
History-IsConserved_example =
    History-IsConserved sum_sha sample_issue length-sum_sha left_state (0 + 10) (
      moved sample_transition (report_of sum_sha sample_transition)
        (issued (issue_report_of sum_sha sample_issue) issue_runs issued-IsTyped) transition_runs
        refl issued-IsTyped left-IsTyped)

sample_transition-IsTyped : IsTypedTransition sample_transition
unfolding transition_at
sample_transition-IsTyped = record {
  schema_id = refl;
  asset_id = refl;
  total_supply = omega arith;
  metadata = refl;
  previous_owner = refl;
  new_owner = refl;
  authorization = refl;
  previous_digest = state-wide issued_state;
  spent = (held-IsTyped, tt);
  spent_count = omega arith;
  created = left-IsTyped.allocations;
  created_count = omega arith;
  burn = (omega arith, refl);
  witness = refl;
  lane = refl;
}

transition_digest_binding_example :
    ((sample_transition
        ≡ record sample_transition { proof_policy = sample_transition.proof_policy })
      × (fill 31 ≡ fill 31)
      × (fill 32 ≡ fill 32))
    ⊎ Collision sum_sha
transition_digest_binding_example =
    transition_digest_binding sum_sha sample_transition sample_transition (fill 31) (fill 31)
      (fill 32) (fill 32) sample_transition-IsTyped sample_transition-IsTyped refl refl refl refl
      refl
