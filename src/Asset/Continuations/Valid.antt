-- ===== src/Asset/Continuations/Valid.antt =====
-- Which continuation plans validate, and with which report.
use rgk.Prelude.{
  ℕ, ◌+◌, ◌≡◌, ◌≢◌, ◌↔◌, refl, List, [], length, ok, ◌≟◌, nat_eq, list_eq, ensured, rejected,
  checked, valued, returned,
}
use rgk.Core.Bytes.{Bytes32}
use rgk.Asset.Policies.{policy_digest}
use rgk.Asset.Records.{RgkContinuationPlan, RgkContinuationReport}
use rgk.Asset.Roots.{state_digest_for_allocations}
use rgk.Asset.Supply.Sets.{IsAllocationSet, supply, structure_iff, length-nonzero}
use rgk.Asset.Supply.Shapes.{IsShapeSet, planned_supply, shapes_iff}
use rgk.Asset.Supply.Owners.{IsOwned, owned_iff}
use rgk.Asset.Supply.Delta.{IsBurn, burned, supply_delta_iff, policy_commitment_iff}
use rgk.Asset.Continuations.{
  planned_state, plan_structure, plan_report_with, plan_report_unchecked, validate_plan,
}

module _ (sha256 : List ℕ → Bytes32) where
  -- What a plan has to satisfy.
  pub record IsPlan (p : RgkContinuationPlan) : Type 0 where
    pub owned :
        IsOwned p.schema_id p.asset_id p.total_supply p.lane_id p.proof_policy p.metadata_commitment
          p.previous_owner_commitment p.new_owner_commitment p.ownership_authorization_commitment
          p.previous_state_digest
    pub spends : p.spent_allocations ≢ []
    pub spent : IsAllocationSet p.chain p.spent_allocations
    pub continues :
        state_digest_for_allocations sha256 (planned_state p (policy_digest sha256 p.proof_policy))
        ≡ p.previous_state_digest
    pub shapes : IsShapeSet p.new_allocation_shapes p.burn
    pub conserved :
        supply p.spent_allocations ≡ planned_supply p.new_allocation_shapes + burned p.burn
    pub burns : IsBurn p.burn

  abbrev pub plan_report_of : RgkContinuationPlan → RgkContinuationReport
  plan_report_of p =
      plan_report_with sha256 p (supply p.spent_allocations)
        (planned_supply p.new_allocation_shapes) (burned p.burn)
        (policy_digest sha256 p.proof_policy)

  pub structure-IsPlan : (p : RgkContinuationPlan) → (plan_structure sha256 p ≡ ok tt) ↔ IsPlan p
  unfolding plan_structure
  structure-IsPlan p =
      let (there, back) =
        owned_iff p.schema_id p.asset_id p.total_supply p.lane_id p.proof_policy
          p.metadata_commitment p.previous_owner_commitment p.new_owner_commitment
          p.ownership_authorization_commitment p.previous_state_digest
          (rejected (length p.spent_allocations ≟ 0) _ (
            valued _ _ (supply p.spent_allocations) (structure_iff p.chain p.spent_allocations) (
              valued _ _ (policy_digest sha256 p.proof_policy)
                (policy_commitment_iff sha256 p.proof_policy)
                (ensured
                  (state_digest_for_allocations sha256
                      (planned_state p (policy_digest sha256 p.proof_policy))
                    ≟ p.previous_state_digest)
                  _
                  (valued _ _ (planned_supply p.new_allocation_shapes)
                    (shapes_iff p.new_allocation_shapes p.burn)
                    (valued _ _ (burned p.burn)
                      (supply_delta_iff (supply p.spent_allocations)
                        (planned_supply p.new_allocation_shapes) p.burn)
                      (returned tt))))))) in
      (
        λ h.
            let (o, (_, ((s, set), (_, (same, (shaped, ((kept, fine), _))))))) = there h in
            record {
              owned = o;
              spends = s;
              spent = set;
              continues = same;
              shapes = shaped;
              conserved = kept;
              burns = fine;
            },
        λ v. back (
          v.owned,
          (
            length-nonzero p.spent_allocations v.spends,
            (
              (v.spends, v.spent),
              (v.owned.common.1.1.1.1, (v.continues, (v.shapes, ((v.conserved, v.burns), refl)))),
            ),
          ),
        ),
      )

  -- A plan validates exactly when it is as `IsPlan` says, and its report then carries the totals.
  pub validate_plan_iff :
      (p : RgkContinuationPlan) (r : RgkContinuationReport)
      → (validate_plan sha256 p ≡ ok r) ↔ (IsPlan p × (r ≡ plan_report_of p))
  unfolding validate_plan plan_report_unchecked
  validate_plan_iff p r =
      let (there, back) = checked (plan_structure sha256 p) (structure-IsPlan p) (
        valued _ _ (supply p.spent_allocations) (structure_iff p.chain p.spent_allocations) (
          valued _ _ (planned_supply p.new_allocation_shapes)
            (shapes_iff p.new_allocation_shapes p.burn)
            (valued _ _ (burned p.burn)
              (supply_delta_iff (supply p.spent_allocations)
                (planned_supply p.new_allocation_shapes) p.burn)
              (valued _ _ (policy_digest sha256 p.proof_policy)
                (policy_commitment_iff sha256 p.proof_policy) (returned r))))) in
      (
        λ h. let (v, (_, (_, (_, (_, e))))) = there h in (v, e),
        λ (v, e). back (
          v,
          ((v.spends, v.spent), (v.shapes, ((v.conserved, v.burns), (v.owned.common.1.1.1.1, e)))),
        ),
      )
