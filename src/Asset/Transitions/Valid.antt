-- ===== src/Asset/Transitions/Valid.antt =====
-- Which transitions validate, and with which report.
use rgk.Prelude.{
  ℕ, ◌+◌, ◌≡◌, ◌≢◌, ◌↔◌, refl, true, List, [], ◌∷◌, length, ok, ◌≟◌, nat_eq, list_eq, bool_eq,
  contains, All, absent_iff, ensured, rejected, checked, valued, returned, Result, ◌>>=◌,
}
use rgk.Core.Bytes.{Bytes32}
use rgk.Core.Types.{KaspaOutpoint, outpoint_eq}
use rgk.Asset.Policies.{is_zero32, policy_commitment, policy_digest}
use rgk.Asset.Records.{RgkAllocation, RgkTransition, RgkTransitionReport}
use rgk.Asset.Roots.{state_digest_for_allocations}
use rgk.Asset.Errors.{RgkAssetError}
use rgk.Asset.Supply.Owners.{IsOwned, owned_iff}
use rgk.Asset.Supply.{
  validate_allocation_set_structure, validate_allocation_set_structure_allow_empty,
  validate_supply_delta,
}
use rgk.Asset.Supply.Sets.{
  NonZero, IsAllocationSet, outpoints, supply, structure_iff, allow_empty_iff, length-nonzero,
}
use rgk.Asset.Supply.Delta.{IsBurn, burned, NamesKeys, supply_delta_iff, policy_commitment_iff}
use rgk.Asset.Transitions.{
  previous_state, new_state, check_reuse, transition_structure, transition_report_with,
  transition_report_unchecked, validate_transition,
}

-- No created allocation stands on an outpoint that is spent.
abbrev pub Unspent : List KaspaOutpoint → List RgkAllocation → Type 0
Unspent spent = All (λ a. All (λ o. o ≢ a.anchor.covenant_outpoint) spent)

pub check_reuse_iff :
    (spent : List KaspaOutpoint) (index : ℕ) (xs : List RgkAllocation)
    → (check_reuse spent index xs ≡ ok tt) ↔ Unspent spent xs
unfolding check_reuse
check_reuse_iff spent index [] = (λ _. tt, λ _. refl)
check_reuse_iff spent index (a ∷ rest) =
    let (there, back) =
      rejected (contains spent a.anchor.covenant_outpoint ≟ true) _
        (check_reuse_iff spent (index + 1) rest) in
    let (forth, hence) = absent_iff spent a.anchor.covenant_outpoint in
    (λ h. let (n, k) = there h in (forth n, k), λ (n, k). back (hence n, k))

module _ (sha256 : List ℕ → Bytes32) where
  abbrev pub before : RgkTransition → Bytes32
  before t =
      state_digest_for_allocations sha256 (previous_state t (policy_digest sha256 t.proof_policy))

  abbrev pub after : RgkTransition → Bytes32
  after t = state_digest_for_allocations sha256 (new_state t (policy_digest sha256 t.proof_policy))

  -- What a transition has to satisfy.
  pub record IsTransition (t : RgkTransition) : Type 0 where
    pub owned :
        IsOwned t.schema_id t.asset_id t.total_supply t.lane_id t.proof_policy t.metadata_commitment
          t.previous_owner_commitment t.new_owner_commitment t.ownership_authorization_commitment
          t.previous_state_digest
    pub witness : NonZero t.witness_txid
    pub spends : t.spent_allocations ≢ []
    pub spent : IsAllocationSet t.chain t.spent_allocations
    pub created : IsAllocationSet t.chain t.new_allocations
    pub conserved : supply t.spent_allocations ≡ supply t.new_allocations + burned t.burn
    pub burns : IsBurn t.burn
    pub continues : before t ≡ t.previous_state_digest
    pub changes : after t ≢ t.previous_state_digest
    pub unspent : Unspent (outpoints t.spent_allocations) t.new_allocations

  -- The supplies and the policy, which `validate_structure` and the report both compute.
  supplies_iff {ℓ κ} :
      (t : RgkTransition) {A : Type ℓ} {Q : Type κ}
      (k : ℕ → ℕ → ℕ → Bytes32 → Result RgkAssetError A) {a : A}
      → (k
            (supply t.spent_allocations)
            (supply t.new_allocations)
            (burned t.burn)
            (policy_digest sha256 t.proof_policy)
          ≡ ok a)
        ↔ Q
      → ((validate_allocation_set_structure t.chain t.spent_allocations >>= λ s.
            validate_allocation_set_structure_allow_empty t.chain t.new_allocations >>= λ n.
            validate_supply_delta s n t.burn >>= λ b.
            policy_commitment sha256 t.proof_policy >>= λ p. k s n b p)
          ≡ ok a)
        ↔ ((t.spent_allocations ≢ [] × IsAllocationSet t.chain t.spent_allocations)
            × (IsAllocationSet t.chain t.new_allocations
                × (((supply t.spent_allocations ≡ supply t.new_allocations + burned t.burn)
                      × IsBurn t.burn)
                    × (NamesKeys t.proof_policy × Q))))
  supplies_iff t k rest =
      valued _ _ (supply t.spent_allocations) (structure_iff t.chain t.spent_allocations) (
        valued _ _ (supply t.new_allocations) (allow_empty_iff t.chain t.new_allocations) (
          valued _ _ (burned t.burn)
            (supply_delta_iff (supply t.spent_allocations) (supply t.new_allocations) t.burn)
            (valued _ _ (policy_digest sha256 t.proof_policy)
              (policy_commitment_iff sha256 t.proof_policy) rest)))

  pub structure-IsTransition :
      (t : RgkTransition) → (transition_structure sha256 t ≡ ok tt) ↔ IsTransition t
  unfolding transition_structure
  structure-IsTransition t =
      let (there, back) =
        owned_iff t.schema_id t.asset_id t.total_supply t.lane_id t.proof_policy
          t.metadata_commitment t.previous_owner_commitment t.new_owner_commitment
          t.ownership_authorization_commitment t.previous_state_digest
          (rejected (is_zero32 t.witness_txid ≟ true) _ (
            rejected (length t.spent_allocations ≟ 0) _ (
              supplies_iff t _ (
                ensured (before t ≟ t.previous_state_digest) _ (
                  rejected (after t ≟ t.previous_state_digest) _
                    (check_reuse_iff (outpoints t.spent_allocations) 0 t.new_allocations)))))) in
      (
        λ h.
            let (o, (w, (_, ((s, set), (made, ((kept, fine), (_, (same, (moved, apart))))))))) =
              there h in
            record {
              owned = o;
              witness = w;
              spends = s;
              spent = set;
              created = made;
              conserved = kept;
              burns = fine;
              continues = same;
              changes = moved;
              unspent = apart;
            },
        λ v. back (
          v.owned,
          (
            v.witness,
            (
              length-nonzero t.spent_allocations v.spends,
              (
                (v.spends, v.spent),
                (
                  v.created,
                  (
                    (v.conserved, v.burns),
                    (v.owned.common.1.1.1.1, (v.continues, (v.changes, v.unspent))),
                  ),
                ),
              ),
            ),
          ),
        ),
      )

  -- The report of a valid transition.
  abbrev pub report_of : RgkTransition → RgkTransitionReport
  report_of t =
      transition_report_with sha256 t (supply t.spent_allocations) (supply t.new_allocations)
        (burned t.burn) (policy_digest sha256 t.proof_policy)

  -- A transition validates exactly when it is as `IsTransition` says: its ids, owners and policy are set, a
  -- change of owner is authorised, the allocations it spends and creates are well formed, on distinct
  -- outpoints and within 64 bits, what is spent is what is created and what an authorised proof burns, the
  -- spent set has the previous state digest, the created set another one, and nothing created stands on a
  -- spent outpoint. The report then carries these totals.
  pub validate_transition_iff :
      (t : RgkTransition) (r : RgkTransitionReport)
      → (validate_transition sha256 t ≡ ok r) ↔ (IsTransition t × (r ≡ report_of t))
  unfolding validate_transition transition_report_unchecked
  validate_transition_iff t r =
      let (there, back) =
        checked (transition_structure sha256 t) (structure-IsTransition t)
          (supplies_iff t _ (returned r)) in
      (
        λ h. let (v, (_, (_, (_, (_, e))))) = there h in (v, e),
        λ (v, e). back (
          v,
          ((v.spends, v.spent), (v.created, ((v.conserved, v.burns), (v.owned.common.1.1.1.1, e)))),
        ),
      )
