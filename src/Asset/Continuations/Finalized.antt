-- ===== src/Asset/Continuations/Finalized.antt =====
-- When a plan can be completed, and that the completed transition keeps what was planned.
use rgk.Prelude.{
  ℕ, ◌+◌, ◌≡◌, ◌≢◌, ◌↔◌, refl, ap, List, [], ◌∷◌, map, ok, All, Distinct, valued, returned,
  cons_nil,
}
use rgk.Core.Bytes.{Bytes32}
use rgk.Core.Types.{KaspaOutpoint}
use rgk.Asset.Policies.{is_zero32}
use rgk.Asset.Records.{
  RgkAllocation, RgkContinuationAllocationShape, RgkContinuationPlan, RgkFinalizedContinuation,
}
use rgk.Asset.Supply.Sets.{NonZero, IsAllocation, outpoints, supply}
use rgk.Asset.Supply.Shapes.{IsShape, output_indexes, planned_supply}
use rgk.Asset.Transitions.Valid.{Unspent, after, IsTransition, report_of, validate_transition_iff}
use rgk.Asset.Continuations.{allocation_at, transition_at, validate_plan, finalize}
use rgk.Asset.Continuations.Valid.{IsPlan, plan_report_of, validate_plan_iff}

module _ (p : RgkContinuationPlan) (witness : Bytes32) (daa depth : ℕ) where
  abbrev made : List RgkContinuationAllocationShape → List RgkAllocation
  made = map (allocation_at p witness daa depth)

  supply-made : (xs : List RgkContinuationAllocationShape) → supply (made xs) ≡ planned_supply xs
  unfolding allocation_at
  supply-made [] = refl
  supply-made (s ∷ rest) = ap (λ n. s.amount + n) (supply-made rest)

  -- Distinct indexes give distinct outpoints of the one witness transaction.
  fresh_outpoints :
      (i : ℕ) (xs : List RgkContinuationAllocationShape)
      → All (λ j. i ≢ j) (output_indexes xs)
      → All (λ o. record { transaction_id = witness; index = i } ≢ o) (outpoints (made xs))
  unfolding allocation_at
  fresh_outpoints i [] h = tt
  fresh_outpoints i (s ∷ rest) h =
      (λ e. h.0 (ap (λ (o : KaspaOutpoint). o.index) e), fresh_outpoints i rest h.1)

  Distinct-made :
      (xs : List RgkContinuationAllocationShape)
      → Distinct (output_indexes xs)
      → Distinct (outpoints (made xs))
  unfolding allocation_at
  Distinct-made [] h = tt
  Distinct-made (s ∷ rest) h = (fresh_outpoints s.output_index rest h.0, Distinct-made rest h.1)

  All-made :
      (xs : List RgkContinuationAllocationShape)
      → NonZero witness
      → (depth ≡ 0 → xs ≡ [])
      → All IsShape xs
      → All (IsAllocation p.chain) (made xs)
  unfolding allocation_at is_zero32
  All-made [] n d h = tt
  All-made (s ∷ rest) n d ((h1, (h2, h3)), h) = (
    (
      h1,
      (
        refl,
        (
          λ e. n (ap (λ (o : KaspaOutpoint). is_zero32 o.transaction_id) e),
          (h2, (n, (h3, λ e. cons_nil (d e)))),
        ),
      ),
    ),
    All-made rest n (λ e. absurd (cons_nil (d e))) h,
  )

  made_depth :
      (xs : List RgkContinuationAllocationShape)
      → All (IsAllocation p.chain) (made xs)
      → depth ≡ 0
      → xs ≡ []
  unfolding allocation_at
  made_depth [] h e = refl
  made_depth (s ∷ rest) ((_, (_, (_, (_, (_, (_, n)))))), _) e = absurd (n e)

module _ (sha256 : List ℕ → Bytes32) (p : RgkContinuationPlan) (witness : Bytes32)
    (daa depth : ℕ) where
  -- What the witness transaction has to bring: an id, a confirmation if it creates anything, outputs that
  -- the plan does not spend, and a digest other than the previous one.
  abbrev pub IsWitness : Type 0
  IsWitness =
      NonZero witness
      × ((depth ≡ 0 → p.new_allocation_shapes ≡ [])
          × (Unspent (outpoints p.spent_allocations)
                (transition_at p witness daa depth).new_allocations
              × (after sha256 (transition_at p witness daa depth) ≢ p.previous_state_digest)))

  transition_at-IsTransition :
      IsPlan sha256 p → IsTransition sha256 (transition_at p witness daa depth) ↔ IsWitness
  unfolding transition_at
  transition_at-IsTransition v = (
    λ t. (
      t.witness,
      (made_depth p witness daa depth p.new_allocation_shapes t.created.0, (t.unspent, t.changes)),
    ),
    λ (w, (d, (apart, moved))).
        let total = supply-made p witness daa depth p.new_allocation_shapes in
        record {
          owned = v.owned;
          witness = w;
          spends = v.spends;
          spent = v.spent;
          created = (
            All-made p witness daa depth p.new_allocation_shapes w d v.shapes.0,
            (
              Distinct-made p witness daa depth p.new_allocation_shapes v.shapes.1.0,
              rw total v.shapes.1.1.0,
            ),
          );
          conserved = rw total v.conserved;
          burns = v.burns;
          continues = v.continues;
          changes = moved;
          unspent = apart;
        },
  )

  -- A plan is completed exactly when it is valid and the witness transaction is as `IsWitness` says; the
  -- result then carries the plan's commitment and the transition that the plan and the transaction make,
  -- with its report. So every valid plan is completed by a confirmed transaction with an id of its own,
  -- whose outputs the plan does not spend, and which changes the state digest.
  pub finalize_iff :
      (f : RgkFinalizedContinuation)
      → (finalize sha256 p witness daa depth ≡ ok f) ↔ (
          IsPlan sha256 p
          × (IsWitness
              × (f ≡ record {
                commitment = (plan_report_of sha256 p).commitment;
                transition = transition_at p witness daa depth;
                transition_report = report_of sha256 (transition_at p witness daa depth);
              })))
  unfolding finalize
  finalize_iff f =
      let (there, back) =
        valued (validate_plan sha256 p) _ (plan_report_of sha256 p) (validate_plan_iff sha256 p) (
          valued _ _ (report_of sha256 (transition_at p witness daa depth))
            (validate_transition_iff sha256 (transition_at p witness daa depth)) (returned f)) in
      (
        λ h. let (v, (t, e)) = there h in (v, ((transition_at-IsTransition v).0 t, e)),
        λ (v, (w, e)). back (v, ((transition_at-IsTransition v).1 w, e)),
      )
