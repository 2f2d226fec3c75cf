-- ===== src/Asset/Strategies/Plans.antt =====
-- A production plan is completed just when its continuation plan is: the counts and the strategy that it
-- was made for are met again.
use rgk.Prelude.{
  ℕ, ◌≡◌, refl, ap, List, [], ◌∷◌, map, length, Result, ok, err, ◌≟◌, ensure-of, ok_of, >>=-eq-ok,
  ◌>>=◌, ◌>>◌, ensure, suc, PartialEq,
}
use rgk.Core.Bytes.{Bytes32}
use rgk.Asset.Errors.{RgkAssetError}
use rgk.Asset.Records.{RgkContinuationPlan, RgkContinuationReport, RgkFinalizedContinuation}
use rgk.Asset.Shapes.{RgkAllocationProofShape, require_counts}
use rgk.Asset.Continuations.{
  transition_at, finalize, finalize_for_production_zk, validate_plan_for_production_zk,
  plan_structure, validate_plan,
}
use rgk.Asset.Continuations.Valid.{plan_report_of, validate_plan_iff}
use rgk.Asset.Continuations.Finalized.{finalize_iff}
use rgk.Asset.Supply.Delta.{burned}
use rgk.Asset.Strategies.Choice.{Serves, choose_strategy_iff}
use rgk.Asset.Strategies.{
  RgkProductionZkTransferPlan, RgkProductionAllocationStrategyPlan, for_continuation_report,
  new_transfer_plan, finalize_transfer, new_strategy_plan, finalize_strategy, strategy_eq,
}

length-map {ℓ κ} :
    {A : Type ℓ} {B : Type κ} (f : A → B) (xs : List A) → length (map f xs) ≡ length xs
length-map f [] = refl
length-map f (x ∷ xs) = ap suc (length-map f xs)

module _ {ℓ κ μ} {F : Type ℓ} {S : Type κ} {G : Type μ} where
  -- A strategy found again is the one compared with.
  find_again :
      ⦃e : PartialEq S⦄ (m : Result RgkAssetError F) (again : Result RgkAssetError S) (s : S)
      (error : F → RgkAssetError) (g : F → G)
      → again ≡ ok s
      → (m >>= λ f. again >>= λ t. ensure (t ≟ s) (error f) >> ok (g f)) ≡ (m >>= λ f. ok (g f))
  find_again (err x) again s error g h = refl
  find_again (ok f) again s error g h =
      rw h (ap (λ c. c >> ok (g f)) (ensure-of (s ≟ s) (error f) refl))

  -- Counts that are met twice more.
  count_again :
      (m : Result RgkAssetError F) (first second : F → Result RgkAssetError S) (s : S)
      (g : F → S → G)
      → ((f : F) → m ≡ ok f → (first f ≡ ok s) × (second f ≡ ok s))
      → ((m >>= λ f. first f >>= λ _. ok f) >>= λ f. second f >>= λ t. ok (g f t))
        ≡ (m >>= λ f. ok (g f s))
  count_again (err x) first second s g h = refl
  count_again (ok f) first second s g h = let (a, b) = h f refl in rw (a) (rw (b) refl)

module _ (sha256 : List ℕ → Bytes32) (p : RgkContinuationPlan) (witness : Bytes32)
    (daa depth : ℕ) where
  -- What the check at the end of `finalize` asks is met.
  finalize_strategy_lem :
      (plan : RgkProductionAllocationStrategyPlan)
      → new_strategy_plan sha256 p ≡ ok plan
      → finalize_strategy sha256 plan witness daa depth ≡ (
          finalize sha256 p witness daa depth >>= λ f. ok (record {
            finalized_continuation = f;
            strategy = plan.strategy;
            strategy_commitment = plan.strategy_commitment;
          }))
  unfolding new_strategy_plan finalize_strategy
  finalize_strategy_lem plan h =
      let (report, _, h1) = >>=-eq-ok (validate_plan sha256 p) _ h in
      let (strategy, chosen, h2) = >>=-eq-ok (for_continuation_report report) _ h1 in
      rw (← ok_of h2) (
        find_again (finalize sha256 p witness daa depth) (for_continuation_report report) strategy _
          _ chosen)

  -- The same report comes out of the production check.
  zk_report :
      (report : RgkContinuationReport)
      → validate_plan_for_production_zk sha256 p ≡ ok report
      → report ≡ plan_report_of sha256 p
  unfolding validate_plan_for_production_zk validate_plan
  zk_report report h =
      let (_, s, h1) = >>=-eq-ok (plan_structure sha256 p) _ h in
      let (_, _, h2) =
        >>=-eq-ok (require_counts (length p.spent_allocations) (length p.new_allocation_shapes)) _
          h1 in
      ((validate_plan_iff sha256 p report).0 (rw (s) h2)).1

  finalized_counts :
      (f : RgkFinalizedContinuation)
      → finalize sha256 p witness daa depth ≡ ok f
      → (length f.transition.spent_allocations ≡ length p.spent_allocations)
        × (length f.transition.new_allocations ≡ length p.new_allocation_shapes)
        × (f.transition_report.spent_allocation_count ≡ length p.spent_allocations)
        × (f.transition_report.new_allocation_count ≡ length p.new_allocation_shapes)
  unfolding transition_at
  finalized_counts f h =
      let (_, (_, e)) = (finalize_iff sha256 p witness daa depth f).0 h in
      rw e (refl, length-map _ p.new_allocation_shapes, refl, length-map _ p.new_allocation_shapes)

  again :
      (shape : RgkAllocationProofShape)
      → require_counts (length p.spent_allocations) (length p.new_allocation_shapes) ≡ ok shape
      → (f : RgkFinalizedContinuation) → finalize sha256 p witness daa depth ≡ ok f
      → (require_counts
            (length f.transition.spent_allocations)
            (length f.transition.new_allocations)
          ≡ ok shape)
        × (require_counts f.transition_report.spent_allocation_count
              f.transition_report.new_allocation_count
            ≡ ok shape)
  again shape h f k = let (a, b, c, d) = finalized_counts f k in (rw (a, b) h, rw (c, d) h)

  -- A plan for a fixed proof shape is completed exactly when its continuation plan is, with the same
  -- continuation, and keeps its shape: the completed transition has the counts that the plan had.
  pub transfer_plan_finalizes :
      (plan : RgkProductionZkTransferPlan)
      → new_transfer_plan sha256 p ≡ ok plan
      → finalize_transfer sha256 plan witness daa depth ≡ (
          finalize sha256 p witness daa depth >>= λ f.
          ok (record { finalized_continuation = f; allocation_shape = plan.allocation_shape }))
  unfolding new_transfer_plan finalize_transfer finalize_for_production_zk
  transfer_plan_finalizes plan h =
      let (report, zk, h1) = >>=-eq-ok (validate_plan_for_production_zk sha256 p) _ h in
      let (shape, counted, h2) =
        >>=-eq-ok (require_counts report.spent_allocation_count report.new_allocation_count) _ h1 in
      rw (← ok_of h2, zk)
        (count_again (finalize sha256 p witness daa depth) _ _ shape _
          (again shape (rw (zk_report report zk) at counted)))

  -- A plan for a production strategy is completed exactly when its continuation plan is, with the same
  -- continuation, and keeps its strategy and its commitment; and the strategy serves the transition that is
  -- completed: the numbers of allocations that it spends and creates, and the amount that it burns.
  pub strategy_plan-Serves :
      (plan : RgkProductionAllocationStrategyPlan)
      → new_strategy_plan sha256 p ≡ ok plan
      → (finalize_strategy sha256 plan witness daa depth ≡ (
          finalize sha256 p witness daa depth >>= λ f. ok (record {
            finalized_continuation = f;
            strategy = plan.strategy;
            strategy_commitment = plan.strategy_commitment;
          })))
        × ((f : RgkFinalizedContinuation)
            → finalize sha256 p witness daa depth ≡ ok f
            → Serves
                (length f.transition.spent_allocations)
                (length f.transition.new_allocations)
                (burned f.transition.burn)
                plan.strategy)
  unfolding transition_at
  strategy_plan-Serves plan h = (
    finalize_strategy_lem plan h,
    λ f k.
        let (_, (serves, _)) = (choose_strategy_iff sha256 p plan).0 h in
        let (_, (_, e)) = (finalize_iff sha256 p witness daa depth f).0 k in
        rw (e, length-map _ p.new_allocation_shapes) serves,
  )
