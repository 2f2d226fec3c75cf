-- ===== src/Asset/Strategies/Choice.antt =====
-- Which strategy a plan is made for.
use rgk.Prelude.{
  ℕ, ◌+◌, ◌*◌, ◌<◌, ◌≤◌, ◌≡◌, ◌≢◌, ◌↔◌, refl, sym, ap, subst, ◌∙◌, none, some, List, length, inl,
  inr, Option-cases, ok, ok_of, none-some, arith, >>=-eq-ok,
}
use rgk.Core.Bytes.{Bytes32}
use rgk.Core.Encoding.{usize_mod}
use rgk.Asset.Records.{RgkContinuationPlan, RgkContinuationReport}
use rgk.Asset.Supply.Delta.{burned}
use rgk.Asset.Shapes.{RgkAllocationProofShape, spent_count, new_count, from_counts}
use rgk.Asset.Shapes.Counts.{from_counts_iff}
use rgk.Asset.Continuations.{validate_plan}
use rgk.Asset.Continuations.Valid.{IsPlan, plan_report_of, validate_plan_iff}
use rgk.Asset.Strategies.{
  RgkProductionAllocationStrategy, fixed_allocation_vector, segmented_allocation_audit, div_ceil,
  segmented_audit_for_report, for_continuation_report, RgkProductionAllocationStrategyPlan,
  new_strategy_plan, production_allocation_strategy_commitment,
}
use rgk.Asset.Strategies.Audit.{entries_of, segmented_audit_iff}

-- No fixed shape has these counts.
abbrev pub NoShape : ℕ → ℕ → Type 0
NoShape spent new =
    (shape : RgkAllocationProofShape) → spent_count shape ≡ spent → new_count shape ≢ new

-- `segments` of two hold `count` allocations, at least one, and no fewer segments do.
pub record Covers (segments count : ℕ) : Type 0 where
  pub some_there : count ≢ 0
  pub holds : count ≤ 2 * segments
  pub least : 2 * segments < count + 2

-- The strategy for so many spent and new allocations and what is burned: the fixed shape of these counts, or,
-- where there is none and nothing is burned, segments of two with a proof for each pair of segments, two for
-- each segment and one for the whole.
abbrev pub Serves : ℕ → ℕ → ℕ → RgkProductionAllocationStrategy → Type 0
Serves spent new burn (fixed_allocation_vector shape) =
    (spent_count shape ≡ spent) × (new_count shape ≡ new)
Serves spent new burn (segmented_allocation_audit capacity s n pairs entries) =
    (capacity ≡ 2)
    × ((burn ≡ 0)
        × (NoShape spent new
            × (Covers s spent
                × (Covers n new
                    × ((pairs ≡ s * n)
                        × ((entries ≡ (s + n) * 2 + 1 + s * n) × (entries < usize_mod)))))))

NoShape-of : (spent new : ℕ) → from_counts spent new ≡ none → NoShape spent new
NoShape-of spent new h shape p q = none-some (sym h ∙ (from_counts_iff spent new shape).0.1 (p, q))

none_of : (spent new : ℕ) → NoShape spent new → from_counts spent new ≡ none
none_of spent new h = elim (Option-cases (from_counts spent new)) [
  | inl e ↦ e
  | inr (shape, e) ↦ let (p, q) = (from_counts_iff spent new shape).0.0 e in absurd (h shape p q)
]

Covers-of : (count : ℕ) → count ≢ 0 → Covers (div_ceil count 2) count
Covers-of count h = record { some_there = h; holds = omega arith; least = omega arith }

Covers-unique : (s count : ℕ) → Covers s count → s ≡ div_ceil count 2
Covers-unique s count h = omega (arith, h.holds, h.least)

grid_of :
    (capacity s n pairs entries s' n' : ℕ)
    → capacity ≡ 2
    → s ≡ s'
    → n ≡ n'
    → pairs ≡ s * n
    → entries ≡ entries_of s n
    → entries < usize_mod
    → (entries_of s' n' < usize_mod)
      × (segmented_allocation_audit capacity s n pairs entries
          ≡ segmented_allocation_audit 2 s' n' (s' * n') (entries_of s' n'))
grid_of capacity s n pairs entries s' n' c p q a b h =
    rw (← p, ← q) (subst (λ v. v < usize_mod) b h, cc)

module _ (r : RgkContinuationReport) where
  fixed_case :
      (shape : RgkAllocationProofShape)
      → from_counts r.spent_allocation_count r.new_allocation_count ≡ some shape
      → for_continuation_report r ≡ ok (fixed_allocation_vector shape)
  unfolding for_continuation_report
  fixed_case shape h = rw (for_continuation_report, h) refl

  audit_case :
      from_counts r.spent_allocation_count r.new_allocation_count ≡ none
      → for_continuation_report r ≡ segmented_audit_for_report r 2
  unfolding for_continuation_report
  audit_case h = rw (for_continuation_report, h) refl

  Serves-sound :
      (st : RgkProductionAllocationStrategy)
      → for_continuation_report r ≡ ok st
      → Serves r.spent_allocation_count r.new_allocation_count r.burned_supply st
  Serves-sound st h =
      elim (Option-cases (from_counts r.spent_allocation_count r.new_allocation_count)) [
        | inr (shape, e) ↦
            let same : fixed_allocation_vector shape ≡ st = ok_of (sym (fixed_case shape e) ∙ h) in
            rw (← same)
              ((from_counts_iff r.spent_allocation_count r.new_allocation_count shape).0.0 e)
        | inl e ↦
            let (_, (burn, (spent, (new, (fits, same))))) =
              (segmented_audit_iff r 2 st).0.0 (sym (audit_case e) ∙ h) in
            rw same (
              refl,
              (
                burn,
                (
                  NoShape-of r.spent_allocation_count r.new_allocation_count e,
                  (
                    Covers-of r.spent_allocation_count spent,
                    (Covers-of r.new_allocation_count new, (refl, (refl, fits))),
                  ),
                ),
              ),
            )
      ]

  Serves-complete :
      (st : RgkProductionAllocationStrategy)
      → Serves r.spent_allocation_count r.new_allocation_count r.burned_supply st
      → for_continuation_report r ≡ ok st
  Serves-complete (fixed_allocation_vector shape) h =
      fixed_case shape
        ((from_counts_iff r.spent_allocation_count r.new_allocation_count shape).0.1 h)
  Serves-complete (segmented_allocation_audit capacity s n pairs entries)
        (two, (burn, (no_shape, (spent, (new, (grid, (total, fits))))))) =
      let s_is = Covers-unique s r.spent_allocation_count spent in
      let n_is = Covers-unique n r.new_allocation_count new in
      let (grid_fits, same) =
        grid_of capacity s n pairs entries _ _ two s_is n_is grid total fits in
      audit_case (none_of r.spent_allocation_count r.new_allocation_count no_shape)
      ∙ (segmented_audit_iff r 2 (segmented_allocation_audit capacity s n pairs entries)).0.1
          ((λ z. omega arith), (burn, (spent.some_there, (new.some_there, (grid_fits, same)))))

module _ (sha256 : List ℕ → Bytes32) where
  -- A plan for a production strategy is made exactly from a valid continuation plan and for the strategy that
  -- serves its counts: the fixed shape of exactly these counts, or, where no shape has them and nothing is burned,
  -- the segmented audit with the least number of segments of two for the allocations of each side, neither
  -- empty, a proof for each pair of segments, two for each segment and one for the whole, if their number
  -- fits the machine word. It keeps the plan with its report, and commits to the report and the strategy.
  pub choose_strategy_iff :
      (p : RgkContinuationPlan) (plan : RgkProductionAllocationStrategyPlan)
      → (new_strategy_plan sha256 p ≡ ok plan) ↔ (
          IsPlan sha256 p
          × (Serves
                (length p.spent_allocations)
                (length p.new_allocation_shapes)
                (burned p.burn)
                plan.strategy
              × (plan ≡ record {
                continuation_plan = p;
                continuation_report = plan_report_of sha256 p;
                strategy = plan.strategy;
                strategy_commitment =
                    production_allocation_strategy_commitment sha256
                      (plan_report_of sha256 p)
                      plan.strategy;
              })))
  unfolding new_strategy_plan
  choose_strategy_iff p plan = (
    λ h.
        let (report, valid, h1) = >>=-eq-ok (validate_plan sha256 p) _ h in
        let (is_plan, same) = (validate_plan_iff sha256 p report).0 valid in
        let (strategy, chosen, h2) = >>=-eq-ok (for_continuation_report report) _ h1 in
        let made = ok_of h2 in
        let kept : strategy ≡ plan.strategy =
          ap (λ (q : RgkProductionAllocationStrategyPlan). q.strategy) made in
        (
          is_plan,
          (
            Serves-sound (plan_report_of sha256 p) plan.strategy (rw (← kept, ← same) chosen),
            sym made ∙ (λ i. record {
              continuation_plan = p;
              continuation_report = same i;
              strategy = kept i;
              strategy_commitment =
                  production_allocation_strategy_commitment sha256 (same i) (kept i);
            }),
          ),
        ),
    λ (is_plan, (serves, made)).
        let valid = (validate_plan_iff sha256 p (plan_report_of sha256 p)).1 (is_plan, refl) in
        let chosen = Serves-complete (plan_report_of sha256 p) plan.strategy serves in
        rw (valid, chosen) (ap ok (sym made)),
  )
