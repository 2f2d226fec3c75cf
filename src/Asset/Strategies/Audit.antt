-- ===== src/Asset/Strategies/Audit.antt =====
-- When a segmented audit is offered, and the size of its proof grid.
use rgk.Prelude.{
  ℕ, ◌+◌, ◌*◌, ◌<◌, ◌≤◌, ◌≡◌, ◌↔◌, sym, ok, ok_or, ◌≟◌, nat_eq, arith, dec_lt, rejected, ensured,
  valued, returned, ok_of, ap,
}
use mathlib.Core.Logic.{if_pos, if_neg}
use rgk.Core.Encoding.{usize_mod, checked_add}
use rgk.Asset.Errors.{RgkAssetError}
use rgk.Asset.Records.{RgkContinuationReport}
use rgk.Asset.Strategies.{
  RgkProductionAllocationStrategy, segmented_allocation_audit, div_ceil, checked_mul, audit_grid,
  segmented_audit_for_report,
}

checked_mul_iff :
    (a b : ℕ) (e : RgkAssetError) (c : ℕ)
    → (ok_or (checked_mul a b) e ≡ ok c) ↔ ((a * b < usize_mod) × (c ≡ a * b))
unfolding checked_mul
checked_mul_iff a b e c = elim (dec_lt (a * b) usize_mod) [
  | yes p ↦ rw (if_pos _ p) (λ h. (p, sym (ok_of h)), λ (_, s). ap ok (sym s))
  | no n ↦ rw (if_neg _ n) (λ h. cc, λ (p, _). absurd (n p))
]

checked_add_iff :
    (a b : ℕ) (e : RgkAssetError) (c : ℕ)
    → (ok_or (checked_add a b) e ≡ ok c) ↔ ((a + b < usize_mod) × (c ≡ a + b))
unfolding checked_add
checked_add_iff a b e c = elim (dec_lt (a + b) usize_mod) [
  | yes p ↦ rw (if_pos _ p) (λ h. (p, sym (ok_of h)), λ (_, s). ap ok (sym s))
  | no n ↦ rw (if_neg _ n) (λ h. cc, λ (p, _). absurd (n p))
]

-- Two per segment, one for the whole and one per pair of segments.
abbrev pub entries_of : ℕ → ℕ → ℕ
entries_of s n = (s + n) * 2 + 1 + s * n

audit_grid_iff :
    (capacity s n : ℕ) (st : RgkProductionAllocationStrategy)
    → (audit_grid capacity s n ≡ ok st) ↔ (
        (entries_of s n < usize_mod)
        × (st ≡ segmented_allocation_audit capacity s n (s * n) (entries_of s n)))
unfolding audit_grid
audit_grid_iff capacity s n st =
    let (there, back) = valued _ _ (s * n) (checked_mul_iff s n _) (
      valued _ _ (s + n) (checked_add_iff s n _) (
        valued _ _ ((s + n) * 2) (checked_mul_iff (s + n) 2 _) (
          valued _ _ ((s + n) * 2 + 1) (checked_add_iff ((s + n) * 2) 1 _) (
            valued _ _ (entries_of s n) (checked_add_iff ((s + n) * 2 + 1) (s * n) _)
              (returned st))))) in
    (
      λ h. let (_, (_, (_, (_, (fits, e))))) = there h in (fits, e),
      λ (fits, e). back (omega arith, (omega arith, (omega arith, (omega arith, (fits, e))))),
    )

-- The segments hold what they are for, and none is empty.
div_ceil_bounds :
    (count capacity : ℕ)
    → ¬ (capacity ≡ 0)
    → (count ≤ capacity * div_ceil count capacity)
      × (capacity * div_ceil count capacity < count + capacity)
div_ceil_bounds count capacity h = omega arith

-- A segmented audit is offered exactly for a report that burns nothing and has allocations on both sides,
-- at a capacity that is not zero, if the number of proof entries fits the machine word: two for each
-- segment, one for the whole and one for each pair of a spent and a new segment. No intermediate product
-- overflows then. The segments of each side hold its allocations, and fewer would not.
pub segmented_audit_iff :
    (r : RgkContinuationReport) (capacity : ℕ) (st : RgkProductionAllocationStrategy)
    → let s = div_ceil r.spent_allocation_count capacity in
      let n = div_ceil r.new_allocation_count capacity in
      ((segmented_audit_for_report r capacity ≡ ok st) ↔ (
        ¬ (capacity ≡ 0)
        × ((r.burned_supply ≡ 0)
            × (¬ (r.spent_allocation_count ≡ 0)
                × (¬ (r.new_allocation_count ≡ 0)
                    × ((entries_of s n < usize_mod)
                        × (st
                            ≡ segmented_allocation_audit capacity s n
                                (s * n)
                                (entries_of s n))))))))
      × (¬ (capacity ≡ 0)
          → (r.spent_allocation_count ≤ capacity * s)
            × (capacity * s < r.spent_allocation_count + capacity)
            × (r.new_allocation_count ≤ capacity * n)
            × (capacity * n < r.new_allocation_count + capacity))
unfolding segmented_audit_for_report
segmented_audit_iff r capacity st = (
  rejected (capacity ≟ 0) _ (
      ensured (r.burned_supply ≟ 0) _ (
        rejected (r.spent_allocation_count ≟ 0) _
          (rejected (r.new_allocation_count ≟ 0) _ (audit_grid_iff capacity _ _ st)))),
  λ h.
      let (a, b) = div_ceil_bounds r.spent_allocation_count capacity h in
      let (c, d) = div_ceil_bounds r.new_allocation_count capacity h in (a, b, c, d),
)
