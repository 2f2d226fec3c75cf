-- ===== src/Asset/Supply/Shapes.antt =====
-- Which continuation shapes pass, and the total they answer.
use rgk.Prelude.{
  ℕ, ◌+◌, ◌^◌, ◌<◌, ◌≡◌, ◌↔◌, refl, true, Option, none, some, List, [], ◌∷◌, map, ok, ok_or, ◌≟◌,
  nat_eq, bool_eq, contains, All, Distinct, Fresh, Fresh-Distinct, arith, rejected, valued,
  returned, cons_nil,
}
use rgk.Asset.Policies.{is_zero32}
use rgk.Asset.Records.{RgkBurnProof, RgkContinuationAllocationShape}
use rgk.Asset.Supply.{
  checked_add_u64, check_shapes, validate_continuation_shapes_structure,
  validate_continuation_shapes_structure_allow_empty,
}
use rgk.Asset.Supply.Sets.{NonZero, checked_add_u64_iff}

-- What one shape has to satisfy.
abbrev pub IsShape : RgkContinuationAllocationShape → Type 0
IsShape s = ¬ (s.amount ≡ 0) × (NonZero s.covenant_id × NonZero s.encrypted_note_commitment)

abbrev pub output_indexes : List RgkContinuationAllocationShape → List ℕ
output_indexes = map (λ s. s.output_index)

abbrev pub planned_supply : List RgkContinuationAllocationShape → ℕ
planned_supply [] = 0
planned_supply (s ∷ rest) = s.amount + planned_supply rest

-- What the loop asks, in its order, from the indexes seen and the total so far.
abbrev Admitted : List ℕ → ℕ → ℕ → List RgkContinuationAllocationShape → Type 0
Admitted seen total end [] = end ≡ total
Admitted seen total end (s ∷ rest) =
    ¬ (s.amount ≡ 0)
    × (NonZero s.covenant_id
        × (NonZero s.encrypted_note_commitment
            × (¬ (contains seen s.output_index ≡ true)
                × ((total + s.amount < 2 ^ 64)
                    × Admitted (s.output_index ∷ seen) (total + s.amount) end rest))))

check_shapes-Admitted :
    (index : ℕ) (seen : List ℕ) (total end : ℕ) (xs : List RgkContinuationAllocationShape)
    → (check_shapes index seen total xs ≡ ok end) ↔ Admitted seen total end xs
unfolding check_shapes
check_shapes-Admitted index seen total end [] = returned end
check_shapes-Admitted index seen total end (s ∷ rest) = rejected (s.amount ≟ 0) _ (
    rejected (is_zero32 s.covenant_id ≟ true) _ (
      rejected (is_zero32 s.encrypted_note_commitment ≟ true) _ (
        rejected (contains seen s.output_index ≟ true) _ (
          valued (ok_or (checked_add_u64 total s.amount) _) _ (total + s.amount)
            (checked_add_u64_iff total s.amount _)
            (check_shapes-Admitted (index + 1) (s.output_index ∷ seen) (total + s.amount) end
              rest)))))

Admitted-iff :
    (seen : List ℕ) (total end : ℕ) (xs : List RgkContinuationAllocationShape)
    → total < 2 ^ 64
    → Admitted seen total end xs ↔ (
        All IsShape xs
        × (Fresh seen (output_indexes xs) × ((end < 2 ^ 64) × (end ≡ total + planned_supply xs))))
Admitted-iff seen total end [] h =
    (λ e. (tt, (tt, (omega arith, omega arith))), λ (_, (_, (_, e))). omega arith)
Admitted-iff seen total end (s ∷ rest) h = (
  λ (h1, (h2, (h3, (h4, (h5, k))))).
      let (all, (fresh, (fits, sum))) =
        (Admitted-iff (s.output_index ∷ seen) (total + s.amount) end rest h5).0 k in
      (((h1, (h2, h3)), all), ((h4, fresh), (fits, omega arith))),
  λ (((h1, (h2, h3)), all), ((h4, fresh), (fits, sum))). (
    h1,
    (
      h2,
      (
        h3,
        (
          h4,
          (
            omega arith,
            (Admitted-iff (s.output_index ∷ seen) (total + s.amount) end rest (omega arith)).1
                (all, (fresh, (fits, omega arith))),
          ),
        ),
      ),
    ),
  ),
)

-- What the shapes have to satisfy as a whole: none at all are for a burn of everything.
abbrev pub IsShapeSet : List RgkContinuationAllocationShape → Option RgkBurnProof → Type 0
IsShapeSet xs burn =
    All IsShape xs
    × (Distinct (output_indexes xs)
        × ((planned_supply xs < 2 ^ 64) × ¬ ((xs ≡ []) × (burn ≡ none))))

pub shapes_iff :
    (xs : List RgkContinuationAllocationShape) (burn : Option RgkBurnProof) (total : ℕ)
    → (validate_continuation_shapes_structure_allow_empty xs burn ≡ ok total)
      ↔ (IsShapeSet xs burn × (total ≡ planned_supply xs))
unfolding validate_continuation_shapes_structure_allow_empty validate_continuation_shapes_structure
shapes_iff [] none total = (λ h. cc, λ ((_, (_, (_, n))), _). absurd (n (refl, refl)))
shapes_iff [] (some proof) total = (
  λ h. ((tt, (tt, (omega arith, λ (_, e). cc))), (returned total).0 h),
  λ (_, e). (returned total).1 e,
)
shapes_iff (s ∷ rest) burn total =
    let (there, back) = check_shapes-Admitted 0 [] 0 total (s ∷ rest) in
    let (open_it, close_it) = Admitted-iff [] 0 total (s ∷ rest) (omega arith) in
    (
      λ h.
          let (all, (fresh, (fits, sum))) = open_it (there h) in
          (
            (
              all,
              (
                (Fresh-Distinct (output_indexes (s ∷ rest))).0 fresh,
                (omega arith, λ (e, _). cons_nil e),
              ),
            ),
            omega arith,
          ),
      λ ((all, (distinct, (fits, _))), sum). back (
          close_it (
            all,
            ((Fresh-Distinct (output_indexes (s ∷ rest))).1 distinct, (omega arith, omega arith)),
          )),
    )
