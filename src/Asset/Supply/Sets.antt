-- ===== src/Asset/Supply/Sets.antt =====
-- Which sets of allocations and of shapes pass, and the total they answer.
use rgk.Prelude.{
  ℕ, ◌+◌, ◌^◌, ◌<◌, ◌≡◌, ◌≢◌, ◌↔◌, refl, sym, ap, true, List, [], ◌∷◌, map, length, ok, ok_or, ◌≟◌,
  nat_eq, bool_eq, contains, All, Distinct, Fresh, Fresh-Distinct, ok_of, arith, dec_lt, ensured,
  rejected, valued, returned, cons_nil, ensured_last,
}
use mathlib.Core.Logic.{if_pos, if_neg}
use rgk.Core.Bytes.{Bytes32}
use rgk.Core.Chain.{KaspaChainId, chain_eq}
use rgk.Core.Types.{KaspaOutpoint, null_outpoint, outpoint_eq}
use rgk.Asset.Errors.{RgkAssetError}
use rgk.Asset.Policies.{is_zero32}
use rgk.Asset.Records.{RgkAllocation}
use rgk.Asset.Supply.{
  checked_add_u64, check_allocations, validate_allocation_set_structure_allow_empty,
  validate_allocation_set_structure, validate_allocation_set_exact,
}

abbrev pub NonZero : Bytes32 → Type 0
NonZero b = ¬ (is_zero32 b ≡ true)

-- What one allocation has to satisfy.
abbrev pub IsAllocation : KaspaChainId → RgkAllocation → Type 0
IsAllocation chain a =
    ¬ (a.amount ≡ 0)
    × ((a.anchor.chain ≡ chain)
        × (¬ (a.anchor.covenant_outpoint ≡ null_outpoint)
            × (NonZero a.anchor.covenant_id
                × (NonZero a.anchor.witness_txid
                    × (NonZero a.encrypted_note_commitment
                        × ¬ (a.anchor.confirmation_depth ≡ 0))))))

abbrev pub outpoints : List RgkAllocation → List KaspaOutpoint
outpoints = map (λ a. a.anchor.covenant_outpoint)

abbrev pub supply : List RgkAllocation → ℕ
supply [] = 0
supply (a ∷ rest) = a.amount + supply rest

pub checked_add_u64_iff :
    (a b : ℕ) (e : RgkAssetError) (c : ℕ)
    → (ok_or (checked_add_u64 a b) e ≡ ok c) ↔ ((a + b < 2 ^ 64) × (c ≡ a + b))
unfolding checked_add_u64
checked_add_u64_iff a b e c = elim (dec_lt (a + b) (2 ^ 64)) [
  | yes p ↦ rw (if_pos _ p) (λ h. (p, sym (ok_of h)), λ (_, s). ap ok (sym s))
  | no n ↦ rw (if_neg _ n) (λ h. cc, λ (p, _). absurd (n p))
]

-- What the loop asks, in its order, from the outpoints seen and the total so far.
abbrev Admitted : KaspaChainId → List KaspaOutpoint → ℕ → ℕ → List RgkAllocation → Type 0
Admitted chain seen total end [] = end ≡ total
Admitted chain seen total end (a ∷ rest) =
    ¬ (a.amount ≡ 0)
    × ((a.anchor.chain ≡ chain)
        × (¬ (a.anchor.covenant_outpoint ≡ null_outpoint)
            × (NonZero a.anchor.covenant_id
                × (NonZero a.anchor.witness_txid
                    × (NonZero a.encrypted_note_commitment
                        × (¬ (a.anchor.confirmation_depth ≡ 0)
                            × (¬ (contains seen a.anchor.covenant_outpoint ≡ true)
                                × ((total + a.amount < 2 ^ 64)
                                    × Admitted chain (a.anchor.covenant_outpoint ∷ seen)
                                        (total + a.amount) end rest))))))))

check_allocations-Admitted :
    (chain : KaspaChainId) (index : ℕ) (seen : List KaspaOutpoint) (total end : ℕ)
    (xs : List RgkAllocation)
    → (check_allocations chain index seen total xs ≡ ok end) ↔ Admitted chain seen total end xs
unfolding check_allocations
check_allocations-Admitted chain index seen total end [] = returned end
check_allocations-Admitted chain index seen total end (a ∷ rest) = rejected (a.amount ≟ 0) _ (
    ensured (a.anchor.chain ≟ chain) _ (
      rejected (a.anchor.covenant_outpoint ≟ null_outpoint) _ (
        rejected (is_zero32 a.anchor.covenant_id ≟ true) _ (
          rejected (is_zero32 a.anchor.witness_txid ≟ true) _ (
            rejected (is_zero32 a.encrypted_note_commitment ≟ true) _ (
              rejected (a.anchor.confirmation_depth ≟ 0) _ (
                rejected (contains seen a.anchor.covenant_outpoint ≟ true) _ (
                  valued (ok_or (checked_add_u64 total a.amount) _) _ (total + a.amount)
                    (checked_add_u64_iff total a.amount _)
                    (check_allocations-Admitted chain (index + 1)
                      (a.anchor.covenant_outpoint ∷ seen) (total + a.amount) end rest)))))))))

Admitted-iff :
    (chain : KaspaChainId) (seen : List KaspaOutpoint) (total end : ℕ) (xs : List RgkAllocation)
    → total < 2 ^ 64
    → Admitted chain seen total end xs ↔ (
        All (IsAllocation chain) xs
        × (Fresh seen (outpoints xs) × ((end < 2 ^ 64) × (end ≡ total + supply xs))))
Admitted-iff chain seen total end [] h =
    (λ e. (tt, (tt, (omega arith, omega arith))), λ (_, (_, (_, e))). omega arith)
Admitted-iff chain seen total end (a ∷ rest) h = (
  λ (h1, (h2, (h3, (h4, (h5, (h6, (h7, (h8, (h9, k))))))))).
      let (all, (fresh, (fits, sum))) =
        (Admitted-iff chain (a.anchor.covenant_outpoint ∷ seen) (total + a.amount) end rest h9).0
          k in
      (((h1, (h2, (h3, (h4, (h5, (h6, h7)))))), all), ((h8, fresh), (fits, omega arith))),
  λ (((h1, (h2, (h3, (h4, (h5, (h6, h7)))))), all), ((h8, fresh), (fits, sum))). (
    h1,
    (
      h2,
      (
        h3,
        (
          h4,
          (
            h5,
            (
              h6,
              (
                h7,
                (
                  h8,
                  (
                    omega arith,
                    (Admitted-iff chain (a.anchor.covenant_outpoint ∷ seen) (total + a.amount) end
                          rest (omega arith)).1
                        (all, (fresh, (fits, omega arith))),
                  ),
                ),
              ),
            ),
          ),
        ),
      ),
    ),
  ),
)

-- What a set of allocations has to satisfy as a whole.
abbrev pub IsAllocationSet : KaspaChainId → List RgkAllocation → Type 0
IsAllocationSet chain xs =
    All (IsAllocation chain) xs × (Distinct (outpoints xs) × (supply xs < 2 ^ 64))

pub allow_empty_iff :
    (chain : KaspaChainId) (xs : List RgkAllocation) (total : ℕ)
    → (validate_allocation_set_structure_allow_empty chain xs ≡ ok total)
      ↔ (IsAllocationSet chain xs × (total ≡ supply xs))
unfolding validate_allocation_set_structure_allow_empty
allow_empty_iff chain xs total =
    let (there, back) = check_allocations-Admitted chain 0 [] 0 total xs in
    let (open_it, close_it) = Admitted-iff chain [] 0 total xs (omega arith) in
    (
      λ h.
          let (all, (fresh, (fits, sum))) = open_it (there h) in
          ((all, ((Fresh-Distinct (outpoints xs)).0 fresh, omega arith)), omega arith),
      λ ((all, (distinct, fits)), sum). back (
          close_it (all, ((Fresh-Distinct (outpoints xs)).1 distinct, (omega arith, omega arith)))),
    )

-- The same with at least one allocation.
pub structure_iff :
    (chain : KaspaChainId) (xs : List RgkAllocation) (total : ℕ)
    → (validate_allocation_set_structure chain xs ≡ ok total)
      ↔ ((xs ≢ [] × IsAllocationSet chain xs) × (total ≡ supply xs))
unfolding validate_allocation_set_structure
structure_iff chain [] total = (λ h. cc, λ ((n, _), _). absurd (n refl))
structure_iff chain (a ∷ rest) total =
    let (there, back) = allow_empty_iff chain (a ∷ rest) total in
    (
      λ h. let (set, sum) = there h in ((λ e. cons_nil e, set), sum),
      λ ((_, set), sum). back (set, sum),
    )

pub exact_iff :
    (chain : KaspaChainId) (total : ℕ) (xs : List RgkAllocation)
    → (validate_allocation_set_exact chain total xs ≡ ok tt)
      ↔ ((xs ≢ [] × IsAllocationSet chain xs) × (supply xs ≡ total))
unfolding validate_allocation_set_exact
exact_iff chain total xs =
    valued (validate_allocation_set_structure chain xs) _ (supply xs) (structure_iff chain xs)
      (ensured_last (supply xs ≟ total) _)

pub length-nonzero : (xs : List RgkAllocation) → xs ≢ [] → ¬ (length xs ≡ 0)
length-nonzero [] n e = n refl
length-nonzero (x ∷ xs) n e = omega arith
