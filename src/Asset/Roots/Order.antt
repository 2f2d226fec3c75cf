-- ===== src/Asset/Roots/Order.antt =====
-- The roots do not depend on the order in which allocations and shapes are listed.
use mathlib.Core.List.{Perm}
use rgk.Prelude.{
  ℕ, ◌≡◌, ◌≢◌, ap, List, [], ◌∷◌, map, Distinct, All, IsLinear, nat-IsLinear, bytes-IsLinear,
  pair-IsLinear, pair_ord, nat_ord, bytes_ord, PartialEq, list_eq, nat_eq, ℕ_discrete, sort_by_key,
  sort_by_key-of_Perm, arith,
}
use rgk.Core.Bytes.{Bytes32}
use rgk.Core.Chain.{KaspaChainId-discrete}
use rgk.Core.Types.{
  KaspaOutpoint, Bytes32-discrete, KaspaOutpoint-discrete, lt_outpoint, outpoint_ord, outpoint_eq,
}
use rgk.Asset.Records.{RgkAllocation, RgkContinuationAllocationShape}
use rgk.Asset.Roots.{allocation_key, shape_key}
use rgk.Asset.Supply.Sets.{outpoints}
use rgk.Asset.Supply.Shapes.{output_indexes}

outpoint-IsLinear : IsLinear KaspaOutpoint
unfolding lt_outpoint
outpoint-IsLinear = record {
  irrefl = λ a. grind (arith, bytes-IsLinear.irrefl a.transaction_id);
  trans = λ a b c h k. grind (
    arith,
    bytes-IsLinear.trans a.transaction_id b.transaction_id c.transaction_id,
    bytes-IsLinear.irrefl a.transaction_id,
  );
  total = λ a b h k. grind (arith, bytes-IsLinear.total a.transaction_id b.transaction_id);
}

allocation_key-IsLinear : IsLinear (KaspaOutpoint × (Bytes32 × (Bytes32 × (ℕ × ℕ))))
allocation_key-IsLinear = pair-IsLinear outpoint-IsLinear (
    pair-IsLinear bytes-IsLinear
      (pair-IsLinear bytes-IsLinear (pair-IsLinear nat-IsLinear nat-IsLinear)))

shape_key-IsLinear : IsLinear (ℕ × (Bytes32 × (Bytes32 × ℕ)))
shape_key-IsLinear =
    pair-IsLinear nat-IsLinear
      (pair-IsLinear bytes-IsLinear (pair-IsLinear bytes-IsLinear nat-IsLinear))

RgkAllocation-discrete : Discrete RgkAllocation
RgkAllocation-discrete =
    hlevel (Bytes32-discrete, ℕ_discrete, KaspaOutpoint-discrete, KaspaChainId-discrete)

RgkContinuationAllocationShape-discrete : Discrete RgkContinuationAllocationShape
RgkContinuationAllocationShape-discrete = hlevel (Bytes32-discrete, ℕ_discrete)

instance abbrev allocation_eq : PartialEq RgkAllocation
allocation_eq = record { dec_eq = RgkAllocation-discrete }

instance abbrev shape_eq : PartialEq RgkContinuationAllocationShape
shape_eq = record { dec_eq = RgkContinuationAllocationShape-discrete }

-- Distinct first components make distinct keys.
Distinct-keys :
    (xs : List RgkAllocation) → Distinct (outpoints xs) → Distinct (map allocation_key xs)
unfolding allocation_key
Distinct-keys [] d = tt
Distinct-keys (a ∷ rest) d = (apart rest d.0, Distinct-keys rest d.1)
  where
    apart :
        (ys : List RgkAllocation)
        → All (λ o. a.anchor.covenant_outpoint ≢ o) (outpoints ys)
        → All (λ k. allocation_key a ≢ k) (map allocation_key ys)
    apart [] h = tt
    apart (y ∷ ys) h = (λ e. h.0 (ap (λ k. k.0) e), apart ys h.1)

Distinct-shape_keys :
    (xs : List RgkContinuationAllocationShape)
    → Distinct (output_indexes xs)
    → Distinct (map shape_key xs)
unfolding shape_key
Distinct-shape_keys [] d = tt
Distinct-shape_keys (s ∷ rest) d = (apart rest d.0, Distinct-shape_keys rest d.1)
  where
    apart :
        (ys : List RgkContinuationAllocationShape)
        → All (λ i. s.output_index ≢ i) (output_indexes ys)
        → All (λ k. shape_key s ≢ k) (map shape_key ys)
    apart [] h = tt
    apart (y ∷ ys) h = (λ e. h.0 (ap (λ k. k.0) e), apart ys h.1)

-- The allocations in the order of their keys are the same for every listing.
pub ordered-of_Perm :
    (xs ys : List RgkAllocation)
    → Distinct (outpoints xs)
    → Perm xs ys
    → sort_by_key allocation_key xs ≡ sort_by_key allocation_key ys
ordered-of_Perm xs ys d same =
    sort_by_key-of_Perm allocation_key allocation_key-IsLinear xs ys (Distinct-keys xs d) same

pub shapes_ordered-of_Perm :
    (xs ys : List RgkContinuationAllocationShape)
    → Distinct (output_indexes xs)
    → Perm xs ys
    → sort_by_key shape_key xs ≡ sort_by_key shape_key ys
shapes_ordered-of_Perm xs ys d same =
    sort_by_key-of_Perm shape_key shape_key-IsLinear xs ys (Distinct-shape_keys xs d) same
