-- ===== src/Asset/Shapes/Counts.antt =====
-- Which counts have a fixed proof shape.
use rgk.Prelude.{
  ℕ, ◌≤◌, ◌≡◌, ◌↔◌, refl, some, some_of, arith, Bool, true, List, [], ◌∷◌, Bool-cases, inl, inr,
  ◌==◌, ◌&&◌,
}
use rgk.Asset.Shapes.{
  RgkAllocationProofShape, one_in_zero_out, find, spent_count, new_count, from_counts, zk_max_spent,
  zk_max_new, zk_shapes,
}

find_sound :
    (test : RgkAllocationProofShape → Bool) (xs : List RgkAllocationProofShape)
    {shape : RgkAllocationProofShape}
    → find test xs ≡ some shape
    → test shape ≡ true
unfolding find
find_sound test [] h = cc
find_sound test (x ∷ xs) h = elim (Bool-cases (test x)) [
  | inl e ↦ rw (← some_of (rw e at h)) e
  | inr e ↦ find_sound test xs (rw e at h)
]

from_counts-counts :
    (shape : RgkAllocationProofShape)
    → from_counts (spent_count shape) (new_count shape) ≡ some shape
unfolding from_counts find spent_count new_count
from_counts-counts one_in_zero_out = refl
from_counts-counts _ = refl

both_equal : (a b c d : ℕ) → (a == b && c == d) ≡ true → (a ≡ b) × (c ≡ d)
both_equal a b c d h = ground arith

counts_of :
    (spent new : ℕ) (shape : RgkAllocationProofShape)
    → from_counts spent new ≡ some shape
    → (spent_count shape ≡ spent) × (new_count shape ≡ new)
unfolding from_counts
counts_of spent new shape h =
    both_equal (spent_count shape) spent (new_count shape) new
      (find_sound (λ s. spent_count s == spent && new_count s == new) zk_shapes h)

limits :
    (s : RgkAllocationProofShape)
    → (1 ≤ spent_count s) × (spent_count s ≤ zk_max_spent) × (new_count s ≤ zk_max_new)
unfolding spent_count new_count
limits s = ground arith

-- A fixed shape serves counts exactly when they are the counts of that shape; so at most four allocations
-- are spent and at most four are created, and at least one is spent.
pub from_counts_iff :
    (spent new : ℕ) (shape : RgkAllocationProofShape)
    → ((from_counts spent new ≡ some shape)
        ↔ ((spent_count shape ≡ spent) × (new_count shape ≡ new)))
      × ((from_counts spent new ≡ some shape)
          → (1 ≤ spent) × (spent ≤ zk_max_spent) × (new ≤ zk_max_new))
from_counts_iff spent new shape = (
  (counts_of spent new shape, λ (p, q). rw (← p, ← q) (from_counts-counts shape)),
  λ h. let (p, q) = counts_of spent new shape h in rw (← p, ← q) (limits shape),
)
