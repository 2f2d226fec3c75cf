-- ===== src/Asset/Shapes.antt =====
-- `RgkAllocationProofShape` of crates/rgk-asset/src/native.rs: the counts of allocations that the fixed
-- proof circuits serve.
pub mod Counts
use rgk.Prelude.{
  ℕ, Bool, true, false, Option, none, some, String, List, [], ◌∷◌, ◌==◌, ◌&&◌, if◌then◌else◌,
  Result, ok, err, ok_or, reject, dec_lt, PartialEq,
}
use rgk.Asset.Errors.{
  RgkAssetError, unsupported_production_zk_allocation_shape,
  production_zk_allocation_bound_exceeded,
}

pub data RgkAllocationProofShape : Type 0 where
  one_in_zero_out one_in_one_out two_in_two_out : RgkAllocationProofShape
  three_in_two_out four_in_two_out four_in_four_out : RgkAllocationProofShape

unfoldable pub RgkAllocationProofShape-discrete : Discrete RgkAllocationProofShape
RgkAllocationProofShape-discrete = hlevel

instance abbrev pub shape_eq : PartialEq RgkAllocationProofShape
shape_eq = record { dec_eq = RgkAllocationProofShape-discrete }

abbrev pub zk_shapes : List RgkAllocationProofShape
zk_shapes =
    one_in_zero_out ∷ one_in_one_out ∷ two_in_two_out ∷ three_in_two_out ∷ four_in_two_out
    ∷ four_in_four_out ∷ []

abbrev pub zk_max_spent : ℕ
zk_max_spent = 4

abbrev pub zk_max_new : ℕ
zk_max_new = 4

abbrev pub audit_segment_capacity : ℕ
audit_segment_capacity = 2

unfoldable pub spent_count : RgkAllocationProofShape → ℕ
spent_count one_in_zero_out = 1
spent_count one_in_one_out = 1
spent_count two_in_two_out = 2
spent_count three_in_two_out = 3
spent_count four_in_two_out = 4
spent_count four_in_four_out = 4

unfoldable pub new_count : RgkAllocationProofShape → ℕ
new_count one_in_zero_out = 0
new_count one_in_one_out = 1
new_count two_in_two_out = 2
new_count three_in_two_out = 2
new_count four_in_two_out = 2
new_count four_in_four_out = 4

unfoldable pub shape_label : RgkAllocationProofShape → String
shape_label one_in_zero_out = "1x0"
shape_label one_in_one_out = "1x1"
shape_label two_in_two_out = "2x2"
shape_label three_in_two_out = "3x2"
shape_label four_in_two_out = "4x2"
shape_label four_in_four_out = "4x4"

-- `Iterator::find`
unfoldable pub find :
    (RgkAllocationProofShape → Bool) → List RgkAllocationProofShape → Option RgkAllocationProofShape
find test [] = none
find test (shape ∷ shapes) = let rest = find test shapes in if test shape then some shape else rest

unfoldable pub from_counts : ℕ → ℕ → Option RgkAllocationProofShape
unfolding find spent_count new_count
from_counts spent new =
    find (λ shape. spent_count shape == spent && new_count shape == new) zk_shapes

unfoldable pub require_counts : ℕ → ℕ → Result RgkAssetError RgkAllocationProofShape
require_counts spent new =
    ok_or (from_counts spent new) (unsupported_production_zk_allocation_shape spent new)

unfoldable pub validate_production_zk_issue_count : ℕ → Result RgkAssetError (Unit {0})
validate_production_zk_issue_count count =
    reject (dec_lt zk_max_spent count)
      (production_zk_allocation_bound_exceeded "issue-state" count zk_max_spent)
