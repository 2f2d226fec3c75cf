-- ===== src/Prelude/Sorts.antt =====
-- `sort_by_key`: the stable sort, as insertion of each element before the sorted rest.
use mathlib.Core.Bool.{Bool}
use mathlib.Core.List.{List, [], ◌∷◌}
use rgk.Prelude.Equality.{PartialEq, ◌≟◌}
use rgk.Prelude.Lists.{if◌then◌else◌}
use rgk.Prelude.Maps.{Ord}

-- The derived order of tuples: the first component, then the rest.
module _ {ℓ κ} {A : Type ℓ} {B : Type κ} ⦃e : PartialEq A⦄ ⦃o : Ord A⦄ ⦃p : Ord B⦄ where
  unfoldable pub lt_pair : A × B → A × B → Bool
  lt_pair a b = elim (a.0 ≟ b.0) [ yes _ ↦ p.lt a.1 b.1 | no _ ↦ o.lt a.0 b.0 ]

  instance abbrev pub pair_ord : Ord (A × B)
  pair_ord = record { lt = lt_pair }

module _ {ℓ κ} {A : Type ℓ} {K : Type κ} ⦃o : Ord K⦄ (key : A → K) where
  -- Before the first element whose key is not smaller.
  unfoldable pub insert_by_key : A → List A → List A
  insert_by_key x [] = x ∷ []
  insert_by_key x (y ∷ ys) =
      let rest = insert_by_key x ys in if o.lt (key y) (key x) then y ∷ rest else x ∷ y ∷ ys

  unfoldable pub sort_by_key : List A → List A
  sort_by_key [] = []
  sort_by_key (x ∷ xs) = insert_by_key x (sort_by_key xs)
