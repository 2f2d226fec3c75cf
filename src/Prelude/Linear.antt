-- ===== src/Prelude/Linear.antt =====
-- Linear orders: the derived orders of numbers, of byte strings and of tuples are such.
use Prim.Native.Nat.{ℕ}
use mathlib.Core.Path.{◌≡◌, refl}
use mathlib.Core.Bool.{true, false}
use mathlib.Core.List.{List, [], ◌∷◌}
use native.Mathlib.Omega.{arith}
use rgk.Prelude.Equality.{PartialEq}
use rgk.Prelude.Maps.{Ord, lt_bytes, nat_ord, bytes_ord}
use rgk.Prelude.Sorts.{lt_pair, pair_ord}

module _ {ℓ} (A : Type ℓ) ⦃o : Ord A⦄ where
  pub record IsLinear : Type ℓ where
    pub irrefl : (a : A) → o.lt a a ≡ false
    pub trans : (a b c : A) → o.lt a b ≡ true → o.lt b c ≡ true → o.lt a c ≡ true
    pub total : (a b : A) → o.lt a b ≡ false → o.lt b a ≡ false → a ≡ b

pub nat-IsLinear : IsLinear ℕ
nat-IsLinear = record {
  irrefl = λ a. ground arith;
  trans = λ a b c h k. ground arith;
  total = λ a b h k. ground arith;
}

bytes_irrefl : (a : List ℕ) → lt_bytes a a ≡ false
unfolding lt_bytes
bytes_irrefl [] = refl
bytes_irrefl (x ∷ xs) = ground (arith, bytes_irrefl xs)

bytes_trans : (a b c : List ℕ) → lt_bytes a b ≡ true → lt_bytes b c ≡ true → lt_bytes a c ≡ true
unfolding lt_bytes
bytes_trans [] [] c h k = k
bytes_trans [] (y ∷ ys) [] h k = k
bytes_trans [] (y ∷ ys) (z ∷ zs) h k = refl
bytes_trans (x ∷ xs) [] c h k = cc
bytes_trans (x ∷ xs) (y ∷ ys) [] h k = cc
bytes_trans (x ∷ xs) (y ∷ ys) (z ∷ zs) h k = ground (arith, bytes_trans xs ys zs)

bytes_total : (a b : List ℕ) → lt_bytes a b ≡ false → lt_bytes b a ≡ false → a ≡ b
unfolding lt_bytes
bytes_total [] [] h k = refl
bytes_total [] (y ∷ ys) h k = cc
bytes_total (x ∷ xs) [] h k = cc
bytes_total (x ∷ xs) (y ∷ ys) h k = ground (arith, bytes_total xs ys)

pub bytes-IsLinear : IsLinear (List ℕ)
bytes-IsLinear = record { irrefl = bytes_irrefl; trans = bytes_trans; total = bytes_total }

module _ {ℓ κ} {A : Type ℓ} {B : Type κ} ⦃e : PartialEq A⦄ ⦃o : Ord A⦄ ⦃p : Ord B⦄ where
  pub pair-IsLinear : IsLinear A → IsLinear B → IsLinear (A × B)
  unfolding lt_pair
  pair-IsLinear f g = record {
    irrefl = λ a. grind (arith, g.irrefl a.1);
    trans = λ a b c h k. grind (arith, f.trans a.0 b.0 c.0, g.trans a.1 b.1 c.1, f.irrefl a.0);
    total = λ a b h k. grind (arith, f.total a.0 b.0, g.total a.1 b.1);
  }
