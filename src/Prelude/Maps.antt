-- ===== src/Prelude/Maps.antt =====
-- `BTreeMap` as an association list that `insert` keeps in ascending order of the keys.
use Prim.Native.Nat.{ℕ, compare, Ordering}
use mathlib.Core.Path.{◌≡◌, refl, sym, ◌∙◌}
use mathlib.Core.Bool.{Bool, true, false}
use mathlib.Core.Option.{Option, none, some}
use mathlib.Core.List.{List, [], ◌∷◌, map}
use native.Mathlib.Omega.{arith}
use rgk.Prelude.Equality.{PartialEq, ◌≟◌, none-some, some_of}
use rgk.Prelude.Lists.{if◌then◌else◌, ltb}

-- `Ord`: only `<` is asked for.
pub record Ord {ℓ} (A : Type ℓ) : Type ℓ where
  pub lt : A → A → Bool

instance abbrev pub nat_ord : Ord ℕ
nat_ord = record { lt = ltb }

-- The order of byte strings, lexicographic.
unfoldable pub lt_bytes : List ℕ → List ℕ → Bool
lt_bytes [] [] = false
lt_bytes [] (y ∷ ys) = true
lt_bytes (x ∷ xs) [] = false
lt_bytes (x ∷ xs) (y ∷ ys) =
    let rest = lt_bytes xs ys in
    elim (compare x y) [ Ordering.lt ↦ true | Ordering.eq ↦ rest | Ordering.gt ↦ false ]

instance abbrev pub bytes_ord : Ord (List ℕ)
bytes_ord = record { lt = lt_bytes }

abbrev pub BTreeMap {ℓ κ} : Type ℓ → Type κ → Type (ℓ ⊔ κ)
BTreeMap K V = List (K × V)

module _ {ℓ κ} {K : Type ℓ} {V : Type κ} where
  abbrev pub keys : BTreeMap K V → List K
  keys m = map (λ e. e.0) m

  abbrev pub values : BTreeMap K V → List V
  values m = map (λ e. e.1) m

module _ {ℓ κ} {K : Type ℓ} {V : Type κ} ⦃e : PartialEq K⦄ where
  unfoldable pub get : BTreeMap K V → K → Option V
  get [] k = none
  get ((j, v) ∷ m) k = elim (j ≟ k) [ yes _ ↦ some v | no _ ↦ get m k ]

  unfoldable pub contains_key : BTreeMap K V → K → Bool
  unfolding get
  contains_key m k = elim (get m k) [ none ↦ false | some _ ↦ true ]

  pub contains_key-false : (m : BTreeMap K V) (k : K) → contains_key m k ≡ false → get m k ≡ none
  unfolding contains_key
  contains_key-false m k h = ground arith

  unfoldable pub remove : K → BTreeMap K V → BTreeMap K V
  remove k [] = []
  remove k ((j, v) ∷ m) =
      let rest = remove k m in elim (j ≟ k) [ yes _ ↦ rest | no _ ↦ (j, v) ∷ rest ]

module _ {ℓ κ} {K : Type ℓ} {V : Type κ} ⦃e : PartialEq K⦄ ⦃o : Ord K⦄ where
  unfoldable pub insert : K → V → BTreeMap K V → BTreeMap K V
  insert k v [] = (k, v) ∷ []
  insert k v ((j, w) ∷ m) =
      let rest = insert k v m in
      elim (j ≟ k) [
        | yes _ ↦ (k, v) ∷ m
        | no _ ↦ if o.lt k j then (k, v) ∷ (j, w) ∷ m else (j, w) ∷ rest
      ]

  pub get-insert_self : (k : K) (v : V) (m : BTreeMap K V) → get (insert k v m) k ≡ some v
  unfolding get insert
  get-insert_self k v [] = ground arith
  get-insert_self k v ((j, w) ∷ m) = ground (arith, get-insert_self k v m)

  pub get-insert_ne :
      (k j : K) (v : V) (m : BTreeMap K V) → ¬ (k ≡ j) → get (insert k v m) j ≡ get m j
  unfolding get insert
  get-insert_ne k j v [] n = ground arith
  get-insert_ne k j v ((i, w) ∷ m) n = ground (arith, get-insert_ne k j v m n)

module _ {ℓ κ} {K : Type ℓ} {V : Type κ} ⦃e : PartialEq K⦄ where
  pub get-remove_self : (k : K) (m : BTreeMap K V) → get (remove k m) k ≡ none
  unfolding get remove
  get-remove_self k [] = refl
  get-remove_self k ((j, w) ∷ m) = ground (arith, get-remove_self k m)

  pub get-remove_ne : (k j : K) (m : BTreeMap K V) → ¬ (k ≡ j) → get (remove k m) j ≡ get m j
  unfolding get remove
  get-remove_ne k j [] n = refl
  get-remove_ne k j ((i, w) ∷ m) n = ground (arith, get-remove_ne k j m n)

-- What holds of every entry of a map.
module _ {ℓ κ μ} {K : Type ℓ} {V : Type κ} ⦃e : PartialEq K⦄ (P : K → V → Type μ) where
  abbrev pub ForEach : BTreeMap K V → Type (ℓ ⊔ κ ⊔ μ)
  ForEach m = (k : K) (v : V) → get m k ≡ some v → P k v

  pub ForEach-empty : ForEach []
  unfolding get
  ForEach-empty k v h = absurd (none-some h)

  pub ForEach-insert :
      ⦃o : Ord K⦄ (k : K) (v : V) (m : BTreeMap K V) → ForEach m → P k v → ForEach (insert k v m)
  ForEach-insert k v m h p j w g = elim (k ≟ j) [
    | yes q ↦ rw (← q, ← some_of (sym (get-insert_self k v m) ∙ rw (← q) at g)) p
    | no n ↦ h j w (sym (get-insert_ne k j v m n) ∙ g)
  ]

  pub ForEach-remove : (k : K) (m : BTreeMap K V) → ForEach m → ForEach (remove k m)
  ForEach-remove k m h j w g = elim (k ≟ j) [
    | yes q ↦ absurd (none-some (sym (get-remove_self k m) ∙ rw (← q) at g))
    | no n ↦ h j w (sym (get-remove_ne k j m n) ∙ g)
  ]
