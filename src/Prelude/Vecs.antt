-- ===== src/Prelude/Vecs.antt =====
-- `Vec::pop`, `last` and what they undo.
use mathlib.Core.Path.{◌≡◌, refl, ap, ◌∙◌}
use mathlib.Core.Option.{Option, none, some}
use mathlib.Core.List.{List, [], ◌∷◌, ◌++◌}
use native.Mathlib.Omega.{arith}
use mathlib.Core.Logic.{inl, inr}
use rgk.Prelude.Lists.{Option-cases}
use rgk.Prelude.Equality.{none-some, some_of}

module _ {ℓ} {A : Type ℓ} where
  -- The vector without its last element, and that element.
  unfoldable pub pop : List A → Option (List A × A)
  pop [] = none
  pop (x ∷ xs) = elim (pop xs) [ none ↦ some ([], x) | some (ys, y) ↦ some (x ∷ ys, y) ]

  unfoldable pub last : List A → Option A
  unfolding pop
  last xs = elim (pop xs) [ none ↦ none | some (ys, y) ↦ some y ]

  unfoldable pub drop_last : List A → List A
  unfolding pop
  drop_last xs = elim (pop xs) [ none ↦ [] | some (ys, y) ↦ ys ]

  unfoldable pub first : List A → Option A
  first [] = none
  first (x ∷ xs) = some x

  pub pop-snoc : (xs : List A) (x : A) → pop (xs ++ (x ∷ [])) ≡ some (xs, x)
  unfolding pop
  pop-snoc [] x = refl
  pop-snoc (y ∷ ys) x = rw (pop-snoc ys x)

  pub drop_last-snoc : (xs : List A) (x : A) → drop_last (xs ++ (x ∷ [])) ≡ xs
  unfolding drop_last
  drop_last-snoc xs x = rw (pop-snoc xs x, drop_last)

  pub pop-eq_none : (xs : List A) → pop xs ≡ none → xs ≡ []
  unfolding pop
  pop-eq_none [] e = refl
  pop-eq_none (x ∷ xs) e = ground arith

  pub pop-eq_some :
      (xs : List A) {ys : List A} {y : A} → pop xs ≡ some (ys, y) → xs ≡ ys ++ (y ∷ [])
  unfolding pop
  pop-eq_some [] e = cc
  pop-eq_some (x ∷ xs) {ys} {y} e = elim (Option-cases (pop xs)) [
    | inl n ↦
        let e' : some ([], x) ≡ some (ys, y) = rw n at e in
        let front : ◌≡◌ {A = List A} [] ys = cc e' in
        let back : x ≡ y = cc e' in rw (pop-eq_none xs n, ← front, ← back)
    | inr ((zs, z), s) ↦
        let e' : some (x ∷ zs, z) ≡ some (ys, y) = rw s at e in
        let front : ◌≡◌ {A = List A} (x ∷ zs) ys = cc e' in
        let back : z ≡ y = cc e' in rw (pop-eq_some xs s, ← front, ← back)
  ]

  pub last-eq_some :
      (xs : List A) {y : A} → last xs ≡ some y → (ys : List A) × (xs ≡ ys ++ (y ∷ []))
  unfolding last
  last-eq_some xs {y} e = elim (Option-cases (pop xs)) [
    | inl n ↦ absurd (none-some (rw (n, last) at e))
    | inr ((zs, z), s) ↦
        (zs, pop-eq_some xs s ∙ ap (λ w. zs ++ (w ∷ [])) (some_of (rw (s, last) at e)))
  ]

  pub last-snoc : (xs : List A) (x : A) → last (xs ++ (x ∷ [])) ≡ some x
  unfolding last
  last-snoc xs x = rw (pop-snoc xs x, last)
