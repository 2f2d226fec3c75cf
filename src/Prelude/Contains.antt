-- ===== src/Prelude/Contains.antt =====
-- Membership tests and lists without repetition.
use mathlib.Core.Path.{◌≡◌, refl}
use mathlib.Core.Bool.{true, false}
use mathlib.Core.Logic.{◌≢◌}
use mathlib.Core.List.{List, [], ◌∷◌, ◌++◌}
use native.Mathlib.Omega.{arith}
use rgk.Prelude.Equality.{PartialEq, contains, ◌≟◌}
use mathlib.Core.Logic.{◌↔◌}
use rgk.Prelude.Lists.{All, All-imp}

module _ {ℓ} {A : Type ℓ} where
  -- No element occurs twice.
  abbrev pub Distinct : List A → Type ℓ
  Distinct [] = Unit {ℓ}
  Distinct (x ∷ xs) = All (λ y. x ≢ y) xs × Distinct xs

  pub All-snoc {κ} :
      (P : A → Type κ) (xs : List A) (y : A) → All P xs → P y → All P (xs ++ (y ∷ []))
  All-snoc P [] y h p = (p, tt)
  All-snoc P (x ∷ xs) y h p = (h.0, All-snoc P xs y h.1 p)

  pub Distinct-snoc :
      (xs : List A) (y : A) → Distinct xs → All (λ x. x ≢ y) xs → Distinct (xs ++ (y ∷ []))
  Distinct-snoc [] y h a = (tt, tt)
  Distinct-snoc (x ∷ xs) y h a = (All-snoc (λ z. x ≢ z) xs y h.0 a.0, Distinct-snoc xs y h.1 a.1)

  All-init {κ} : (P : A → Type κ) (xs : List A) (y : A) → All P (xs ++ (y ∷ [])) → All P xs
  All-init P [] y h = tt
  All-init P (x ∷ xs) y h = (h.0, All-init P xs y h.1)

  pub Distinct-init : (xs : List A) (y : A) → Distinct (xs ++ (y ∷ [])) → Distinct xs
  Distinct-init [] y h = tt
  Distinct-init (x ∷ xs) y h = (All-init (λ z. x ≢ z) xs y h.0, Distinct-init xs y h.1)

module _ {ℓ} {A : Type ℓ} ⦃e : PartialEq A⦄ where
  pub contains_absent : (xs : List A) (a : A) → contains xs a ≡ false → All (λ x. x ≢ a) xs
  unfolding contains
  contains_absent [] a h = tt
  contains_absent (x ∷ xs) a h = ground (arith, contains_absent xs a)

  pub contains-snoc_self : (xs : List A) (a : A) → contains (xs ++ (a ∷ [])) a ≡ true
  unfolding contains
  contains-snoc_self [] a = ground arith
  contains-snoc_self (x ∷ xs) a = ground (arith, contains-snoc_self xs a)

  pub contains-snoc_ne :
      (xs : List A) (a b : A) → b ≢ a → contains (xs ++ (b ∷ [])) a ≡ contains xs a
  unfolding contains
  contains-snoc_ne [] a b n = ground arith
  contains-snoc_ne (x ∷ xs) a b n = ground (arith, contains-snoc_ne xs a b n)

  pub contains-snoc_kept :
      (xs : List A) (a b : A) → contains xs a ≡ true → contains (xs ++ (b ∷ [])) a ≡ true
  contains-snoc_kept xs a b h = elim (b ≟ a) [
    | yes p ↦ rw p (contains-snoc_self xs a)
    | no n ↦ rw (contains-snoc_ne xs a b n) h
  ]

  -- What a loop that collects the elements it has seen asks: none is among those of before, none recurs.
  abbrev pub Fresh : List A → List A → Type ℓ
  Fresh seen [] = Unit {ℓ}
  Fresh seen (x ∷ xs) = ¬ (contains seen x ≡ true) × Fresh (x ∷ seen) xs

  contains-cons :
      (seen : List A) (x y : A)
      → (¬ (contains (x ∷ seen) y ≡ true)) ↔ ((x ≢ y) × ¬ (contains seen y ≡ true))
  unfolding contains
  contains-cons seen x y = ground arith

  pub Fresh-iff :
      (seen xs : List A) → Fresh seen xs ↔ (All (λ x. ¬ (contains seen x ≡ true)) xs × Distinct xs)
  Fresh-iff seen [] = (λ _. (tt, tt), λ _. tt)
  Fresh-iff seen (x ∷ xs) = (
    λ (n, f).
        let (a, d) = (Fresh-iff (x ∷ seen) xs).0 f in
        (
          (n, All-imp xs (λ y p. ((contains-cons seen x y).0 p).1) a),
          (All-imp xs (λ y p. ((contains-cons seen x y).0 p).0) a, d),
        ),
    λ ((n, a), (u, d)). (n, (Fresh-iff (x ∷ seen) xs).1 (All-unseen xs u a, d)),
  )
    where
      All-unseen :
          (ys : List A)
          → All (λ y. x ≢ y) ys
          → All (λ y. ¬ (contains seen y ≡ true)) ys
          → All (λ y. ¬ (contains (x ∷ seen) y ≡ true)) ys
      All-unseen [] u a = tt
      All-unseen (y ∷ ys) u a = ((contains-cons seen x y).1 (u.0, a.0), All-unseen ys u.1 a.1)

  -- From nothing seen: no element occurs twice.
  pub Fresh-Distinct : (xs : List A) → Fresh [] xs ↔ Distinct xs
  unfolding contains
  Fresh-Distinct xs = (λ f. ((Fresh-iff [] xs).0 f).1, λ d. (Fresh-iff [] xs).1 (unseen xs, d))
    where
      unseen : (ys : List A) → All (λ y. ¬ (contains [] y ≡ true)) ys
      unseen [] = tt
      unseen (y ∷ ys) = (λ h. cc, unseen ys)

  pub absent_iff : (xs : List A) (a : A) → (¬ (contains xs a ≡ true)) ↔ All (λ x. x ≢ a) xs
  unfolding contains
  absent_iff [] a = (λ _. tt, λ _ h. cc)
  absent_iff (x ∷ xs) a =
      let (there, back) = absent_iff xs a in
      elim (x ≟ a)
        as (λ d.
          (¬ ((elim d [ yes _ ↦ true | no _ ↦ contains xs a ]) ≡ true))
          ↔ All (λ y. y ≢ a) (x ∷ xs)) [
            | yes e ↦ (λ n. absurd (n refl), λ (n, _). absurd (n e))
            | no n ↦ (λ h. (n, there h), λ (_, h). back h)
          ]
