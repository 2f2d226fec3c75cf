-- ===== src/Prelude/Equality.antt =====
-- `PartialEq`: equality that a program tests, as an interface that derived equalities fill.
use Prim.Native.Nat.{ℕ}
use mathlib.Core.Path.{◌≡◌, refl, sym, ap}
use mathlib.Core.Bool.{Bool, true, false, false≢true}
use mathlib.Core.Option.{Option, none, some}
use mathlib.Core.List.{List, [], ◌∷◌}
unfoldable use native.Mathlib.Decide.{ℕ_discrete}

pub record PartialEq {ℓ} (A : Type ℓ) : Type ℓ where
  pub dec_eq : Discrete A

infix 50 ◌≟◌
abbrev pub ◌≟◌ {ℓ} : {A : Type ℓ} ⦃e : PartialEq A⦄ (a b : A) → Dec (a ≡ b)
◌≟◌ ⦃e⦄ = e.dec_eq

instance abbrev pub nat_eq : PartialEq ℕ
nat_eq = record { dec_eq = ℕ_discrete }

module _ {ℓ} {A : Type ℓ} where
  pub head_of : {a b : A} {xs ys : List A} → a ∷ xs ≡ b ∷ ys → a ≡ b
  head_of e = cc

  pub tail_of : {a b : A} {xs ys : List A} → a ∷ xs ≡ b ∷ ys → xs ≡ ys
  tail_of e = cc

  pub some_of : {a b : A} → some a ≡ some b → a ≡ b
  some_of e = cc

  pub nil_cons : {b : A} {ys : List A} → ¬ ([] ≡ b ∷ ys)
  nil_cons e = cc

  pub cons_nil : {b : A} {ys : List A} → ¬ (b ∷ ys ≡ [])
  cons_nil e = cc

  pub none-some : {b : A} → ¬ (none ≡ some b)
  none-some e = cc

  pub some-none : {b : A} → ¬ (some b ≡ none)
  some-none e = cc

module _ {ℓ} {A : Type ℓ} (d : Discrete A) where
  abbrev cons_dec : {a b : A} {xs ys : List A} → Dec (a ≡ b) → Dec (xs ≡ ys) → Dec (a ∷ xs ≡ b ∷ ys)
  cons_dec (yes p) (yes q) = yes (λ i. p i ∷ q i)
  cons_dec (no n) _ = no (λ e. n (head_of e))
  cons_dec (yes p) (no n) = no (λ e. n (tail_of e))

  unfoldable pub List-discrete : Discrete (List A)
  List-discrete [] [] = yes refl
  List-discrete [] (y ∷ ys) = no nil_cons
  List-discrete (x ∷ xs) [] = no cons_nil
  List-discrete (x ∷ xs) (y ∷ ys) = cons_dec (d x y) (List-discrete xs ys)

  abbrev some_dec : {a b : A} → Dec (a ≡ b) → Dec (some a ≡ some b)
  some_dec (yes p) = yes (ap some p)
  some_dec (no n) = no (λ e. n (some_of e))

  unfoldable pub Option-discrete : Discrete (Option A)
  Option-discrete none none = yes refl
  Option-discrete none (some b) = no none-some
  Option-discrete (some a) none = no some-none
  Option-discrete (some a) (some b) = some_dec (d a b)

instance abbrev pub list_eq {ℓ} : {A : Type ℓ} ⦃e : PartialEq A⦄ → PartialEq (List A)
list_eq ⦃e⦄ = record { dec_eq = List-discrete e.dec_eq }

instance abbrev pub option_eq {ℓ} : {A : Type ℓ} ⦃e : PartialEq A⦄ → PartialEq (Option A)
option_eq ⦃e⦄ = record { dec_eq = Option-discrete e.dec_eq }

unfoldable pub Bool-discrete : Discrete Bool
Bool-discrete true true = yes refl
Bool-discrete true false = no (λ e. false≢true (sym e))
Bool-discrete false true = no false≢true
Bool-discrete false false = yes refl

instance abbrev pub bool_eq : PartialEq Bool
bool_eq = record { dec_eq = Bool-discrete }

-- `slice::contains`
module _ {ℓ} {A : Type ℓ} ⦃e : PartialEq A⦄ where
  unfoldable pub contains : List A → A → Bool
  contains [] a = false
  contains (x ∷ xs) a = elim (x ≟ a) [ yes _ ↦ true | no _ ↦ contains xs a ]

-- The test as a Boolean.
abbrev pub equals {ℓ} : {A : Type ℓ} ⦃e : PartialEq A⦄ (a b : A) → Bool
equals a b = elim (a ≟ b) [ yes _ ↦ true | no _ ↦ false ]
