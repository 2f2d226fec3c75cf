-- ===== src/Prelude/Results.antt =====
-- Rust's `Result<A, E>` with `?` as bind, and early returns as guards on decisions.
use mathlib.Core.Path.{◌≡◌, refl}
use mathlib.Core.Logic.{◌⊎◌, inl, inr}
use mathlib.Core.Option.{Option, none, some}

pub data Result {ℓ κ} (E : Type ℓ) (A : Type κ) : Type (ℓ ⊔ κ) where
  err : E → Result E A
  ok : A → Result E A

module _ {ℓ κ μ} {E : Type ℓ} {A : Type κ} {B : Type μ} where
  infixl 5 ◌>>=◌
  abbrev pub ◌>>=◌ : Result E A → (A → Result E B) → Result E B
  err failure >>= next = err failure
  ok value >>= next = next value

  pub >>=-eq-ok :
      (first : Result E A) (next : A → Result E B) {end : B}
      → (first >>= next) ≡ ok end
      → (value : A) × (first ≡ ok value) × (next value ≡ ok end)
  >>=-eq-ok (err failure) next h = cc
  >>=-eq-ok (ok value) next h = (value, refl, h)

module _ {ℓ κ} {E : Type ℓ} {A : Type κ} where
  infixl 5 ◌>>◌
  abbrev pub ◌>>◌ : Result E (Unit {0}) → Result E A → Result E A
  check >> rest = check >>= λ _. rest

  pub ok_of : {a b : A} → ◌≡◌ {A = Result E A} (ok a) (ok b) → a ≡ b
  ok_of h = cc

  pub err_ok : {e : E} {a : A} → ¬ (err e ≡ ok a)
  err_ok h = cc

  -- `Option::ok_or`
  abbrev pub ok_or : Option A → E → Result E A
  ok_or none e = err e
  ok_or (some a) e = ok a

  pub ok_or-eq-ok : (o : Option A) (e : E) {a : A} → ok_or o e ≡ ok a → o ≡ some a
  ok_or-eq-ok none e h = cc
  ok_or-eq-ok (some a) e h = cc

-- `Result::map_err`, which `?` applies where the error types differ.
module _ {ℓ κ μ} {E : Type ℓ} {F : Type κ} {A : Type μ} where
  abbrev pub map_err : (E → F) → Result E A → Result F A
  map_err f (ok a) = ok a
  map_err f (err e) = err (f e)

  pub map_err-eq-ok : (f : E → F) (m : Result E A) {a : A} → map_err f m ≡ ok a → m ≡ ok a
  map_err-eq-ok f (ok b) h = cc
  map_err-eq-ok f (err e) h = cc

module _ {ℓ κ} {E : Type ℓ} {P : Type κ} where
  -- `if !P { return Err(e) }` and `if P { return Err(e) }`
  abbrev pub ensure : Dec P → E → Result E (Unit {0})
  ensure (yes p) e = ok tt
  ensure (no n) e = err e

  abbrev pub reject : Dec P → E → Result E (Unit {0})
  reject (yes p) e = err e
  reject (no n) e = ok tt

  pub not_rejected : (d : Dec P) (e : E) → reject d e ≡ ok tt → ¬ P
  not_rejected (yes p) e h = cc
  not_rejected (no n) e h = n

  pub ensure-of : (d : Dec P) (e : E) → P → ensure d e ≡ ok tt
  ensure-of (yes _) e p = refl
  ensure-of (no n) e p = absurd (n p)

  pub reject-of : (d : Dec P) (e : E) → ¬ P → reject d e ≡ ok tt
  reject-of (yes p) e n = absurd (n p)
  reject-of (no _) e n = refl

  pub ensure-fails : (d : Dec P) (e : E) → ¬ P → ensure d e ≡ err e
  ensure-fails (yes p) e n = absurd (n p)
  ensure-fails (no _) e n = refl

  pub reject-fails : (d : Dec P) (e : E) → P → reject d e ≡ err e
  reject-fails (yes _) e p = refl
  reject-fails (no n) e p = absurd (n p)

module _ {ℓ κ μ} {E : Type ℓ} {P : Type κ} {A : Type μ} where
  -- A chain of guards that succeeds has passed the first one.
  pub passed :
      (d : Dec P) (e : E) {k : Result E A} {a : A} → (ensure d e >> k) ≡ ok a → P × (k ≡ ok a)
  passed (yes p) e h = (p, h)
  passed (no n) e h = cc

  pub avoided :
      (d : Dec P) (e : E) {k : Result E A} {a : A} → (reject d e >> k) ≡ ok a → ¬ P × (k ≡ ok a)
  avoided (yes p) e h = cc
  avoided (no n) e h = (n, h)

pub Result-cases {ℓ κ} :
    {E : Type ℓ} {A : Type κ} (m : Result E A) → ((e : E) × (m ≡ err e)) ⊎ ((a : A) × (m ≡ ok a))
Result-cases (err e) = inl (e, refl)
Result-cases (ok a) = inr (a, refl)
