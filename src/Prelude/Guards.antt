-- ===== src/Prelude/Guards.antt =====
-- When a chain of checks succeeds: each lemma peels one step off and adds what it asks for.
use mathlib.Core.Path.{◌≡◌, refl, ap, sym, ◌∙◌}
use mathlib.Core.Logic.{◌↔◌}
use rgk.Prelude.Results.{
  Result, ok, ◌>>=◌, ◌>>◌, ensure, reject, passed, avoided, ensure-of, reject-of, >>=-eq-ok, ok_of,
}

module _ {ℓ κ μ ν} {E : Type ℓ} {P : Type κ} {A : Type μ} {Q : Type ν} where
  pub ensured :
      (d : Dec P) (e : E) {k : Result E A} {a : A}
      → (k ≡ ok a) ↔ Q
      → ((ensure d e >> k) ≡ ok a) ↔ (P × Q)
  ensured d e {k} {a} rest = (
    λ h. let (p, q) = passed d e h in (p, rest.0 q),
    λ (p, q). ap (λ g. g >> k) (ensure-of d e p) ∙ rest.1 q,
  )

  pub rejected :
      (d : Dec P) (e : E) {k : Result E A} {a : A}
      → (k ≡ ok a) ↔ Q
      → ((reject d e >> k) ≡ ok a) ↔ (¬ P × Q)
  rejected d e {k} {a} rest = (
    λ h. let (n, q) = avoided d e h in (n, rest.0 q),
    λ (n, q). ap (λ g. g >> k) (reject-of d e n) ∙ rest.1 q,
  )

  -- A step that is itself a check.
  pub checked :
      (m : Result E (Unit {0})) {k : Result E A} {a : A}
      → (m ≡ ok tt) ↔ P
      → (k ≡ ok a) ↔ Q
      → ((m >> k) ≡ ok a) ↔ (P × Q)
  checked m {k} first rest = (
    λ h. let (t, p, q) = >>=-eq-ok m (λ _. k) h in (first.0 p, rest.0 q),
    λ (p, q). ap (λ g. g >> k) (first.1 p) ∙ rest.1 q,
  )

module _ {ℓ κ μ ν ξ} {E : Type ℓ} {P : Type κ} {A : Type μ} {Q : Type ν} {B : Type ξ} where
  -- A step whose value the rest uses.
  pub valued :
      (m : Result E B) (k : B → Result E A) (v : B) {a : A}
      → ((b : B) → (m ≡ ok b) ↔ (P × (b ≡ v)))
      → (k v ≡ ok a) ↔ Q
      → ((m >>= k) ≡ ok a) ↔ (P × Q)
  valued m k v first rest = (
    λ h.
        let (b, p, q) = >>=-eq-ok m k h in
        let (fine, same) = (first b).0 p in (fine, rest.0 (ap k (sym same) ∙ q)),
    λ (p, q). ap (λ g. g >>= k) ((first v).1 (p, refl)) ∙ rest.1 q,
  )

module _ {ℓ κ} {E : Type ℓ} {A : Type κ} where
  -- The last step.
  pub returned : {v : A} (a : A) → (◌≡◌ {A = Result E A} (ok v) (ok a)) ↔ (a ≡ v)
  returned a = (λ h. sym (ok_of h), λ h. ap ok (sym h))

module _ {ℓ κ} {E : Type ℓ} {P : Type κ} where
  pub ensured_last : (d : Dec P) (e : E) → (ensure d e ≡ ok tt) ↔ P
  ensured_last (yes p) e = (λ _. p, λ _. refl)
  ensured_last (no n) e = (λ h. cc, λ p. absurd (n p))

  pub rejected_last : (d : Dec P) (e : E) → (reject d e ≡ ok tt) ↔ (¬ P)
  rejected_last (yes p) e = (λ h. cc, λ n. absurd (n p))
  rejected_last (no n) e = (λ _. n, λ _. refl)
