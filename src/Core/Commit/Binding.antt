-- ===== src/Core/Commit/Binding.antt =====
-- What a commitment binds: equal commitments come from equal contents, or else two inputs of SHA-256
-- with one digest are at hand.
pub mod Bodies
use rgk.Prelude.{
  ℕ, ◌+◌, ◌≤◌, ◌<◌, ◌%◌, ◌^◌, ◌≡◌, ◌≢◌, refl, sym, ap, ◌∙◌, ◌⊎◌, inl, inr, List, [], ◌∷◌, ◌++◌,
  length, append_inj, length-append, ◌≟◌, list_eq, nat_eq, arith,
}
use rgk.Core.Bytes.{Bytes32, IsBytes}
use rgk.Core.Encoding.{to_le}
use rgk.Core.Encoding.Widths.{length-to_le, to_le-injective}
use rgk.Core.Commit.{DomainTag, ascii, tagged_preimage, domain_hash_str, domain_hash}
use rgk.Core.Commit.Domains.{ascii-injective, length-ascii-le}

-- A byte text behind its length in 32 bits can be told from what follows it.
pub prefixed-injective :
    (d e p q : List ℕ)
    → length d < 2 ^ 32
    → length e < 2 ^ 32
    → to_le 4 (length d % 2 ^ 32) ++ (d ++ p) ≡ to_le 4 (length e % 2 ^ 32) ++ (e ++ q)
    → (d ≡ e) × (p ≡ q)
prefixed-injective d e p q hd he h =
    let (front, back) =
      append_inj (to_le 4 (length d % 2 ^ 32)) (to_le 4 (length e % 2 ^ 32)) (d ++ p) (e ++ q)
        (rw (length-to_le, length-to_le)) h in
    let wide =
      to_le-injective 4 (length d % 2 ^ 32) (length e % 2 ^ 32) (omega arith) (omega arith) front in
    append_inj d e p q (omega arith) back

-- Two different inputs with one digest.
abbrev pub Collision : (List ℕ → Bytes32) → Type 0
Collision sha256 = (x : List ℕ) × (y : List ℕ) × (x ≢ y) × (sha256 x ≡ sha256 y)

module _ (sha256 : List ℕ → Bytes32) where
  pub same_input : (x y : List ℕ) → sha256 x ≡ sha256 y → (x ≡ y) ⊎ Collision sha256
  same_input x y h = elim (x ≟ y) [ yes e ↦ inl e | no n ↦ inr (x, y, n, h) ]

  pub domain_hash_str_binding :
      (d e p q : List ℕ)
      → length d < 2 ^ 32
      → length e < 2 ^ 32
      → domain_hash_str sha256 d p ≡ domain_hash_str sha256 e q
      → ((d ≡ e) × (p ≡ q)) ⊎ Collision sha256
  unfolding domain_hash_str tagged_preimage
  domain_hash_str_binding d e p q hd he h = elim (same_input _ _ h) [
    | inl same ↦ inl (prefixed-injective d e p q hd he same)
    | inr c ↦ inr c
  ]

  -- Equal domain hashes come from the same tag and the same payload, unless SHA-256 collides: no
  -- commitment made for one purpose passes for one made for another.
  pub domain_hash_binding :
      (t u : DomainTag) (p q : List ℕ)
      → domain_hash sha256 t p ≡ domain_hash sha256 u q
      → ((t ≡ u) × (p ≡ q)) ⊎ Collision sha256
  unfolding domain_hash
  domain_hash_binding t u p q h =
      elim (domain_hash_str_binding (ascii t) (ascii u) p q (omega (arith, length-ascii-le t))
        (omega (arith, length-ascii-le u)) h) [
          | inl (same, payload) ↦ inl (ascii-injective t u same, payload)
          | inr c ↦ inr c
        ]
