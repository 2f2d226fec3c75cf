-- ===== src/Resolver/Settle.antt =====
-- The steps of the resolver return early only with states that are not `NativeTransitionedValid`.
use rgk.Prelude.{
  ℕ, ◌≡◌, refl, sym, ap, ◌∙◌, Bool, true, false, false≢true, Option, none, some, Result, ok, err,
  map_err, ensure, reject, ok_or, ◌>>=◌, ◌>>◌, arith, List,
}
use rgk.Core.Bytes.{Bytes32}
use rgk.Core.Policy.{policy_eq}
use rgk.Core.Types.{KaspaOutpoint, RgkStateCommitment}
use rgk.Core.Chain.{KaspaChainId, chain_eq}
use rgk.Indexer.Records.{SpendEntry}
use rgk.Kaspa.{KaspaChainBackend}
use rgk.Resolver.{
  Indexer, ResolverState, native_transitioned_valid, settle, check_network, spent_error,
  fetch_spent, open_error, fetch_open, check_policy,
}

unfoldable pub is_valid : ResolverState → Bool
is_valid (native_transitioned_valid _ _) = true
is_valid _ = false

-- An early return, if it is one, is no valid transition.
abbrev pub IsRejecting {ℓ} : {A : Type ℓ} → Result ResolverState A → Type 0
IsRejecting (ok a) = Unit {0}
IsRejecting (err s) = is_valid s ≡ false

module _ {ℓ} {A : Type ℓ} where
  IsRejecting-of :
      (m : Result ResolverState A)
      → ((s : ResolverState) → m ≡ err s → is_valid s ≡ false)
      → IsRejecting m
  IsRejecting-of (ok a) h = tt
  IsRejecting-of (err s) h = h s refl

  pub settle-bind :
      (m : Result ResolverState A) (f : A → Result ResolverState ResolverState) {s : ResolverState}
      → IsRejecting m
      → is_valid s ≡ true
      → settle (m >>= f) ≡ s
      → (a : A) × (m ≡ ok a) × (settle (f a) ≡ s)
  unfolding settle
  settle-bind (ok a) f r v h = (a, refl, h)
  settle-bind (err e) f r v h = absurd (false≢true (sym r ∙ ap is_valid h ∙ v))

  pub ok_or-IsRejecting :
      (o : Option A) (s : ResolverState) → is_valid s ≡ false → IsRejecting (ok_or o s)
  ok_or-IsRejecting none s h = h
  ok_or-IsRejecting (some a) s h = tt

  pub map_err-IsRejecting {κ} :
      {F : Type κ} (f : F → ResolverState) (m : Result F A)
      → ((x : F) → is_valid (f x) ≡ false)
      → IsRejecting (map_err f m)
  map_err-IsRejecting f (ok a) h = tt
  map_err-IsRejecting f (err x) h = h x

module _ {ℓ} {P : Type ℓ} where
  pub settle-passed :
      (d : Dec P) (e : ResolverState) (k : Result ResolverState ResolverState) {s : ResolverState}
      → is_valid e ≡ false
      → is_valid s ≡ true
      → settle (ensure d e >> k) ≡ s
      → P × (settle k ≡ s)
  unfolding settle
  settle-passed (yes p) e k r v h = (p, h)
  settle-passed (no n) e k r v h = absurd (false≢true (sym r ∙ ap is_valid h ∙ v))

  pub settle-avoided :
      (d : Dec P) (e : ResolverState) (k : Result ResolverState ResolverState) {s : ResolverState}
      → is_valid e ≡ false
      → is_valid s ≡ true
      → settle (reject d e >> k) ≡ s
      → ¬ P × (settle k ≡ s)
  unfolding settle
  settle-avoided (yes p) e k r v h = absurd (false≢true (sym r ∙ ap is_valid h ∙ v))
  settle-avoided (no n) e k r v h = (n, h)

module _ (sha256 : List ℕ → Bytes32) (b : KaspaChainBackend) (i : Indexer) (chain : KaspaChainId)
    (safety : ℕ) (covenant : Bytes32) where
  check_policy-rejects :
      (s : SpendEntry) (latest : RgkStateCommitment) (r : ResolverState)
      → check_policy sha256 b i chain safety covenant s latest ≡ err r
      → is_valid r ≡ false
  unfolding check_policy is_valid
  check_policy-rejects s latest r h = ground arith

  fetch_spent-rejects :
      (o : KaspaOutpoint) (r : ResolverState)
      → fetch_spent sha256 b i chain safety covenant o ≡ err r
      → is_valid r ≡ false
  unfolding fetch_spent spent_error is_valid
  fetch_spent-rejects o r h = ground arith

  fetch_open-rejects :
      (o : KaspaOutpoint) (r : ResolverState)
      → fetch_open sha256 b i chain safety covenant o ≡ err r
      → is_valid r ≡ false
  unfolding fetch_open open_error is_valid
  fetch_open-rejects o r h = ground arith

  check_network-rejects :
      (r : ResolverState)
      → check_network sha256 b i chain safety covenant ≡ err r
      → is_valid r ≡ false
  unfolding check_network is_valid
  check_network-rejects r h = ground arith

  pub check_policy-IsRejecting :
      (s : SpendEntry) (latest : RgkStateCommitment)
      → IsRejecting (check_policy sha256 b i chain safety covenant s latest)
  check_policy-IsRejecting s latest =
      IsRejecting-of (check_policy sha256 b i chain safety covenant s latest)
        (check_policy-rejects s latest)

  pub fetch_spent-IsRejecting :
      (o : KaspaOutpoint) → IsRejecting (fetch_spent sha256 b i chain safety covenant o)
  fetch_spent-IsRejecting o =
      IsRejecting-of (fetch_spent sha256 b i chain safety covenant o) (fetch_spent-rejects o)

  pub fetch_open-IsRejecting :
      (o : KaspaOutpoint) → IsRejecting (fetch_open sha256 b i chain safety covenant o)
  fetch_open-IsRejecting o =
      IsRejecting-of (fetch_open sha256 b i chain safety covenant o) (fetch_open-rejects o)

  pub check_network-IsRejecting : IsRejecting (check_network sha256 b i chain safety covenant)
  check_network-IsRejecting =
      IsRejecting-of (check_network sha256 b i chain safety covenant) check_network-rejects
