-- ===== src/Resolver/Names.antt =====
-- Every answer of `resolve_by_covenant` is about the covenant that was asked for.
use rgk.Prelude.{
  ℕ, ◌≡◌, refl, Option, none, some, List, last, Result, ok, err, map_err, ensure, reject, ok_or,
  ◌>>=◌, ◌≟◌, nat_eq, list_eq, dec_le, arith,
}
use rgk.Core.Bytes.{Bytes32}
use rgk.Core.Chain.{KaspaChainId}
use rgk.Core.Types.{KaspaOutpoint, RgkStateCommitment}
use rgk.Indexer.Records.{SpendEntry, IndexedCovenant}
use rgk.Kaspa.{KaspaChainBackend, KaspaUtxo, SpendingInfo}
use rgk.Resolver.{
  Indexer, ResolverState, still_open, native_transitioned_invalid, unknown, covenant_of, settle,
  depth_of, last_spend, validate_indexed_continuation, check_network, spent_error, fetch_spent,
  open_error, fetch_open, check_policy, judge_spend, judge_open_spend, resolve_open, judge_found,
  resolve_indexed, resolve_steps, resolve_by_covenant,
}

-- A result that settles at once, if it does, is about the covenant.
abbrev IsAbout {ℓ} : {A : Type ℓ} → Bytes32 → Result ResolverState A → Type 0
IsAbout c (ok a) = Unit {0}
IsAbout c (err s) = covenant_of s ≡ c

module _ {ℓ} {A : Type ℓ} (c : Bytes32) where
  IsAbout-bind :
      (m : Result ResolverState A) (f : A → Result ResolverState ResolverState)
      → IsAbout c m
      → ((a : A) → covenant_of (settle (f a)) ≡ c)
      → covenant_of (settle (m >>= f)) ≡ c
  unfolding settle
  IsAbout-bind (ok a) f h k = k a
  IsAbout-bind (err s) f h k = h

  IsAbout-of :
      (m : Result ResolverState A)
      → ((s : ResolverState) → m ≡ err s → covenant_of s ≡ c)
      → IsAbout c m
  IsAbout-of (ok a) h = tt
  IsAbout-of (err s) h = h s refl

  IsAbout-ok_or : (o : Option A) (s : ResolverState) → covenant_of s ≡ c → IsAbout c (ok_or o s)
  IsAbout-ok_or none s h = h
  IsAbout-ok_or (some a) s h = tt

module _ {ℓ} {P : Type ℓ} (c : Bytes32) where
  IsAbout-ensure : (d : Dec P) (s : ResolverState) → covenant_of s ≡ c → IsAbout c (ensure d s)
  IsAbout-ensure (yes p) s h = tt
  IsAbout-ensure (no n) s h = h

  IsAbout-reject : (d : Dec P) (s : ResolverState) → covenant_of s ≡ c → IsAbout c (reject d s)
  IsAbout-reject (yes p) s h = h
  IsAbout-reject (no n) s h = tt

module _ (sha256 : List ℕ → Bytes32) (b : KaspaChainBackend) (i : Indexer) (chain : KaspaChainId)
    (safety : ℕ) (c : Bytes32) where
  network-about :
      (s : ResolverState) → check_network sha256 b i chain safety c ≡ err s → covenant_of s ≡ c
  unfolding check_network covenant_of
  network-about s h = ground arith

  spent-about :
      (o : KaspaOutpoint) (s : ResolverState)
      → fetch_spent sha256 b i chain safety c o ≡ err s
      → covenant_of s ≡ c
  unfolding fetch_spent spent_error covenant_of
  spent-about o s h = ground arith

  open-about :
      (o : KaspaOutpoint) (s : ResolverState)
      → fetch_open sha256 b i chain safety c o ≡ err s
      → covenant_of s ≡ c
  unfolding fetch_open open_error covenant_of
  open-about o s h = ground arith

  policy-about :
      (x : SpendEntry) (latest : RgkStateCommitment) (s : ResolverState)
      → check_policy sha256 b i chain safety c x latest ≡ err s
      → covenant_of s ≡ c
  unfolding check_policy covenant_of
  policy-about x latest s h = ground arith

  continuation-about :
      (x : SpendEntry) (txid : Bytes32) (s : ResolverState)
      → map_err (native_transitioned_invalid c) (validate_indexed_continuation x txid) ≡ err s
      → covenant_of s ≡ c
  unfolding covenant_of
  continuation-about x txid s h = ground arith

  judge-about :
      (e : IndexedCovenant) (x : SpendEntry) (sp : SpendingInfo)
      → covenant_of (settle (judge_spend sha256 b i chain safety c e x sp)) ≡ c
  unfolding judge_spend covenant_of settle
  judge-about e x sp = IsAbout-bind c _ _ (IsAbout-reject c (depth_of b sp.txid ≟ 0) _ refl) λ _.
      IsAbout-bind c _ _ (IsAbout-ensure c (dec_le safety (depth_of b sp.txid)) _ refl) λ _.
        IsAbout-bind c _ _ (IsAbout-ensure c (x.created.transaction_id ≟ sp.txid) _ refl) λ _.
          IsAbout-bind c _ _ (IsAbout-of c _ (continuation-about x sp.txid))
            λ _. IsAbout-bind c _ _ (IsAbout-of c _ (policy-about x e.latest_state)) λ _. refl

  open_spend-about :
      (o : KaspaOutpoint) (sp : SpendingInfo)
      → covenant_of (settle (judge_open_spend sha256 b i chain safety c o sp)) ≡ c
  unfolding judge_open_spend covenant_of settle
  open_spend-about o sp = IsAbout-bind c _ _ (IsAbout-reject c (depth_of b sp.txid ≟ 0) _ refl) λ _.
      IsAbout-bind c _ _ (IsAbout-ensure c (dec_le safety (depth_of b sp.txid)) _ refl) λ _.
        IsAbout-bind c _ _ (IsAbout-ok_or c (i.latest_state c) _ refl) λ _.
          IsAbout-bind c _ _ (IsAbout-ok_or c (last_spend (i.lookup c)) _ refl)
            λ _. IsAbout-bind c _ _ (IsAbout-ok_or c (i.open_outpoint c) _ refl) λ _. refl

  unspent-about :
      (e : IndexedCovenant) (o : KaspaOutpoint) (m : Option SpendingInfo)
      → covenant_of (
          settle (elim m [
            | none ↦ ok (still_open c o e.latest_state)
            | some sp ↦ judge_open_spend sha256 b i chain safety c o sp
          ]))
        ≡ c
  unfolding covenant_of settle
  unspent-about e o none = refl
  unspent-about e o (some sp) = open_spend-about o sp

  resolve_open-about :
      (e : IndexedCovenant) (o : KaspaOutpoint)
      → covenant_of (settle (resolve_open sha256 b i chain safety c e o)) ≡ c
  unfolding resolve_open
  resolve_open-about e o =
      IsAbout-bind c _ _ (IsAbout-of c _ (open-about o)) λ u. unspent-about e o u.spending

  spending-about :
      (e : IndexedCovenant) (o : KaspaOutpoint) (x : SpendEntry) (m : Option SpendingInfo)
      → covenant_of (
          settle (elim m [
            | none ↦ resolve_open sha256 b i chain safety c e o
            | some sp ↦ judge_spend sha256 b i chain safety c e x sp
          ]))
        ≡ c
  spending-about e o x none = resolve_open-about e o
  spending-about e o x (some sp) = judge-about e x sp

  found-about :
      (e : IndexedCovenant) (o : KaspaOutpoint) (x : SpendEntry) (found : Option KaspaUtxo)
      → covenant_of (settle (judge_found sha256 b i chain safety c e o x found)) ≡ c
  unfolding judge_found
  found-about e o x none = resolve_open-about e o
  found-about e o x (some u) = spending-about e o x u.spending

  indexed-about :
      (e : IndexedCovenant) (o : KaspaOutpoint) (m : Option SpendEntry)
      → covenant_of (settle (resolve_indexed sha256 b i chain safety c e o m)) ≡ c
  unfolding resolve_indexed
  indexed-about e o none = resolve_open-about e o
  indexed-about e o (some x) =
      IsAbout-bind c _ _ (IsAbout-of c _ (spent-about x.spent)) (found-about e o x)

-- Whatever the node and the indexer answer, the state that `resolve_by_covenant` returns, on every branch, names the
-- covenant that was asked for.
pub resolve_names_covenant :
    (sha256 : List ℕ → Bytes32) (b : KaspaChainBackend) (i : Indexer) (chain : KaspaChainId)
    (safety : ℕ) (c : Bytes32)
    → covenant_of (resolve_by_covenant sha256 b i chain safety c) ≡ c
unfolding resolve_by_covenant resolve_steps covenant_of
resolve_names_covenant sha256 b i chain safety c =
    IsAbout-bind c _ _ (IsAbout-of c _ (network-about sha256 b i chain safety c)) λ _.
      IsAbout-bind c _ _ (IsAbout-ok_or c (i.lookup c) (unknown c) refl) λ e.
        IsAbout-bind c _ _ (IsAbout-ok_or c e.open_outpoint (unknown c) refl)
          λ o. indexed-about sha256 b i chain safety c e o (last e.spend_history)
