-- ===== src/Resolver/Valid.antt =====
-- When `resolve_by_covenant` answers that a transition is valid.
use rgk.Prelude.{
  ℕ, ◌≡◌, ◌≢◌, ◌≤◌, ◌⊎◌, inl, inr, refl, sym, ap, ◌∙◌, false≢true, Option, none, some, none-some,
  some_of, Option-cases, List, last, Result, ok, ok_or, ok_or-eq-ok, ◌≟◌, nat_eq, list_eq, dec_le,
  arith,
}
use rgk.Core.Bytes.{Bytes32}
use rgk.Core.Chain.{KaspaChainId, chain_eq}
use rgk.Core.Types.{KaspaOutpoint}
use rgk.Indexer.Records.{SpendEntry, IndexedCovenant}
use rgk.Receipt.{structural, no_receipt_in_history, no_new_outpoint}
use rgk.Kaspa.{KaspaNetworkError, SpendingInfo, KaspaUtxo, KaspaChainBackend}
use rgk.Resolver.{
  Indexer, ValidTransition, native_transitioned_valid, native_transitioned_invalid, unknown, settle,
  depth_of, last_spend, check_network, fetch_spent, spent_error, fetch_open, judge_found,
  judge_open_spend, resolve_open, resolve_indexed, resolve_steps, resolve_by_covenant,
}
use rgk.Resolver.Settle.{
  is_valid, settle-bind, settle-passed, settle-avoided, ok_or-IsRejecting, fetch_spent-IsRejecting,
  fetch_open-IsRejecting, check_network-IsRejecting,
}
use rgk.Resolver.Sound.{IsDeep, IsConfirmed, judge-facts}

transition_of :
    {c d : Bytes32} {t u : ValidTransition}
    → native_transitioned_valid c t ≡ native_transitioned_valid d u
    → (c ≡ d) × (t ≡ u)
transition_of h = (cc, cc)

output_of :
    {u v : KaspaUtxo}
    → ◌≡◌ {A = Result KaspaNetworkError (Option KaspaUtxo)} (ok (some u)) (ok (some v))
    → u ≡ v
output_of h = cc

module _ (sha256 : List ℕ → Bytes32) (b : KaspaChainBackend) (i : Indexer) (chain : KaspaChainId)
    (safety : ℕ) (covenant : Bytes32) where
  -- The chain does not show the last indexed spend, and has a spend of the open outpoint, deep enough.
  pub record IsFallenThrough (e : IndexedCovenant) (o : KaspaOutpoint) (s : SpendEntry)
      (t : ValidTransition) : Type 0 where
    pub unseen :
        (u : KaspaUtxo) (sp : SpendingInfo)
        → b.get_utxo s.spent ≡ ok (some u)
        → ¬ (u.spending ≡ some sp)
    pub spending : SpendingInfo
    pub on_chain : IsDeep sha256 b i chain safety covenant o spending
    pub spends_open : t.spent_outpoint ≡ o
    pub created_open : i.open_outpoint covenant ≡ some t.new_outpoint
    pub same_receipt : t.receipt_id ≡ s.receipt_id
    pub same_state : i.latest_state covenant ≡ some t.new_state

  pub network-same :
      check_network sha256 b i chain safety covenant ≡ ok tt → b.network_id ≡ ok chain
  unfolding check_network
  network-same h = ground arith

  fetch_spent-some :
      (o : KaspaOutpoint) (u : KaspaUtxo)
      → fetch_spent sha256 b i chain safety covenant o ≡ ok (some u)
      → b.get_utxo o ≡ ok (some u)
  unfolding fetch_spent spent_error
  fetch_spent-some o u h = ground arith

  fetch_spent-none :
      (o : KaspaOutpoint) (u : KaspaUtxo)
      → fetch_spent sha256 b i chain safety covenant o ≡ ok none
      → ¬ (b.get_utxo o ≡ ok (some u))
  unfolding fetch_spent spent_error
  fetch_spent-none o u h g = ground arith

  fetch_open-some :
      (o : KaspaOutpoint) (u : KaspaUtxo)
      → fetch_open sha256 b i chain safety covenant o ≡ ok u
      → b.get_utxo o ≡ ok (some u)
  unfolding fetch_open
  fetch_open-some o u h = ground arith

  last_spend-some :
      (m : Option IndexedCovenant) (s : SpendEntry)
      → last_spend m ≡ some s
      → (e : IndexedCovenant) × (m ≡ some e) × (last e.spend_history ≡ some s)
  unfolding last_spend
  last_spend-some none s h = absurd (none-some h)
  last_spend-some (some e) s h = (e, refl, h)

  -- What a valid transition through step 4 rests on.
  record IsOpenSpent (o : KaspaOutpoint) (sp : SpendingInfo) (t : ValidTransition) : Type 0 where
    some_depth : depth_of b sp.txid ≢ 0
    deep : safety ≤ depth_of b sp.txid
    spends_open : t.spent_outpoint ≡ o
    created_open : i.open_outpoint covenant ≡ some t.new_outpoint
    same_state : i.latest_state covenant ≡ some t.new_state
    recorded : SpendEntry
    is_last : last_spend (i.lookup covenant) ≡ some recorded
    same_receipt : t.receipt_id ≡ recorded.receipt_id

  open_spend-facts :
      (o : KaspaOutpoint) (sp : SpendingInfo) (t : ValidTransition) (c : Bytes32)
      → settle (judge_open_spend sha256 b i chain safety covenant o sp)
        ≡ native_transitioned_valid c t
      → (covenant ≡ c) × IsOpenSpent o sp t
  unfolding judge_open_spend is_valid settle
  open_spend-facts o sp t c h =
      let (n, h1) = settle-avoided (depth_of b sp.txid ≟ 0) _ _ refl refl h in
      let (d, h2) = settle-passed (dec_le safety (depth_of b sp.txid)) _ _ refl refl h1 in
      let (latest, p, h3) =
        settle-bind (ok_or (i.latest_state covenant) (unknown covenant)) _
          (ok_or-IsRejecting _ _ refl) refl h2 in
      let (s, q, h4) =
        settle-bind
          (ok_or (last_spend (i.lookup covenant))
            (native_transitioned_invalid covenant (structural no_receipt_in_history)))
          _ (ok_or-IsRejecting _ _ refl) refl h3 in
      let (out, r, h5) =
        settle-bind
          (ok_or (i.open_outpoint covenant)
            (native_transitioned_invalid covenant (structural no_new_outpoint)))
          _ (ok_or-IsRejecting _ _ refl) refl h4 in
      let (same, answer) = transition_of h5 in
      (
        same,
        record {
          some_depth = n;
          deep = d;
          spends_open = ap (λ x. x.spent_outpoint) (sym answer);
          created_open = ok_or-eq-ok _ _ r ∙ ap (λ x. some x.new_outpoint) answer;
          same_state = ok_or-eq-ok _ _ p ∙ ap (λ x. some x.new_state) answer;
          recorded = s;
          is_last = ok_or-eq-ok _ _ q;
          same_receipt = ap (λ x. x.receipt_id) (sym answer);
        },
      )

  open-facts :
      (e : IndexedCovenant) (o : KaspaOutpoint) (t : ValidTransition) (c : Bytes32)
      → settle (resolve_open sha256 b i chain safety covenant e o) ≡ native_transitioned_valid c t
      → (covenant ≡ c)
        × (u : KaspaUtxo) × (sp : SpendingInfo) × (b.get_utxo o ≡ ok (some u))
        × (u.spending ≡ some sp)
        × IsOpenSpent o sp t
  unfolding resolve_open is_valid settle
  open-facts e o t c h =
      let (u, f, h1) =
        settle-bind (fetch_open sha256 b i chain safety covenant o) _
          (fetch_open-IsRejecting sha256 b i chain safety covenant o) refl h in
      elim (Option-cases u.spending) [
        | inl q ↦ absurd (false≢true (ap is_valid (rw q at h1)))
        | inr (sp, q) ↦
            let (same, facts) = open_spend-facts o sp t c (rw q at h1) in
            (same, u, sp, fetch_open-some o u f, q, facts)
      ]

  -- A transition that step 4 answers is the last one of the entry.
  recorded-last :
      (e : IndexedCovenant) (o : KaspaOutpoint) (sp : SpendingInfo) (t : ValidTransition)
      → i.lookup covenant ≡ some e
      → (f : IsOpenSpent o sp t) → last e.spend_history ≡ some f.recorded
  unfolding last_spend
  recorded-last e o sp t l f = ap last_spend (sym l) ∙ f.is_last

  fall-through :
      (e : IndexedCovenant) (o : KaspaOutpoint) (s : SpendEntry) (t : ValidTransition) (c : Bytes32)
      → i.lookup covenant ≡ some e
      → last e.spend_history ≡ some s
      → ((u : KaspaUtxo) (sp : SpendingInfo)
          → b.get_utxo s.spent ≡ ok (some u)
          → ¬ (u.spending ≡ some sp))
      → settle (resolve_open sha256 b i chain safety covenant e o) ≡ native_transitioned_valid c t
      → (covenant ≡ c) × IsFallenThrough e o s t
  fall-through e o s t c l q unseen h =
      let (same, u, sp, seen, spent, f) = open-facts e o t c h in
      let who : s ≡ f.recorded = some_of (sym q ∙ recorded-last e o sp t l f) in
      (
        same,
        record {
          unseen = unseen;
          spending = sp;
          on_chain = record {
            output = u;
            seen = seen;
            spent = spent;
            some_depth = f.some_depth;
            deep = f.deep;
          };
          spends_open = f.spends_open;
          created_open = f.created_open;
          same_receipt = f.same_receipt ∙ ap (λ x. x.receipt_id) (sym who);
          same_state = f.same_state;
        },
      )

  -- The two ways to a valid transition.
  judged :
      (e : IndexedCovenant) (o : KaspaOutpoint) (s : SpendEntry) (t : ValidTransition) (c : Bytes32)
      → i.lookup covenant ≡ some e
      → last e.spend_history ≡ some s
      → (found : Option KaspaUtxo) → fetch_spent sha256 b i chain safety covenant s.spent ≡ ok found
      → settle (judge_found sha256 b i chain safety covenant e o s found)
        ≡ native_transitioned_valid c t
      → (covenant ≡ c)
        × (IsConfirmed sha256 b i chain safety covenant e s t ⊎ IsFallenThrough e o s t)
  unfolding judge_found is_valid settle
  judged e o s t c l q none f h =
      let (same, fallen) =
        fall-through e o s t c l q (λ u sp g _. fetch_spent-none s.spent u f g) h in
      (same, inr fallen)
  judged e o s t c l q (some u) f h =
      let seen = fetch_spent-some s.spent u f in
      elim (Option-cases u.spending) [
        | inl k ↦
            let (same, fallen) =
              fall-through e o s t c l q
                (λ v sp g r.
                  none-some (sym k ∙ ap (λ x. x.spending) (output_of (sym seen ∙ g)) ∙ r))
                (rw k at h) in
            (same, inr fallen)
        | inr (sp, k) ↦
            let (n, d, p, a, answer) =
              judge-facts sha256 b i chain safety covenant e s sp refl (rw k at h) in
            let (same, eq) = transition_of answer in
            (
              same,
              inl record {
                spending = sp;
                on_chain = record { output = u; seen = seen; spent = k; some_depth = n; deep = d };
                continued = p;
                policy = a;
                answer = sym eq;
              },
            )
      ]

  found-facts :
      (e : IndexedCovenant) (o : KaspaOutpoint) (s : SpendEntry) (t : ValidTransition) (c : Bytes32)
      → i.lookup covenant ≡ some e
      → last e.spend_history ≡ some s
      → settle (resolve_indexed sha256 b i chain safety covenant e o (some s))
        ≡ native_transitioned_valid c t
      → (covenant ≡ c)
        × (IsConfirmed sha256 b i chain safety covenant e s t ⊎ IsFallenThrough e o s t)
  unfolding resolve_indexed is_valid settle
  found-facts e o s t c l q h =
      let (found, f, h1) =
        settle-bind (fetch_spent sha256 b i chain safety covenant s.spent) _
          (fetch_spent-IsRejecting sha256 b i chain safety covenant s.spent) refl h in
      judged e o s t c l q found f h1

  indexed-facts :
      (e : IndexedCovenant) (o : KaspaOutpoint) (m : Option SpendEntry) (t : ValidTransition)
      (c : Bytes32)
      → i.lookup covenant ≡ some e
      → last e.spend_history ≡ m
      → settle (resolve_indexed sha256 b i chain safety covenant e o m)
        ≡ native_transitioned_valid c t
      → (covenant ≡ c)
        × (s : SpendEntry) × (last e.spend_history ≡ some s)
        × (IsConfirmed sha256 b i chain safety covenant e s t ⊎ IsFallenThrough e o s t)
  unfolding resolve_indexed
  indexed-facts e o none t c l q h =
      let (_, u, sp, _, _, f) = open-facts e o t c h in
      absurd (none-some (sym q ∙ recorded-last e o sp t l f))
  indexed-facts e o (some s) t c l q h =
      let (same, facts) = found-facts e o s t c l q h in (same, s, q, facts)

-- A valid transition is answered only on the verifier's chain, for the covenant asked for, which is indexed with
-- an open outpoint and at least one spend; and either the last indexed spend is on the chain at the safety depth
-- or deeper, in the transaction that created its output, with a complete continuation proof, and with the policy
-- kept and no migration proof or changed with a valid one; or the chain does not show that spend, and a spend of
-- the open outpoint is at that depth.
pub resolve_valid_rests :
    (sha256 : List ℕ → Bytes32) (b : KaspaChainBackend) (i : Indexer) (chain : KaspaChainId)
    (safety : ℕ) (covenant c : Bytes32) (t : ValidTransition)
    → resolve_by_covenant sha256 b i chain safety covenant ≡ native_transitioned_valid c t
    → (covenant ≡ c)
      × (b.network_id ≡ ok chain)
      × (e : IndexedCovenant) × (o : KaspaOutpoint) × (s : SpendEntry) × (i.lookup covenant
          ≡ some e)
      × (e.open_outpoint ≡ some o)
      × (last e.spend_history ≡ some s)
      × (IsConfirmed sha256 b i chain safety covenant e s t
          ⊎ IsFallenThrough sha256 b i chain safety covenant e o s t)
unfolding resolve_by_covenant resolve_steps is_valid settle
resolve_valid_rests sha256 b i chain safety covenant c t h =
    let (_, n, h1) =
      settle-bind (check_network sha256 b i chain safety covenant) _
        (check_network-IsRejecting sha256 b i chain safety covenant) refl h in
    let (e, l, h2) =
      settle-bind (ok_or (i.lookup covenant) (unknown covenant)) _ (ok_or-IsRejecting _ _ refl) refl
        h1 in
    let (o, p, h3) =
      settle-bind (ok_or e.open_outpoint (unknown covenant)) _ (ok_or-IsRejecting _ _ refl) refl
        h2 in
    let (same, s, q, facts) =
      indexed-facts sha256 b i chain safety covenant e o (last e.spend_history) t c
        (ok_or-eq-ok _ _ l) refl h3 in
    (
      same,
      network-same sha256 b i chain safety covenant n,
      e,
      o,
      s,
      ok_or-eq-ok _ _ l,
      ok_or-eq-ok _ _ p,
      q,
      facts,
    )
