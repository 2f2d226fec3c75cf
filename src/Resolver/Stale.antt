-- ===== src/Resolver/Stale.antt =====
-- The fall-through of `resolve_by_covenant` from step 2 to step 4.
use rgk.Prelude.{
  ℕ, ◌≡◌, ◌≢◌, ◌≤◌, refl, ◌∙◌, none, some, List, last, ok, ensure-of, reject-of, ◌≟◌, nat_eq,
  dec_le, arith,
}
use rgk.Core.Bytes.{Bytes32}
use rgk.Core.Chain.{KaspaChainId, chain_eq}
use rgk.Core.Types.{KaspaOutpoint}
use rgk.Indexer.Records.{SpendEntry, IndexedCovenant}
use rgk.Indexer.Memory.{InMemoryIndexer, lookup, latest_state, open_outpoint}
use rgk.Kaspa.{SpendingInfo, KaspaUtxo, KaspaChainBackend}
use rgk.Resolver.{
  Indexer, native_transitioned_valid, settle, depth_of, check_network, fetch_spent, fetch_open,
  judge_found, judge_open_spend, last_spend, resolve_open, resolve_indexed, resolve_steps,
  resolve_by_covenant,
}
use rgk.Resolver.Accept.{in_memory}

module _ (sha256 : List ℕ → Bytes32) (b : KaspaChainBackend) (i : Indexer) (chain : KaspaChainId)
    (safety : ℕ) (covenant : Bytes32) where
  network-passes : b.network_id ≡ ok chain → check_network sha256 b i chain safety covenant ≡ ok tt
  unfolding check_network
  network-passes h = rw h (ensure-of (chain ≟ chain) _ refl)

  spent-absent :
      (o : KaspaOutpoint)
      → b.get_utxo o ≡ ok none
      → fetch_spent sha256 b i chain safety covenant o ≡ ok none
  unfolding fetch_spent
  spent-absent o h = ground arith

  open-present :
      (o : KaspaOutpoint) (u : KaspaUtxo)
      → b.get_utxo o ≡ ok (some u)
      → fetch_open sha256 b i chain safety covenant o ≡ ok u
  unfolding fetch_open
  open-present o u h = ground arith

  -- A spend of the open outpoint that is deep enough is answered as valid with what the indexer holds.
  open_spend-valid :
      (e : IndexedCovenant) (o : KaspaOutpoint) (s : SpendEntry) (u : KaspaUtxo) (sp : SpendingInfo)
      → i.lookup covenant ≡ some e
      → i.latest_state covenant ≡ some e.latest_state
      → i.open_outpoint covenant ≡ some o
      → last e.spend_history ≡ some s
      → b.get_utxo o ≡ ok (some u)
      → u.spending ≡ some sp
      → depth_of b sp.txid ≢ 0
      → safety ≤ depth_of b sp.txid
      → resolve_open sha256 b i chain safety covenant e o
        ≡ ok (
            native_transitioned_valid covenant (record {
              spent_outpoint = o;
              new_outpoint = o;
              receipt_id = s.receipt_id;
              new_state = e.latest_state;
              allocation_audit_certificate = s.allocation_audit_certificate;
              confirmation_depth = depth_of b sp.txid;
            }))
  unfolding resolve_open judge_open_spend last_spend
  open_spend-valid e o s u sp l k p q g w n d = rw (
    open-present o u g,
    w,
    reject-of (depth_of b sp.txid ≟ 0) _ n,
    ensure-of (dec_le safety (depth_of b sp.txid)) _ d,
    k,
    l,
    q,
    p,
  )

in_memory-lookups :
    (s : InMemoryIndexer) (c : Bytes32) (e : IndexedCovenant)
    → lookup c s ≡ some e
    → (latest_state c s ≡ some e.latest_state) × (open_outpoint c s ≡ e.open_outpoint)
unfolding lookup latest_state open_outpoint
in_memory-lookups s c e h = ground arith

-- Where the node is on the verifier's chain but does not have the output that the last indexed spend consumed, a
-- spend of the open outpoint at the safety depth is answered as a valid transition, with the open outpoint as both
-- the spent and the new one and the latest state as the new state, whatever the continuation proof and the policies
-- of the last indexed spend are.
pub stale_spend_valid :
    (sha256 : List ℕ → Bytes32) (b : KaspaChainBackend) (m : InMemoryIndexer) (chain : KaspaChainId)
    (safety : ℕ) (covenant : Bytes32) (e : IndexedCovenant) (o : KaspaOutpoint) (s : SpendEntry)
    (u : KaspaUtxo) (sp : SpendingInfo)
    → b.network_id ≡ ok chain
    → lookup covenant m ≡ some e
    → e.open_outpoint ≡ some o
    → last e.spend_history ≡ some s
    → b.get_utxo s.spent ≡ ok none
    → b.get_utxo o ≡ ok (some u)
    → u.spending ≡ some sp
    → depth_of b sp.txid ≢ 0
    → safety ≤ depth_of b sp.txid
    → resolve_by_covenant sha256 b (in_memory m) chain safety covenant
      ≡ native_transitioned_valid covenant (record {
        spent_outpoint = o;
        new_outpoint = o;
        receipt_id = s.receipt_id;
        new_state = e.latest_state;
        allocation_audit_certificate = s.allocation_audit_certificate;
        confirmation_depth = depth_of b sp.txid;
      })
unfolding resolve_by_covenant resolve_steps resolve_indexed judge_found settle in_memory
stale_spend_valid sha256 b m chain safety covenant e o s u sp net l p q absent g w n d =
    let i = in_memory m in
    let (k, out) = in_memory-lookups m covenant e l in
    rw (
      network-passes sha256 b i chain safety covenant net,
      l,
      p,
      q,
      spent-absent sha256 b i chain safety covenant s.spent absent,
      open_spend-valid sha256 b i chain safety covenant e o s u sp l k (out ∙ p) q g w n d,
    )
