-- ===== src/Indexer/Rebuild/Attached.antt =====
-- The entry of a covenant that was rebuilt descends from the checkpoint.
use rgk.Prelude.{
  ℕ, ◌≡◌, refl, sym, ap, ◌∙◌, inl, inr, Bool, false, some, some_of, List, [], ◌∷◌, ◌++◌, ok, ok_of,
  err_ok, >>=-eq-ok, passed, ◌≟◌, list_eq, nat_eq, option_eq, get, get-insert_self, bytes_ord,
  contains_key, bool_eq, Result-cases, Option-cases, ◌↔◌,
}
unfoldable use rgk.Prelude.Vecs.{first}
use rgk.Prelude.Guards.{ensured, ensured_last}
use rgk.Core.Bytes.{Bytes32}
use rgk.Core.Chain.{chain_eq}
use rgk.Core.Policy.{policy_eq}
use rgk.Core.Types.{outpoint_eq, state_eq}
use rgk.Indexer.Records.{IndexedCovenant, SpendEntry, opened}
use rgk.Indexer.Entry.{Spend, spend_entry, advance_entry}
use rgk.Indexer.Entry.Apply.{Accepts}
use rgk.Indexer.Entry.Lineage.{receipt_ids, receipt_ids-snoc}
use rgk.Indexer.Memory.{InMemoryIndexer, open_covenant, lookup}
use rgk.Indexer.Memory.Reach.{Reach, Reach-IsIndexer}
use rgk.Indexer.Rebuild.Steps.{enter_existing, enter_refused, enter_opens}
use rgk.Indexer.Rebuild.{
  RebuildCheckpoint, check_history, check_descent, validate_existing_checkpoint, enter_checkpoint,
}

module _ (c : RebuildCheckpoint) where
  -- An entry that the checks on an existing one let pass, with one receipt for each spend.
  pub record Attached (e : IndexedCovenant) : Type 0 where
    pub same_chain : e.chain_id ≡ c.chain_id
    pub same_lineage : e.lineage_id ≡ c.lineage_id
    pub same_asset : e.latest_state.asset_id ≡ c.initial_state.asset_id
    pub same_policy : e.latest_state.receipt_policy ≡ c.initial_state.receipt_policy
    pub descends : check_descent e.accepted_receipts e c ≡ ok tt
    pub receipts : e.accepted_receipts ≡ receipt_ids e.spend_history

  pub validate_existing_iff :
      (e : IndexedCovenant)
      → (validate_existing_checkpoint e c ≡ ok tt) ↔ (
          (e.chain_id ≡ c.chain_id)
          × ((e.lineage_id ≡ c.lineage_id)
              × ((e.latest_state.asset_id ≡ c.initial_state.asset_id)
                  × ((e.latest_state.receipt_policy ≡ c.initial_state.receipt_policy)
                      × (check_descent e.accepted_receipts e c ≡ ok tt)))))
  unfolding validate_existing_checkpoint
  validate_existing_iff e = ensured (e.chain_id ≟ c.chain_id) _ (
      ensured (e.lineage_id ≟ c.lineage_id) _ (
        ensured (e.latest_state.asset_id ≟ c.initial_state.asset_id) _ (
          ensured (e.latest_state.receipt_policy ≟ c.initial_state.receipt_policy) _
            (λ h. h, λ h. h))))

  check_history_iff :
      (x : SpendEntry)
      → (check_history (some x) c ≡ ok tt)
        ↔ ((x.spent ≡ c.open_outpoint) × (x.new_state_digest ≡ c.initial_state.state_digest))
  unfolding check_history
  check_history_iff x =
      ensured (x.spent ≟ c.open_outpoint) _
        (ensured_last (x.new_state_digest ≟ c.initial_state.state_digest) _)

  fresh_iff :
      (e : IndexedCovenant)
      → (check_descent [] e c ≡ ok tt) ↔ (
          (e.open_outpoint ≡ some c.open_outpoint)
          × ((e.latest_state ≡ c.initial_state) × (e.last_update_daa_score ≡ c.daa_score)))
  unfolding check_descent
  fresh_iff e = ensured (e.open_outpoint ≟ some c.open_outpoint) _ (
      ensured (e.latest_state ≟ c.initial_state) _
        (ensured_last (e.last_update_daa_score ≟ c.daa_score) _))

  -- One more receipt and one more spend, which starts where the entry stands.
  check_descent-snoc :
      (ids : List Bytes32) (history : List SpendEntry) (id : Bytes32) (x : SpendEntry)
      (e e' : IndexedCovenant)
      → ids ≡ receipt_ids history
      → e.spend_history ≡ history
      → e'.spend_history ≡ history ++ (x ∷ [])
      → e.open_outpoint ≡ some x.spent
      → x.new_state_digest ≡ e.latest_state.state_digest
      → check_descent ids e c ≡ ok tt
      → check_descent (ids ++ (id ∷ [])) e' c ≡ ok tt
  unfolding check_descent first
  check_descent-snoc [] [] id x e e' r p q o d h =
      let (at, (state, _)) = (fresh_iff e).0 h in
      rw q ((check_history_iff x).1 (some_of (sym o ∙ at), d ∙ ap (λ s. s.state_digest) state))
  check_descent-snoc [] (y ∷ ys) id x e e' r p q o d h = absurd cc
  check_descent-snoc (i ∷ ids) [] id x e e' r p q o d h = absurd cc
  check_descent-snoc (i ∷ ids) (y ∷ ys) id x e e' r p q o d h =
      rw q (ap (λ l. check_history (first l) c) (sym p) ∙ h)

  pub advance-Attached :
      (sha256 : List ℕ → Bytes32) (e : IndexedCovenant) (s : Spend)
      → Accepts sha256 e s
      → s.new_state.asset_id ≡ c.initial_state.asset_id
      → s.new_state.receipt_policy ≡ c.initial_state.receipt_policy
      → Attached e
      → Attached (advance_entry e s)
  unfolding advance_entry
  advance-Attached sha256 e s a asset policy h = record {
    same_chain = h.same_chain;
    same_lineage = h.same_lineage;
    same_asset = asset;
    same_policy = policy;
    descends =
        check_descent-snoc e.accepted_receipts e.spend_history s.receipt_id (spend_entry e s) e
          (advance_entry e s) h.receipts refl refl a.spends_open refl h.descends;
    receipts = rw (h.receipts, receipt_ids-snoc e.spend_history (spend_entry e s));
  }

  opened-Attached :
      Attached
        (opened c.covenant_id c.chain_id c.lineage_id c.initial_state c.open_outpoint c.daa_score)
  unfolding opened
  opened-Attached = record {
    same_chain = refl;
    same_lineage = refl;
    same_asset = refl;
    same_policy = refl;
    descends =
        (fresh_iff (
            opened c.covenant_id c.chain_id c.lineage_id c.initial_state c.open_outpoint
              c.daa_score)).1
          (refl, (refl, refl));
    receipts = refl;
  }

  -- The indexer has such an entry.
  abbrev pub Holds : InMemoryIndexer → Type 0
  Holds s = (e : IndexedCovenant) × (get s.map c.covenant_id ≡ some e) × Attached e

  pub lookup_get : (s : InMemoryIndexer) → lookup c.covenant_id s ≡ get s.map c.covenant_id
  unfolding lookup
  lookup_get s = refl

  open-Holds :
      (s t : InMemoryIndexer)
      → open_covenant c.chain_id c.covenant_id c.lineage_id c.initial_state c.open_outpoint
          c.daa_score s
        ≡ ok t
      → Holds t
  unfolding open_covenant
  open-Holds s t h =
      let (_, h1) = passed (contains_key s.map c.covenant_id ≟ false) _ h in
      let (_, h2) = passed (c.initial_state.chain_id ≟ c.chain_id) _ h1 in
      let (_, h3) = passed (c.initial_state.covenant_id ≟ c.covenant_id) _ h2 in
      let e =
        opened c.covenant_id c.chain_id c.lineage_id c.initial_state c.open_outpoint c.daa_score in
      (e, rw (← ok_of h3) (get-insert_self c.covenant_id e s.map), opened-Attached)

  pub enter-Holds :
      (sha256 : List ℕ → Bytes32) (s : InMemoryIndexer) (b : Bool)
      → Reach sha256 s
      → (enter_checkpoint c s).1 ≡ ok b
      → Holds (enter_checkpoint c s).0
  enter-Holds sha256 s b reach h = elim (Option-cases (lookup c.covenant_id s)) [
    | inr (e, p) ↦
        let (_, fine, _) =
          >>=-eq-ok (validate_existing_checkpoint e c) _
            (sym (ap (λ z. z.1) (enter_existing c s e p)) ∙ h) in
        let (chain, (lineage, (asset, (policy, descends)))) = (validate_existing_iff e).0 fine in
        let there : get s.map c.covenant_id ≡ some e = sym (lookup_get s) ∙ p in
        rw (enter_existing c s e p) (
          e,
          there,
          record {
            same_chain = chain;
            same_lineage = lineage;
            same_asset = asset;
            same_policy = policy;
            descends = descends;
            receipts =
                ((Reach-IsIndexer sha256 s reach).entries c.covenant_id e there).lineage.receipts;
          },
        )
    | inl p ↦
        elim (Result-cases (
          open_covenant c.chain_id c.covenant_id c.lineage_id c.initial_state c.open_outpoint
            c.daa_score s)) [
              | inl (e, q) ↦ absurd (err_ok (sym (ap (λ z. z.1) (enter_refused c s e p q)) ∙ h))
              | inr (t, q) ↦ rw (enter_opens c s t p q) (open-Holds s t q)
            ]
  ]
