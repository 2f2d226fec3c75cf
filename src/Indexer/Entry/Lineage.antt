-- ===== src/Indexer/Entry/Lineage.antt =====
-- The history of an entry is a chain of spends from the opening to the open outpoint and the latest state.
use rgk.Prelude.{
  ℕ, ◌≡◌, refl, sym, ap, ◌∙◌, subst, some_of, ok_of, err_ok, passed, dec_le, length, zero, suc,
  some, List, [], ◌∷◌, ◌++◌, map, ok, Distinct, Distinct-snoc, Distinct-init, contains_absent,
  drop_last-snoc, pop, pop-eq_some, Option-cases, inl, inr, list_eq, nat_eq,
}
use rgk.Core.Bytes.{Bytes32}
use rgk.Core.Policy.{ReceiptPolicy}
use rgk.Core.Types.{KaspaOutpoint, RgkStateCommitment}
use rgk.Indexer.Records.{SpendEntry, IndexedCovenant, opened}
use rgk.Indexer.Entry.{
  Spend, spend_entry, advance_entry, apply_spend_to_entry, revert_entry, rollback_loop,
  rollback_entry,
}
use rgk.Indexer.Entry.Apply.{Accepts, apply_sound}

-- Where a lineage stands.
pub record Head : Type 0 where
  pub outpoint : KaspaOutpoint
  pub digest : Bytes32
  pub policy : ReceiptPolicy

abbrev pub before : SpendEntry → Head
before s = record {
  outpoint = s.spent;
  digest = s.new_state_digest;
  policy = s.previous_receipt_policy;
}

abbrev pub after : SpendEntry → Head
after s = record {
  outpoint = s.created;
  digest = s.resulting_state_digest;
  policy = s.new_receipt_policy;
}

abbrev pub head_at : KaspaOutpoint → RgkStateCommitment → Head
head_at o s = record { outpoint = o; digest = s.state_digest; policy = s.receipt_policy }

-- Every spend starts where the one before it ended.
abbrev pub Linked : Head → List SpendEntry → Head → Type 0
Linked g [] t = g ≡ t
Linked g (s ∷ ss) t = (g ≡ before s) × Linked (after s) ss t

Linked-snoc :
    (g : Head) (ss : List SpendEntry) (s : SpendEntry)
    → Linked g ss (before s)
    → Linked g (ss ++ (s ∷ [])) (after s)
Linked-snoc g [] s h = (h, refl)
Linked-snoc g (x ∷ xs) s h = (h.0, Linked-snoc (after x) xs s h.1)

Linked-init :
    (g : Head) (ss : List SpendEntry) (s : SpendEntry) (t : Head)
    → Linked g (ss ++ (s ∷ [])) t
    → Linked g ss (before s)
Linked-init g [] s t h = h.0
Linked-init g (x ∷ xs) s t h = (h.0, Linked-init (after x) xs s t h.1)

abbrev pub receipt_ids : List SpendEntry → List Bytes32
receipt_ids ss = map (λ s. s.receipt_id) ss

pub receipt_ids-snoc :
    (ss : List SpendEntry) (s : SpendEntry)
    → receipt_ids (ss ++ (s ∷ [])) ≡ receipt_ids ss ++ (s.receipt_id ∷ [])
receipt_ids-snoc [] s = refl
receipt_ids-snoc (x ∷ xs) s = rw (receipt_ids-snoc xs s)

-- The entry continues the lineage that opened at `g` with `asset`.
pub record IsLineage (g : Head) (asset : Bytes32) (e : IndexedCovenant) : Type 0 where
  pub current : KaspaOutpoint
  pub is_open : e.open_outpoint ≡ some current
  pub linked : Linked g e.spend_history (head_at current e.latest_state)
  pub receipts : e.accepted_receipts ≡ receipt_ids e.spend_history
  pub distinct : Distinct e.accepted_receipts
  pub same_chain : e.latest_state.chain_id ≡ e.chain_id
  pub same_covenant : e.latest_state.covenant_id ≡ e.covenant_id
  pub same_asset : e.latest_state.asset_id ≡ asset

-- An entry that is opened with a state of its own chain and covenant is a lineage.
pub opened-IsLineage :
    (lineage : Bytes32) (s : RgkStateCommitment) (o : KaspaOutpoint) (daa : ℕ)
    → IsLineage (head_at o s) s.asset_id (opened s.covenant_id s.chain_id lineage s o daa)
unfolding opened
opened-IsLineage lineage s o daa = record {
  current = o;
  is_open = refl;
  linked = refl;
  receipts = refl;
  distinct = tt;
  same_chain = refl;
  same_covenant = refl;
  same_asset = refl;
}

module _ (g : Head) (asset : Bytes32) where
  pub advance-IsLineage :
      (sha256 : List ℕ → Bytes32) (e : IndexedCovenant) (s : Spend)
      → Accepts sha256 e s
      → IsLineage g asset e
      → IsLineage g asset (advance_entry e s)
  unfolding advance_entry
  advance-IsLineage sha256 e s a h =
      let at : Linked g e.spend_history (before (spend_entry e s)) =
        subst (λ o. Linked g e.spend_history (head_at o e.latest_state))
          (some_of (sym h.is_open ∙ a.spends_open)) h.linked in
      record {
        current = s.new_outpoint;
        is_open = refl;
        linked = Linked-snoc g e.spend_history (spend_entry e s) at;
        receipts = rw (h.receipts, receipt_ids-snoc e.spend_history (spend_entry e s));
        distinct =
            Distinct-snoc e.accepted_receipts s.receipt_id h.distinct
              (contains_absent e.accepted_receipts s.receipt_id a.fresh);
        same_chain = sym a.same_chain;
        same_covenant = sym a.same_covenant;
        same_asset = sym a.same_asset ∙ h.same_asset;
      }

  pub revert-IsLineage :
      (e : IndexedCovenant) (rest : List SpendEntry) (s : SpendEntry)
      → e.spend_history ≡ rest ++ (s ∷ [])
      → IsLineage g asset e
      → IsLineage g asset (revert_entry e rest s)
  unfolding revert_entry
  revert-IsLineage e rest s p h =
      let ids : e.accepted_receipts ≡ receipt_ids rest ++ (s.receipt_id ∷ []) =
        h.receipts ∙ ap receipt_ids p ∙ receipt_ids-snoc rest s in
      record {
        current = s.spent;
        is_open = refl;
        linked = Linked-init g rest s _ (rw p at h.linked);
        receipts = rw (ids, drop_last-snoc (receipt_ids rest) s.receipt_id);
        distinct =
            rw (ids, drop_last-snoc (receipt_ids rest) s.receipt_id)
              (Distinct-init (receipt_ids rest) s.receipt_id (rw ids at h.distinct));
        same_chain = h.same_chain;
        same_covenant = h.same_covenant;
        same_asset = h.same_asset;
      }

  loop-IsLineage :
      (n : ℕ) (e e' : IndexedCovenant)
      → rollback_loop n e ≡ ok e'
      → IsLineage g asset e
      → IsLineage g asset e'
  unfolding rollback_loop
  loop-IsLineage zero e e' r h = subst (IsLineage g asset) (ok_of r) h
  loop-IsLineage (suc n) e e' r h = elim (Option-cases (pop e.spend_history)) [
    | inl p ↦ absurd (err_ok (rw (p, rollback_loop) at r))
    | inr ((rest, s), p) ↦
        loop-IsLineage n (revert_entry e rest s) e' (rw (p, rollback_loop) at r)
          (revert-IsLineage e rest s (pop-eq_some e.spend_history p) h)
  ]

-- Whatever spend an entry accepts, and however many it rolls back, its history stays a chain of spends from
-- the same opening to the open outpoint and the latest state, each starting with the outpoint, digest and
-- policy the one before it left; the accepted receipt ids stay those of the history, without repetition; and
-- the latest state stays on the entry's chain, covenant and asset.
pub apply-rollback-IsLineage :
    (sha256 : List ℕ → Bytes32) (g : Head) (asset : Bytes32) (e e' : IndexedCovenant)
    → IsLineage g asset e
    → ((s : Spend) → apply_spend_to_entry sha256 e s ≡ ok e' → IsLineage g asset e')
      × ((depth : ℕ) → rollback_entry depth e ≡ ok e' → IsLineage g asset e')
unfolding rollback_entry
apply-rollback-IsLineage sha256 g asset e e' h = (
  λ s r.
      let (a, same) = apply_sound sha256 e s r in
      rw same (advance-IsLineage g asset sha256 e s a h),
  λ depth r.
      let (_, r') = passed (dec_le depth (length e.spend_history)) _ r in
      loop-IsLineage g asset depth e e' r' h,
)
