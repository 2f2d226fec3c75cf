-- ===== src/Indexer/Memory/Reach.antt =====
-- What holds of the in-memory indexer after any sequence of operations.
use rgk.Prelude.{
  ℕ, zero, suc, ◌≡◌, ◌≢◌, ◌≤◌, refl, sym, ap, ◌∙◌, subst, some, Option-cases, inl, inr, List, [],
  Result, ok, ok_of, err_ok, >>=-eq-ok, passed, avoided, ok_or, ok_or-eq-ok, ◌≟◌, nat_eq, list_eq,
  get, insert, bytes_ord, ForEach, ForEach-empty, ForEach-insert, ForEach-remove, length, dec_le,
  contains_key, bool_eq, false, pop,
}
use rgk.Core.Bytes.{Bytes32}
use rgk.Core.Chain.{KaspaChainId, chain_eq}
use rgk.Core.Types.{KaspaOutpoint, RgkStateCommitment, outpoint_eq, outpoint_ord}
use rgk.Indexer.Records.{
  IndexerError, not_indexed, IndexedCovenant, IndexedLane, ScanCursor, ObservedSpendRecord,
  AllocationAuditCertificateRecord, opened,
}
use rgk.Indexer.Entry.{
  Spend, advance_entry, apply_spend_to_entry, revert_entry, rollback_loop, rollback_entry,
  record_certificate,
}
use rgk.Indexer.Entry.Apply.{apply_sound}
use rgk.Indexer.Entry.Lineage.{Head, IsLineage, head_at, opened-IsLineage, apply-rollback-IsLineage}
use rgk.Indexer.Entry.Certificates.{record_certificate_once, record_certificate-covenant}
use rgk.Indexer.Memory.{
  InMemoryIndexer, new_indexer, open_covenant, on_entry, apply_spend, rollback, store_certificate,
  register_lane, validate_scan_cursor_name, store_scan_cursor, clear_scan_cursor,
  record_observed_spend,
}
use rgk.Indexer.Memory.Lanes.{IsLaneIndex, register-IsLaneIndex, register_lane-inv}

module _ (sha256 : List ℕ → Bytes32) where
  -- One operation that succeeds.
  pub data Step : InMemoryIndexer → InMemoryIndexer → Type 0 where
    opens :
        {s t : InMemoryIndexer} (chain : KaspaChainId) (covenant lineage : Bytes32)
        (initial : RgkStateCommitment) (outpoint : KaspaOutpoint) (daa : ℕ)
        → open_covenant chain covenant lineage initial outpoint daa s ≡ ok t
        → Step s t
    spends :
        {s t : InMemoryIndexer} (covenant : Bytes32) (spend : Spend)
        → apply_spend sha256 covenant spend s ≡ ok t
        → Step s t
    rolls_back :
        {s t : InMemoryIndexer} (covenant : Bytes32) (depth : ℕ)
        → rollback covenant depth s ≡ ok t
        → Step s t
    certifies :
        {s t : InMemoryIndexer} (covenant id : Bytes32) (c : AllocationAuditCertificateRecord)
        → store_certificate covenant id c s ≡ ok t
        → Step s t
    registers : {s t : InMemoryIndexer} (l : IndexedLane) → register_lane l s ≡ ok t → Step s t
    stores :
        {s t : InMemoryIndexer} (name : List ℕ) (c : ScanCursor)
        → store_scan_cursor name c s ≡ ok t
        → Step s t
    clears : {s t : InMemoryIndexer} (name : List ℕ) → clear_scan_cursor name s ≡ ok t → Step s t
    observes :
        {s t : InMemoryIndexer} (r : ObservedSpendRecord)
        → record_observed_spend r s ≡ ok t
        → Step s t

  pub data Reach : InMemoryIndexer → Type 0 where
    start : Reach new_indexer
    step : {s t : InMemoryIndexer} → Reach s → Step s t → Reach t

-- An entry is under its covenant id and continues some lineage.
pub record IsEntry (covenant : Bytes32) (e : IndexedCovenant) : Type 0 where
  pub same : e.covenant_id ≡ covenant
  pub origin : Head
  pub asset : Bytes32
  pub lineage : IsLineage origin asset e

pub record IsIndexer (s : InMemoryIndexer) : Type 0 where
  pub entries : ForEach IsEntry s.map
  pub lanes : IsLaneIndex s.lanes s.lane_scan_tags
  pub cursors : ForEach (λ name c. (name ≢ []) × (length name ≤ 128)) s.scan_cursors
  pub spends : ForEach (λ o r. r.spent ≡ o) s.observed_spends

new_indexer-IsIndexer : IsIndexer new_indexer
new_indexer-IsIndexer = record {
  entries = ForEach-empty IsEntry;
  lanes = record { ids = ForEach-empty _; found = ForEach-empty _ };
  cursors = ForEach-empty _;
  spends = ForEach-empty _;
}

pub on_entry-inv :
    (covenant : Bytes32) (f : IndexedCovenant → Result IndexerError IndexedCovenant)
    (s : InMemoryIndexer) {t : InMemoryIndexer}
    → on_entry covenant f s ≡ ok t
    → (e : IndexedCovenant) × (e' : IndexedCovenant) × (get s.map covenant ≡ some e)
      × (f e ≡ ok e')
      × (record s { map = insert covenant e' s.map } ≡ t)
unfolding on_entry
on_entry-inv covenant f s h =
    let (e, p, h1) = >>=-eq-ok (ok_or (get s.map covenant) (not_indexed covenant)) _ h in
    let (e', q, h2) = >>=-eq-ok (f e) _ h1 in (e, e', ok_or-eq-ok _ _ p, q, ok_of h2)

-- An operation on an entry that keeps it one keeps the indexer one.
on_entry-IsIndexer :
    (covenant : Bytes32) (f : IndexedCovenant → Result IndexerError IndexedCovenant)
    (s t : InMemoryIndexer)
    → ((e e' : IndexedCovenant) → f e ≡ ok e' → IsEntry covenant e → IsEntry covenant e')
    → on_entry covenant f s ≡ ok t
    → IsIndexer s
    → IsIndexer t
on_entry-IsIndexer covenant f s t keeps h i =
    let (e, e', p, q, same) = on_entry-inv covenant f s h in
    subst IsIndexer same record {
      entries =
          ForEach-insert IsEntry covenant e' s.map i.entries
            (keeps e e' q (i.entries covenant e p));
      lanes = i.lanes;
      cursors = i.cursors;
      spends = i.spends;
    }

apply-keeps :
    (sha256 : List ℕ → Bytes32) (covenant : Bytes32) (spend : Spend) (e e' : IndexedCovenant)
    → apply_spend_to_entry sha256 e spend ≡ ok e'
    → IsEntry covenant e
    → IsEntry covenant e'
unfolding advance_entry
apply-keeps sha256 covenant spend e e' h i = record {
  same = ap (λ x. x.covenant_id) (apply_sound sha256 e spend h).1 ∙ i.same;
  origin = i.origin;
  asset = i.asset;
  lineage = (apply-rollback-IsLineage sha256 i.origin i.asset e e' i.lineage).0 spend h;
}

loop-covenant :
    (n : ℕ) (e e' : IndexedCovenant) → rollback_loop n e ≡ ok e' → e'.covenant_id ≡ e.covenant_id
unfolding rollback_loop revert_entry
loop-covenant zero e e' h = ap (λ x. x.covenant_id) (sym (ok_of h))
loop-covenant (suc n) e e' h = elim (Option-cases (pop e.spend_history)) [
  | inl p ↦ absurd (err_ok (rw (p, rollback_loop) at h))
  | inr ((rest, s), p) ↦ loop-covenant n (revert_entry e rest s) e' (rw (p, rollback_loop) at h)
]

rollback-keeps :
    (covenant : Bytes32) (depth : ℕ) (e e' : IndexedCovenant)
    → rollback_entry depth e ≡ ok e'
    → IsEntry covenant e
    → IsEntry covenant e'
unfolding rollback_entry
rollback-keeps covenant depth e e' h i = record {
  same = loop-covenant depth e e' (passed (dec_le depth (length e.spend_history)) _ h).1 ∙ i.same;
  origin = i.origin;
  asset = i.asset;
  lineage = (apply-rollback-IsLineage (λ _. []) i.origin i.asset e e' i.lineage).1 depth h;
}

certificate-keeps :
    (covenant id : Bytes32) (c : AllocationAuditCertificateRecord) (e e' : IndexedCovenant)
    → record_certificate id c e ≡ ok e'
    → IsEntry covenant e
    → IsEntry covenant e'
certificate-keeps covenant id c e e' h i =
    let (_, _, _, lineage, _, _) = record_certificate_once id c c e e' h in
    record {
      same = record_certificate-covenant id c e h ∙ i.same;
      origin = i.origin;
      asset = i.asset;
      lineage = lineage i.origin i.asset i.lineage;
    }

open-IsIndexer :
    (chain : KaspaChainId) (covenant lineage : Bytes32) (initial : RgkStateCommitment)
    (outpoint : KaspaOutpoint) (daa : ℕ) (s t : InMemoryIndexer)
    → open_covenant chain covenant lineage initial outpoint daa s ≡ ok t
    → IsIndexer s
    → IsIndexer t
unfolding open_covenant opened
open-IsIndexer chain covenant lineage initial outpoint daa s t h i =
    let (_, h1) = passed (contains_key s.map covenant ≟ false) _ h in
    let (c, h2) = passed (initial.chain_id ≟ chain) _ h1 in
    let (k, h3) = passed (initial.covenant_id ≟ covenant) _ h2 in
    let same = ok_of h3 in
    subst IsIndexer same record {
      entries =
          ForEach-insert IsEntry covenant (opened covenant chain lineage initial outpoint daa) s.map
            i.entries
            record {
              same = refl;
              origin = head_at outpoint initial;
              asset = initial.asset_id;
              lineage = rw (← c, ← k) (opened-IsLineage lineage initial outpoint daa);
            };
      lanes = i.lanes;
      cursors = i.cursors;
      spends = i.spends;
    }

validate_name_sound :
    (name : List ℕ) {n : List ℕ}
    → validate_scan_cursor_name name ≡ ok n
    → (name ≢ []) × (length name ≤ 128)
unfolding validate_scan_cursor_name
validate_name_sound name h =
    let (a, h1) = avoided (name ≟ []) _ h in (a, (passed (dec_le (length name) 128) _ h1).0)

Step-IsIndexer :
    (sha256 : List ℕ → Bytes32) (s t : InMemoryIndexer)
    → Step sha256 s t
    → IsIndexer s
    → IsIndexer t
unfolding apply_spend rollback store_certificate store_scan_cursor clear_scan_cursor
    record_observed_spend
Step-IsIndexer sha256 s t (opens chain covenant lineage initial outpoint daa h) i =
    open-IsIndexer chain covenant lineage initial outpoint daa s t h i
Step-IsIndexer sha256 s t (spends covenant spend h) i =
    on_entry-IsIndexer covenant _ s t (apply-keeps sha256 covenant spend) h i
Step-IsIndexer sha256 s t (rolls_back covenant depth h) i =
    on_entry-IsIndexer covenant _ s t (rollback-keeps covenant depth) h i
Step-IsIndexer sha256 s t (certifies covenant id c h) i =
    on_entry-IsIndexer covenant _ s t (certificate-keeps covenant id c) h i
Step-IsIndexer sha256 s t (registers l h) i =
    let (_, _, _, same) = register_lane-inv l s h in
    rw same record {
      entries = i.entries;
      lanes = register-IsLaneIndex s.lanes s.lane_scan_tags l i.lanes;
      cursors = i.cursors;
      spends = i.spends;
    }
Step-IsIndexer sha256 s t (stores name c h) i =
    let (_, v, h2) = >>=-eq-ok (validate_scan_cursor_name name) _ h in
    subst IsIndexer (ok_of h2) record {
      entries = i.entries;
      lanes = i.lanes;
      cursors = ForEach-insert _ name c s.scan_cursors i.cursors (validate_name_sound name v);
      spends = i.spends;
    }
Step-IsIndexer sha256 s t (clears name h) i =
    let (_, _, h2) = >>=-eq-ok (validate_scan_cursor_name name) _ h in
    subst IsIndexer (ok_of h2) record {
      entries = i.entries;
      lanes = i.lanes;
      cursors = ForEach-remove _ name s.scan_cursors i.cursors;
      spends = i.spends;
    }
Step-IsIndexer sha256 s t (observes r h) i = subst IsIndexer (ok_of h) record {
  entries = i.entries;
  lanes = i.lanes;
  cursors = i.cursors;
  spends = ForEach-insert _ r.spent r s.observed_spends i.spends refl;
}

-- After any sequence of operations that succeed, from an empty indexer: every entry is under its own covenant
-- id and its history is a chain of spends from one opening to its open outpoint and latest state, with the
-- receipt ids of the history and no receipt twice; every lane is under its own id and every scan tag leads to
-- a lane that carries it; every cursor has a name of 1 to 128 bytes; every observed spend is under the
-- outpoint it spends.
pub Reach-IsIndexer :
    (sha256 : List ℕ → Bytes32) (s : InMemoryIndexer) → Reach sha256 s → IsIndexer s
Reach-IsIndexer sha256 s start = new_indexer-IsIndexer
Reach-IsIndexer sha256 t (step {s} r k) = Step-IsIndexer sha256 s t k (Reach-IsIndexer sha256 s r)
