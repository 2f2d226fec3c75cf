-- ===== src/Indexer/Entry/Replay.antt =====
-- Accepted receipt ids stay accepted until a rollback.
use rgk.Prelude.{
  ℕ, ◌≡◌, sym, ◌∙◌, false≢true, true, false, List, ok, err, ensure-fails, ◌≟◌, list_eq, nat_eq,
  bool_eq, contains, contains-snoc_self,
}
use rgk.Prelude.Contains.{contains-snoc_kept}
use rgk.Core.Bytes.{Bytes32}
use rgk.Indexer.Records.{replay, IndexedCovenant, AllocationAuditCertificateRecord}
use rgk.Indexer.Entry.{Spend, advance_entry, apply_spend_to_entry, record_certificate}
use rgk.Indexer.Entry.Apply.{IsContinued, check_continuation_complete, apply_sound}
use rgk.Indexer.Entry.Certificates.{record_certificate_once}

module _ (sha256 : List ℕ → Bytes32) where
  -- Any number of spends and of recorded certificates lead from one entry to the other.
  pub data Onward : IndexedCovenant → IndexedCovenant → Type 0 where
    stay : (e : IndexedCovenant) → Onward e e
    spend :
        {e d f : IndexedCovenant} (s : Spend)
        → apply_spend_to_entry sha256 e s ≡ ok d
        → Onward d f
        → Onward e f
    certify :
        {e d f : IndexedCovenant} (id : Bytes32) (c : AllocationAuditCertificateRecord)
        → record_certificate id c e ≡ ok d
        → Onward d f
        → Onward e f

  Onward-accepted :
      (id : Bytes32) {e f : IndexedCovenant}
      → Onward e f
      → contains e.accepted_receipts id ≡ true
      → contains f.accepted_receipts id ≡ true
  unfolding advance_entry
  Onward-accepted id (stay e) h = h
  Onward-accepted id {e} (spend s p rest) h =
      Onward-accepted id rest (
        rw ((apply_sound sha256 e s p).1)
          (contains-snoc_kept e.accepted_receipts id s.receipt_id h))
  Onward-accepted id {e} (certify {d} j c p rest) h =
      let (_, _, same, _, _, _) = record_certificate_once j c c e d p in
      Onward-accepted id rest (rw same h)

  -- After an entry has accepted a spend, and any further spends and certificates, but no rollback, a spend with
  -- the same receipt id is refused as a replay, whatever else it brings, as long as its continuation proof, if
  -- it has one, has no zero digest.
  pub apply_spend_refuses_replay :
      (e e1 f : IndexedCovenant) (s t : Spend)
      → apply_spend_to_entry sha256 e s ≡ ok e1
      → Onward e1 f
      → t.receipt_id ≡ s.receipt_id
      → IsContinued t.continuation
      → apply_spend_to_entry sha256 f t ≡ err (replay t.receipt_id)
  unfolding apply_spend_to_entry advance_entry
  apply_spend_refuses_replay e e1 f s t h onward same c =
      let (_, next) = apply_sound sha256 e s h in
      let first : contains e1.accepted_receipts t.receipt_id ≡ true =
        rw (next, same) (contains-snoc_self e.accepted_receipts s.receipt_id) in
      let seen : contains f.accepted_receipts t.receipt_id ≡ true =
        Onward-accepted t.receipt_id onward first in
      rw (
        check_continuation_complete t.continuation c,
        ensure-fails (contains f.accepted_receipts t.receipt_id ≟ false) _
            (λ n. false≢true (sym n ∙ seen)),
      )
