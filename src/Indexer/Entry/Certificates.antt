-- ===== src/Indexer/Entry/Certificates.antt =====
-- Recording an allocation audit certificate on an entry.
use rgk.Prelude.{
  ◌≡◌, ◌⊎◌, inl, inr, refl, sym, ap, ◌∙◌, none-some, ◌≢◌, some, List, [], ◌∷◌, ok, err, ok_of,
  >>=-eq-ok, ◌≟◌, nat_eq, list_eq, arith,
}
use rgk.Core.Bytes.{Bytes32}
use rgk.Indexer.Records.{
  certificate_invalid, replaces_existing, SpendEntry, IndexedCovenant,
  AllocationAuditCertificateRecord, certificate_eq,
}
use rgk.Indexer.Entry.{validate_certificate, certificate_of, attach, record_certificate}
use rgk.Indexer.Entry.Lineage.{IsLineage, Head, Linked, receipt_ids}

module _ (id : Bytes32) (c : AllocationAuditCertificateRecord) (covenant : Bytes32) where
  attach-found :
      (s : SpendEntry) (ss : List SpendEntry) {ts : List SpendEntry}
      → s.receipt_id ≡ id
      → attach id c covenant (s ∷ ss) ≡ ok ts
      → (ts ≡ record s { allocation_audit_certificate = some c } ∷ ss)
        ⊎ ((ts ≡ s ∷ ss) × (s.allocation_audit_certificate ≡ some c))
  unfolding attach
  attach-found s ss p e = ground arith

  attach-later :
      (s : SpendEntry) (ss : List SpendEntry) {ts : List SpendEntry}
      → ¬ (s.receipt_id ≡ id)
      → attach id c covenant (s ∷ ss) ≡ ok ts
      → (ts' : List SpendEntry) × (attach id c covenant ss ≡ ok ts') × (ts ≡ s ∷ ts')
  unfolding attach
  attach-later s ss n e = ground arith

  -- What attaching leaves and what it sets.
  record Attached (ss ts : List SpendEntry) : Type 0 where
    links : (g t : Head) → Linked g ss t → Linked g ts t
    same_ids : receipt_ids ts ≡ receipt_ids ss
    holds : certificate_of id ts ≡ some c
    others : (i : Bytes32) → i ≢ id → certificate_of i ts ≡ certificate_of i ss

  attach-Attached :
      (ss : List SpendEntry) {ts : List SpendEntry}
      → attach id c covenant ss ≡ ok ts
      → Attached ss ts
  unfolding attach certificate_of
  attach-Attached [] e = cc
  attach-Attached (s ∷ ss) {ts} e = elim (s.receipt_id ≟ id) [
    | yes p ↦ elim (attach-found s ss p e) [
      | inl q ↦ rw q record {
        links = λ g t h. h;
        same_ids = refl;
        holds = ground arith;
        others = λ i n. ground arith;
      }
      | inr (q, r) ↦
          rw q record {
            links = λ g t h. h;
            same_ids = refl;
            holds = ground arith;
            others = λ i n. refl;
          }
    ]
    | no n ↦
        let (ts', f, q) = attach-later s ss n e in
        let ih = attach-Attached ss f in
        rw q record {
          links = λ g t h. (h.0, ih.links _ t h.1);
          same_ids = ap (λ z. s.receipt_id ∷ z) ih.same_ids;
          holds = ground (arith, ih.holds);
          others = λ i n. ground (arith, ih.others i n);
        }
  ]

  -- A history that holds a certificate for the receipt takes only that one.
  attach-again :
      (d : AllocationAuditCertificateRecord) (ss : List SpendEntry)
      → certificate_of id ss ≡ some c
      → (d ≡ c → attach id d covenant ss ≡ ok ss)
        × (d ≢ c → attach id d covenant ss ≡ err (certificate_invalid replaces_existing))
  unfolding attach certificate_of
  attach-again d [] h = absurd (none-some h)
  attach-again d (s ∷ ss) h = ground (arith, attach-again d ss)

-- A certificate that is recorded for a receipt is the one the history then holds for it; the certificates of
-- the other receipts, the accepted ids and the lineage are as they were; recording it again changes nothing,
-- and recording another valid one is refused as a replacement.
pub record_certificate_once :
    (id : Bytes32) (c d : AllocationAuditCertificateRecord) (e e' : IndexedCovenant)
    → record_certificate id c e ≡ ok e'
    → (certificate_of id e'.spend_history ≡ some c)
      × ((i : Bytes32)
          → i ≢ id
          → certificate_of i e'.spend_history ≡ certificate_of i e.spend_history)
      × (e'.accepted_receipts ≡ e.accepted_receipts)
      × ((g : Head) (asset : Bytes32) → IsLineage g asset e → IsLineage g asset e')
      × (record_certificate id c e' ≡ ok e')
      × (validate_certificate d ≡ ok tt
          → d ≢ c
          → record_certificate id d e' ≡ err (certificate_invalid replaces_existing))
unfolding record_certificate
record_certificate_once id c d e e' h =
    let (_, valid, h1) = >>=-eq-ok (validate_certificate c) _ h in
    let (ts, attached, h2) = >>=-eq-ok (attach id c e.covenant_id e.spend_history) _ h1 in
    let same : record e { spend_history = ts } ≡ e' = ok_of h2 in
    let a = attach-Attached id c e.covenant_id e.spend_history attached in
    rw (← same) (
      a.holds,
      a.others,
      refl,
      λ g asset l. record {
        current = l.current;
        is_open = l.is_open;
        linked = a.links g _ l.linked;
        receipts = l.receipts ∙ sym a.same_ids;
        distinct = l.distinct;
        same_chain = l.same_chain;
        same_covenant = l.same_covenant;
        same_asset = l.same_asset;
      },
      rw (valid, (attach-again id c e.covenant_id c ts a.holds).0 refl),
      λ v n. rw (v, (attach-again id c e.covenant_id d ts a.holds).1 n),
    )

pub record_certificate-covenant :
    (id : Bytes32) (c : AllocationAuditCertificateRecord) (e : IndexedCovenant)
    {e' : IndexedCovenant}
    → record_certificate id c e ≡ ok e'
    → e'.covenant_id ≡ e.covenant_id
unfolding record_certificate
record_certificate-covenant id c e h =
    let (_, _, h1) = >>=-eq-ok (validate_certificate c) _ h in
    let (ts, _, h2) = >>=-eq-ok (attach id c e.covenant_id e.spend_history) _ h1 in
    ap (λ x. x.covenant_id) (sym (ok_of h2))
