-- ===== src/Indexer/Store/Spends.antt =====
-- One spend of a stored history is read back.
use rgk.Prelude.{
  ℕ, ◌<◌, ◌^◌, ◌%◌, ◌≡◌, refl, ap, ◌∙◌, true, Option, none, some, List, [], ◌∷◌, ◌++◌, length,
  append_assoc, append-nil, ok, arith,
}
use rgk.Core.Bytes.{Bytes32, IsBytes}
use rgk.Core.Policy.{encode_policy}
use rgk.Core.Encoding.{
  Writer, to_le, write_u8, write_u32, write_u64, write_bytes, write_blob, write_bool,
}
use rgk.Core.Types.{KaspaOutpoint, PolicyMigrationProof}
use rgk.Core.Types.Wire.{encode_outpoint}
use rgk.Core.Types.Codec.{outpoint_bytes, policy_bytes}
use rgk.Indexer.Records.{ContinuationProof, AllocationAuditCertificateRecord, SpendEntry}
use rgk.Indexer.Store.Scan.{
  option_bytes, IfSome, Restores, Restores-bind, Restores-guard, Restores-pure, Restores-optional,
}
use rgk.Indexer.Store.{
  write_option, write_continuation, write_migration, write_certificate, write_spend,
}
use rgk.Indexer.Store.Decode.{
  decode_continuation, decode_migration, decode_certificate, check_stored_migration, decode_spend,
}
use rgk.Indexer.Store.Fields.{
  bytes32-Restores, u64-Restores, policy-Restores, IsTypedOutpoint, outpoint-Restores,
  continuation_bytes, IsStoredContinuation, continuation-Restores, migration_bytes,
  IsTypedMigration, migration-Restores, certificate_bytes, IsStoredCertificate, valid_length,
  certificate-Restores,
}

abbrev pub spend_bytes : SpendEntry → List ℕ
spend_bytes s =
    to_le 8 s.daa_score
    ++ (outpoint_bytes s.spent
        ++ (outpoint_bytes s.created
            ++ (s.new_state_digest
                ++ (s.resulting_state_digest
                    ++ (policy_bytes s.previous_receipt_policy
                        ++ (policy_bytes s.new_receipt_policy
                            ++ (s.receipt_id
                                ++ (option_bytes IsStoredContinuation continuation_bytes
                                      s.continuation
                                    ++ (option_bytes IsTypedMigration migration_bytes
                                          s.policy_migration
                                        ++ (option_bytes IsStoredCertificate certificate_bytes
                                              s.allocation_audit_certificate
                                            ++ []))))))))))

module _ (sha256 : List ℕ → Bytes32) where
  -- A spend whose fields have their widths and whose proofs and certificate are valid.
  pub record IsStoredSpend (s : SpendEntry) : Type 0 where
    pub daa_score : s.daa_score < 256 ^ 8
    pub spent : IsTypedOutpoint s.spent
    pub created : IsTypedOutpoint s.created
    pub new_state_digest : IsBytes 32 s.new_state_digest
    pub resulting_state_digest : IsBytes 32 s.resulting_state_digest
    pub receipt_id : IsBytes 32 s.receipt_id
    pub continuation : IfSome IsStoredContinuation continuation_bytes s.continuation
    pub policy_migration : IfSome IsTypedMigration migration_bytes s.policy_migration
    pub certificate : IfSome IsStoredCertificate certificate_bytes s.allocation_audit_certificate
    pub migrated :
        check_stored_migration sha256 s.policy_migration s.continuation s.previous_receipt_policy
          s.new_receipt_policy s.new_state_digest s.resulting_state_digest
        ≡ ok tt

  pub spend-Restores :
      (s : SpendEntry) → IsStoredSpend s → Restores (decode_spend sha256 true) s (spend_bytes s)
  unfolding decode_spend
  spend-Restores s t = Restores-bind _ _ (u64-Restores s.daa_score t.daa_score) (
      Restores-bind _ _ (outpoint-Restores s.spent t.spent) (
        Restores-bind _ _ (outpoint-Restores s.created t.created) (
          Restores-bind _ _ (bytes32-Restores s.new_state_digest t.new_state_digest) (
            Restores-bind _ _ (bytes32-Restores s.resulting_state_digest t.resulting_state_digest) (
              Restores-bind _ _ (policy-Restores s.previous_receipt_policy) (
                Restores-bind _ _ (policy-Restores s.new_receipt_policy) (
                  Restores-bind _ _ (bytes32-Restores s.receipt_id t.receipt_id) (
                    Restores-bind _ _
                      (Restores-optional IsStoredContinuation continuation_bytes decode_continuation
                        continuation-Restores s.continuation t.continuation)
                      (Restores-bind _ _
                        (Restores-optional IsTypedMigration migration_bytes decode_migration
                          migration-Restores s.policy_migration t.policy_migration)
                        (Restores-guard t.migrated (
                          Restores-bind _ _
                            (Restores-optional IsStoredCertificate certificate_bytes
                              decode_certificate certificate-Restores s.allocation_audit_certificate
                              t.certificate)
                            (Restores-pure s))))))))))))

pub write_option-append :
    {A : Type 0} (P : A → Type 0) (f : A → Writer → Writer) (g : A → List ℕ)
    → ((a : A) (w : Writer) → f a w ≡ w ++ g a)
    → (o : Option A) (w : Writer) → write_option f o w ≡ w ++ option_bytes P g o
unfolding write_option write_bool write_u8
write_option-append P f g each none w = refl
write_option-append P f g each (some a) w = each a (w ++ (1 ∷ [])) ∙ append_assoc w (1 ∷ []) (g a)

write_continuation-append :
    (p : ContinuationProof) (w : Writer) → write_continuation p w ≡ w ++ continuation_bytes p
unfolding write_continuation write_bytes
write_continuation-append p w = simp (append_assoc, append-nil)

write_migration-append :
    (p : PolicyMigrationProof) (w : Writer) → write_migration p w ≡ w ++ migration_bytes p
unfolding write_migration write_bytes encode_policy write_u8
write_migration-append p w = simp (append_assoc, append-nil)

pub encode_outpoint-append :
    (o : KaspaOutpoint) (w : Writer) → encode_outpoint o w ≡ w ++ outpoint_bytes o
unfolding encode_outpoint write_bytes write_u32
encode_outpoint-append o w = simp (append_assoc, append-nil)

write_certificate-append :
    (c : Option AllocationAuditCertificateRecord) (w : Writer)
    → IfSome IsStoredCertificate certificate_bytes c
    → write_certificate c w ≡ ok (w ++ option_bytes IsStoredCertificate certificate_bytes c)
unfolding write_certificate write_bool write_u8 write_bytes write_blob write_u32
write_certificate-append none w t = refl
write_certificate-append (some c) w t =
    let small : length c.canonical_bytes % 2 ^ 32 ≡ length c.canonical_bytes =
      omega (arith, valid_length c t.valid) in
    rw (t.valid, small) (ap ok (simp (append_assoc, append-nil)))

pub write_spend-append :
    (sha256 : List ℕ → Bytes32) (s : SpendEntry) (w : Writer)
    → IsStoredSpend sha256 s
    → write_spend s w ≡ ok (w ++ spend_bytes s)
unfolding write_spend write_u64 write_bytes encode_policy write_u8
write_spend-append sha256 s w t =
    write_certificate-append s.allocation_audit_certificate _ t.certificate
    ∙ ap ok (
        simp (
          encode_outpoint-append,
          write_option-append IsStoredContinuation write_continuation continuation_bytes
              write_continuation-append,
          write_option-append IsTypedMigration write_migration migration_bytes
              write_migration-append,
          append_assoc,
          append-nil,
        ))
