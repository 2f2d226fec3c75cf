-- ===== src/Indexer/Store/Fields.antt =====
-- The fields of the store's records are read back.
use rgk.Prelude.{
  ℕ, ◌<◌, ◌≤◌, ◌^◌, ◌≡◌, List, [], ◌++◌, length, All, All-join, ok, ensure, ensure-of, dec_le,
  arith, passed, avoided, ◌≟◌, list_eq, nat_eq,
}
use rgk.Core.Bytes.{Bytes32, zero32, IsByte, IsBytes}
use rgk.Core.Chain.{KaspaChainId, decode_chain}
use rgk.Core.Chain.Codec.{chain-IsCodec}
use rgk.Core.Policy.{ReceiptPolicy, decode_policy}
use rgk.Core.Policy.Codec.{policy-IsCodec}
use rgk.Core.Encoding.{max_blob_bytes, to_le, read_array, read_u32, read_u64, read_blob, take_bytes}
use rgk.Core.Encoding.Widths.{to_le-IsByte}
use rgk.Core.Encoding.Laws.{Reads, Reads-bind, take_bytes-Reads}
use rgk.Core.Encoding.Tagged.{Reads-guard}
use rgk.Core.Encoding.Codec.{array-IsCodec, u32-IsCodec, u64-IsCodec}
use rgk.Core.Types.{KaspaOutpoint, RgkStateCommitment, PolicyMigrationProof}
use rgk.Core.Types.Wire.{decode_outpoint, decode_state}
use rgk.Core.Types.Codec.{
  chain_bytes, policy_bytes, outpoint_bytes, state_bytes, IsTypedState, state-IsCodec,
  outpoint-IsCodec,
}
use rgk.Core.Types.Receipts.{chain_bytes-IsByte, policy_bytes-IsByte, state_bytes-IsByte}
use rgk.Indexer.Records.{ContinuationProof, AllocationAuditCertificateRecord}
use rgk.Indexer.Entry.{validate_continuation_proof, validate_certificate}
use rgk.Indexer.Store.Scan.{
  read, Restores, Restores-read, Restores-bind, Restores-guard, Restores-pure,
}
use rgk.Indexer.Store.Decode.{decode_continuation, decode_migration, decode_certificate}

pub bytes32-Restores : (b : Bytes32) → IsBytes 32 b → Restores (read (read_array 32)) b b
bytes32-Restores b t = Restores-read ((array-IsCodec 32).reads b t) t.bytes

pub u32-Restores : (v : ℕ) → v < 256 ^ 4 → Restores (read read_u32) v (to_le 4 v)
u32-Restores v h = Restores-read (u32-IsCodec.reads v h) (to_le-IsByte 4 v)

pub u64-Restores : (v : ℕ) → v < 256 ^ 8 → Restores (read read_u64) v (to_le 8 v)
u64-Restores v h = Restores-read (u64-IsCodec.reads v h) (to_le-IsByte 8 v)

pub chain-Restores : (c : KaspaChainId) → Restores (read decode_chain) c (chain_bytes c)
chain-Restores c = Restores-read (chain-IsCodec.reads c tt) (chain_bytes-IsByte c)

pub policy-Restores : (p : ReceiptPolicy) → Restores (read decode_policy) p (policy_bytes p)
policy-Restores p = Restores-read (policy-IsCodec.reads p tt) (policy_bytes-IsByte p)

pub state-Restores :
    (s : RgkStateCommitment) → IsTypedState s → Restores (read decode_state) s (state_bytes s)
state-Restores s t = Restores-read (state-IsCodec.reads s t) (state_bytes-IsByte s t)

-- The fields of an outpoint have the widths of their types.
pub record IsTypedOutpoint (o : KaspaOutpoint) : Type 0 where
  pub transaction_id : IsBytes 32 o.transaction_id
  pub index : o.index < 256 ^ 4

pub outpoint-Restores :
    (o : KaspaOutpoint) → IsTypedOutpoint o → Restores (read decode_outpoint) o (outpoint_bytes o)
outpoint-Restores o t =
    Restores-read (outpoint-IsCodec.reads o (t.transaction_id, t.index))
      (search (All-join IsByte, t.transaction_id.bytes, to_le-IsByte 4 o.index) depth 6)

blob-Reads : (b : List ℕ) → length b ≤ max_blob_bytes → Reads read_blob b (to_le 4 (length b) ++ b)
unfolding read_blob
blob-Reads b h = Reads-bind read_u32 _ (u32-IsCodec.reads (length b) (omega (arith, h))) (
    Reads-guard (ensure (dec_le (length b) max_blob_bytes) _) (take_bytes (length b))
      (ensure-of (dec_le (length b) max_blob_bytes) _ h) (take_bytes-Reads b))

pub blob-Restores :
    (b : List ℕ)
    → length b ≤ max_blob_bytes
    → All IsByte b
    → Restores (read read_blob) b (to_le 4 (length b) ++ b)
blob-Restores b h all =
    Restores-read (blob-Reads b h)
      (All-join IsByte (to_le 4 (length b)) b (to_le-IsByte 4 (length b)) all)

abbrev pub continuation_bytes : ContinuationProof → List ℕ
continuation_bytes p = p.commitment ++ (p.shape_root ++ (p.transition_digest ++ []))

pub record IsStoredContinuation (p : ContinuationProof) : Type 0 where
  pub commitment : IsBytes 32 p.commitment
  pub shape_root : IsBytes 32 p.shape_root
  pub transition_digest : IsBytes 32 p.transition_digest
  pub valid : validate_continuation_proof p ≡ ok tt

pub continuation-Restores :
    (p : ContinuationProof)
    → IsStoredContinuation p
    → Restores decode_continuation p (continuation_bytes p)
unfolding decode_continuation
continuation-Restores p t = Restores-bind _ _ (bytes32-Restores p.commitment t.commitment) (
    Restores-bind _ _ (bytes32-Restores p.shape_root t.shape_root) (
      Restores-bind _ _ (bytes32-Restores p.transition_digest t.transition_digest)
        (Restores-guard t.valid (Restores-pure p))))

abbrev pub migration_bytes : PolicyMigrationProof → List ℕ
migration_bytes p =
    policy_bytes p.previous_policy
    ++ (policy_bytes p.new_policy
        ++ (p.previous_state_digest
            ++ (p.new_state_digest
                ++ (p.transition_digest
                    ++ (p.authorization_commitment ++ (p.migration_commitment ++ []))))))

pub record IsTypedMigration (p : PolicyMigrationProof) : Type 0 where
  pub previous_state_digest : IsBytes 32 p.previous_state_digest
  pub new_state_digest : IsBytes 32 p.new_state_digest
  pub transition_digest : IsBytes 32 p.transition_digest
  pub authorization_commitment : IsBytes 32 p.authorization_commitment
  pub migration_commitment : IsBytes 32 p.migration_commitment

pub migration-Restores :
    (p : PolicyMigrationProof)
    → IsTypedMigration p
    → Restores decode_migration p (migration_bytes p)
unfolding decode_migration
migration-Restores p t = Restores-bind _ _ (policy-Restores p.previous_policy) (
    Restores-bind _ _ (policy-Restores p.new_policy) (
      Restores-bind _ _ (bytes32-Restores p.previous_state_digest t.previous_state_digest) (
        Restores-bind _ _ (bytes32-Restores p.new_state_digest t.new_state_digest) (
          Restores-bind _ _ (bytes32-Restores p.transition_digest t.transition_digest) (
            Restores-bind _ _
              (bytes32-Restores p.authorization_commitment t.authorization_commitment)
              (Restores-bind _ _ (bytes32-Restores p.migration_commitment t.migration_commitment)
                (Restores-pure p)))))))

abbrev pub certificate_bytes : AllocationAuditCertificateRecord → List ℕ
certificate_bytes c =
    c.certificate_id ++ ((to_le 4 (length c.canonical_bytes) ++ c.canonical_bytes) ++ [])

pub record IsStoredCertificate (c : AllocationAuditCertificateRecord) : Type 0 where
  pub certificate_id : IsBytes 32 c.certificate_id
  pub bytes : All IsByte c.canonical_bytes
  pub valid : validate_certificate c ≡ ok tt

pub valid_length :
    (c : AllocationAuditCertificateRecord)
    → validate_certificate c ≡ ok tt
    → length c.canonical_bytes ≤ max_blob_bytes
unfolding validate_certificate
valid_length c h =
    let (_, h1) = avoided (c.certificate_id ≟ zero32) _ h in
    let (short, _) = passed (dec_le (length c.canonical_bytes) max_blob_bytes) _ h1 in short

pub certificate-Restores :
    (c : AllocationAuditCertificateRecord)
    → IsStoredCertificate c
    → Restores decode_certificate c (certificate_bytes c)
unfolding decode_certificate
certificate-Restores c t = Restores-bind _ _ (bytes32-Restores c.certificate_id t.certificate_id) (
    Restores-bind _ _ (blob-Restores c.canonical_bytes (valid_length c t.valid) t.bytes)
      (Restores-guard t.valid (Restores-pure c)))
