-- ===== src/Core/Commit.antt =====
-- crates/rgk-core/src/commit.rs: domain-separated commitments. `sha256` stands for the digest of the
-- sha2 crate; feeding it piece by piece is feeding it the joined bytes.
pub mod Domains
pub mod Binding
use rgk.Prelude.{ℕ, ◌%◌, ◌^◌, Option, none, some, List, [], ◌∷◌, ◌++◌, codes, length}
use rgk.Core.Bytes.{Bytes32}
use rgk.Core.Chain.{KaspaChainId, chain_domain_str}
use rgk.Core.Policy.{ProofMode, ReceiptPolicy, mode_domain_str, policy_domain_str, encode_policy}
use rgk.Core.Encoding.{Writer, ◌▸◌, to_le, write_blob, write_bytes}
use rgk.Core.Types.{RgkStateCommitment, RgkReceipt, PolicyMigrationInput, PolicyMigrationProof}

pub data DomainTag : Type 0 where
  state_commitment receipt lineage replay_nonce policy_migration : DomainTag
  advanced_covenant_policy advanced_covenant_execution : DomainTag

unfoldable pub ascii : DomainTag → List ℕ
ascii state_commitment = codes "rgk:state-commitment"
ascii receipt = codes "rgk:receipt"
ascii lineage = codes "rgk:lineage"
ascii replay_nonce = codes "rgk:replay-nonce"
ascii policy_migration = codes "rgk:policy-migration"
ascii advanced_covenant_policy = codes "rgk:advanced-covenant-policy:v1"
ascii advanced_covenant_execution = codes "rgk:advanced-covenant-execution:v1"

unfoldable pub domain_string : KaspaChainId → ReceiptPolicy → Option ProofMode → List ℕ
domain_string chain policy (some m) =
    codes "rgk:v0 | chain="
    ++ (chain_domain_str chain
        ++ (codes " | policy="
            ++ (policy_domain_str policy ++ (codes " | mode=" ++ mode_domain_str m))))
domain_string chain policy none =
    codes "rgk:v0 | chain="
    ++ (chain_domain_str chain ++ (codes " | policy=" ++ policy_domain_str policy))

-- `RgkStateCommitment::encode_body`
unfoldable pub state_body : RgkStateCommitment → List ℕ
state_body s =
    []
    ▸ write_blob (domain_string s.chain_id s.receipt_policy none)
    ▸ write_bytes s.covenant_id
    ▸ write_bytes s.asset_id
    ▸ write_bytes s.state_digest

-- `RgkReceipt::encode_body`
unfoldable pub receipt_body : RgkReceipt → List ℕ
receipt_body r =
    []
    ▸ write_blob (domain_string r.chain_id r.old_state.receipt_policy (some r.proof_mode))
    ▸ write_bytes r.covenant_id
    ▸ write_bytes r.old_state.state_digest
    ▸ write_bytes r.new_state.state_digest
    ▸ write_bytes r.transition_digest
    ▸ write_bytes r.continuation_commitment
    ▸ write_bytes r.replay_nonce

-- The preimage of `domain_hash_str`.
unfoldable pub tagged_preimage : List ℕ → List ℕ → List ℕ
tagged_preimage domain payload = to_le 4 (length domain % 2 ^ 32) ++ (domain ++ payload)

-- The preimage that `policy_migration_commitment` writes.
unfoldable pub migration_payload :
    ReceiptPolicy → ReceiptPolicy → Bytes32 → Bytes32 → Bytes32 → Bytes32 → List ℕ
migration_payload previous new previous_digest new_digest transition authorization =
    []
    ▸ encode_policy previous
    ▸ encode_policy new
    ▸ write_bytes previous_digest
    ▸ write_bytes new_digest
    ▸ write_bytes transition
    ▸ write_bytes authorization

module _ (sha256 : List ℕ → Bytes32) where
  unfoldable pub domain_hash_str : List ℕ → List ℕ → Bytes32
  domain_hash_str domain payload = sha256 (tagged_preimage domain payload)

  unfoldable pub domain_hash : DomainTag → List ℕ → Bytes32
  unfolding domain_hash_str
  domain_hash tag payload = domain_hash_str (ascii tag) payload

  -- `commit::state_commitment`
  unfoldable pub commit_state : RgkStateCommitment → Bytes32
  commit_state s = domain_hash state_commitment (state_body s)

  unfoldable pub receipt_commitment : RgkReceipt → Bytes32
  receipt_commitment r = domain_hash receipt (receipt_body r)

  unfoldable pub lineage_id : List ℕ → Bytes32 → Bytes32
  lineage_id genesis_outpoint_payload asset_id =
      domain_hash lineage (genesis_outpoint_payload ++ asset_id)

  unfoldable pub derive_replay_nonce : List ℕ → Bytes32 → Bytes32
  derive_replay_nonce prev_outpoint_payload transition_digest =
      domain_hash replay_nonce (prev_outpoint_payload ++ transition_digest)

  unfoldable pub policy_migration_commitment :
      ReceiptPolicy → ReceiptPolicy → Bytes32 → Bytes32 → Bytes32 → Bytes32 → Bytes32
  policy_migration_commitment previous new previous_digest new_digest transition authorization =
      domain_hash policy_migration
        (migration_payload previous new previous_digest new_digest transition authorization)

  unfoldable pub build_policy_migration_proof : PolicyMigrationInput → PolicyMigrationProof
  build_policy_migration_proof input = record {
    previous_policy = input.previous_policy;
    new_policy = input.new_policy;
    previous_state_digest = input.previous_state_digest;
    new_state_digest = input.new_state_digest;
    transition_digest = input.transition_digest;
    authorization_commitment = input.authorization_commitment;
    migration_commitment =
        policy_migration_commitment input.previous_policy input.new_policy
          input.previous_state_digest input.new_state_digest input.transition_digest
          input.authorization_commitment;
  }
