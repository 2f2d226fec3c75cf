-- ===== src/Core/Types.antt =====
-- crates/rgk-core/src/types.rs: the objects that cross the asset / Kaspa boundary.
pub mod Wire
pub mod Codec
pub mod Receipts
pub mod Valid
use rgk.Prelude.{
  ℕ, ◌^◌, ◌<◌, ◌≡◌, refl, true, List, [], ◌∷◌, Result, ok, err, ensure, reject, ◌≟◌, PartialEq,
  nat_eq, list_eq, bool_eq, ltb, ℕ_discrete, List-discrete, Bool, Ord, lt_bytes,
}
use rgk.Prelude.Results.{◌>>◌}
use mathlib.Core.Bool
use rgk.Core.Error.{
  DecodeError, StructuralReason, structural, unsupported_state_version, state_covenant_id_missing,
  state_asset_id_missing, state_digest_missing, unsupported_receipt_version, chain_id_mismatch,
  covenant_id_mismatch, asset_id_changed, receipt_policy_changed, state_digest_unchanged,
  transition_digest_missing, continuation_commitment_missing, proof_mode_not_admitted,
}
use rgk.Core.Bytes.{Bytes32, zero32}
use rgk.Core.Chain.{KaspaChainId, chain_eq, KaspaChainId-discrete}
use rgk.Core.Policy.{ProofMode, ReceiptPolicy, mode_eq, policy_eq, admits, ReceiptPolicy-discrete}
use rgk.Core.Encoding.{encoding_version}

pub record RgkAssetRef : Type 0 where
  pub asset_id : Bytes32
  pub schema_id : Bytes32

pub record KaspaOutpoint : Type 0 where
  pub transaction_id : Bytes32
  pub index : ℕ

abbrev pub null_outpoint : KaspaOutpoint
null_outpoint = record { transaction_id = zero32; index = 0 }

pub record PolicyMigrationInput : Type 0 where
  pub previous_policy : ReceiptPolicy
  pub new_policy : ReceiptPolicy
  pub previous_state_digest : Bytes32
  pub new_state_digest : Bytes32
  pub transition_digest : Bytes32
  pub authorization_commitment : Bytes32

pub record PolicyMigrationProof : Type 0 where
  pub previous_policy : ReceiptPolicy
  pub new_policy : ReceiptPolicy
  pub previous_state_digest : Bytes32
  pub new_state_digest : Bytes32
  pub transition_digest : Bytes32
  pub authorization_commitment : Bytes32
  pub migration_commitment : Bytes32

pub record RgkStateCommitment : Type 0 where
  pub version : ℕ
  pub chain_id : KaspaChainId
  pub covenant_id : Bytes32
  pub asset_id : Bytes32
  pub state_digest : Bytes32
  pub receipt_policy : ReceiptPolicy

pub record RgkReceipt : Type 0 where
  pub version : ℕ
  pub chain_id : KaspaChainId
  pub covenant_id : Bytes32
  pub old_state : RgkStateCommitment
  pub new_state : RgkStateCommitment
  pub transition_digest : Bytes32
  pub continuation_commitment : Bytes32
  pub proof_mode : ProofMode
  pub replay_nonce : Bytes32

unfoldable pub Bytes32-discrete : Discrete Bytes32
Bytes32-discrete = List-discrete ℕ_discrete

-- The derived order: the transaction id, then the index.
unfoldable pub lt_outpoint : KaspaOutpoint → KaspaOutpoint → Bool
lt_outpoint o p = elim (o.transaction_id ≟ p.transaction_id) [
  | yes _ ↦ ltb o.index p.index
  | no _ ↦ lt_bytes o.transaction_id p.transaction_id
]

instance abbrev pub outpoint_ord : Ord KaspaOutpoint
outpoint_ord = record { lt = lt_outpoint }

unfoldable pub KaspaOutpoint-discrete : Discrete KaspaOutpoint
KaspaOutpoint-discrete = hlevel (Bytes32-discrete, ℕ_discrete)

unfoldable pub RgkStateCommitment-discrete : Discrete RgkStateCommitment
RgkStateCommitment-discrete =
    hlevel (Bytes32-discrete, ℕ_discrete, KaspaChainId-discrete, ReceiptPolicy-discrete)

instance abbrev pub outpoint_eq : PartialEq KaspaOutpoint
outpoint_eq = record { dec_eq = KaspaOutpoint-discrete }

instance abbrev pub state_eq : PartialEq RgkStateCommitment
state_eq = record { dec_eq = RgkStateCommitment-discrete }

-- `RgkStateCommitment::validate_structure`
unfoldable pub validate_state : RgkStateCommitment → Result DecodeError (Unit {0})
validate_state s = do
  ensure (s.version ≟ encoding_version) (structural (unsupported_state_version s.version))
  reject (s.covenant_id ≟ zero32) (structural state_covenant_id_missing)
  reject (s.asset_id ≟ zero32) (structural state_asset_id_missing)
  reject (s.state_digest ≟ zero32) (structural state_digest_missing)
  ok tt

-- `RgkStateCommitment::new`
unfoldable pub new_state_commitment :
    KaspaChainId
    → Bytes32
    → Bytes32
    → Bytes32
    → ReceiptPolicy
    → Result DecodeError RgkStateCommitment
unfolding validate_state
new_state_commitment chain covenant asset digest policy =
    let commitment : RgkStateCommitment = record {
      version = encoding_version;
      chain_id = chain;
      covenant_id = covenant;
      asset_id = asset;
      state_digest = digest;
      receipt_policy = policy;
    } in
    validate_state commitment >> ok commitment

-- `RgkReceipt::validate_structure`
unfoldable pub validate_receipt : RgkReceipt → Result DecodeError (Unit {0})
validate_receipt r = do
  ensure (r.version ≟ encoding_version) (structural (unsupported_receipt_version r.version))
  validate_state r.old_state
  validate_state r.new_state
  ensure (r.old_state.chain_id ≟ r.chain_id) (structural chain_id_mismatch)
  ensure (r.new_state.chain_id ≟ r.chain_id) (structural chain_id_mismatch)
  ensure (r.old_state.covenant_id ≟ r.covenant_id) (structural covenant_id_mismatch)
  ensure (r.new_state.covenant_id ≟ r.covenant_id) (structural covenant_id_mismatch)
  ensure (r.old_state.asset_id ≟ r.new_state.asset_id) (structural asset_id_changed)
  ensure (r.old_state.receipt_policy ≟ r.new_state.receipt_policy)
      (structural receipt_policy_changed)
  reject (r.old_state.state_digest ≟ r.new_state.state_digest) (structural state_digest_unchanged)
  reject (r.transition_digest ≟ zero32) (structural transition_digest_missing)
  reject (r.continuation_commitment ≟ zero32) (structural continuation_commitment_missing)
  ensure (admits r.old_state.receipt_policy r.proof_mode ≟ true)
      (structural (proof_mode_not_admitted r.proof_mode r.old_state.receipt_policy))
  ok tt

-- `RgkReceipt::new`
unfoldable pub new_receipt :
    KaspaChainId
    → Bytes32
    → RgkStateCommitment
    → RgkStateCommitment
    → Bytes32
    → Bytes32
    → ProofMode
    → Bytes32
    → Result DecodeError RgkReceipt
new_receipt chain covenant old new transition continuation mode nonce =
    let receipt : RgkReceipt = record {
      version = encoding_version;
      chain_id = chain;
      covenant_id = covenant;
      old_state = old;
      new_state = new;
      transition_digest = transition;
      continuation_commitment = continuation;
      proof_mode = mode;
      replay_nonce = nonce;
    } in
    validate_receipt receipt >> ok receipt
