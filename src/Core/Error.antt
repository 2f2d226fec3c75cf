-- ===== src/Core/Error.antt =====
-- crates/rgk-core/src/error.rs: `DecodeError`. The text that a `Structural` error carries is one of a
-- fixed set of messages; each is a constructor here, with the values that it formats.
use rgk.Prelude.{ℕ}
use rgk.Core.Modes.{ProofMode, ReceiptPolicy}

pub data StructuralReason : Type 0 where
  unsupported_state_version : ℕ → StructuralReason
  state_covenant_id_missing : StructuralReason
  state_asset_id_missing : StructuralReason
  state_digest_missing : StructuralReason
  unsupported_receipt_version : ℕ → StructuralReason
  chain_id_mismatch : StructuralReason
  covenant_id_mismatch : StructuralReason
  asset_id_changed : StructuralReason
  receipt_policy_changed : StructuralReason
  state_digest_unchanged : StructuralReason
  transition_digest_missing : StructuralReason
  continuation_commitment_missing : StructuralReason
  proof_mode_not_admitted : ProofMode → ReceiptPolicy → StructuralReason

pub data DecodeError : Type 0 where
  eof : DecodeError
  trailing_bytes : ℕ → DecodeError
  bad_magic : DecodeError
  unknown_version : ℕ → DecodeError
  unknown_chain : ℕ → DecodeError
  unknown_receipt_policy : ℕ → DecodeError
  unknown_proof_mode : ℕ → DecodeError
  bad_domain_tag : ℕ → ℕ → DecodeError
  blob_too_long : ℕ → ℕ → DecodeError
  invalid_utf8 : DecodeError
  hex_bad_length : ℕ → ℕ → DecodeError
  hex_bad_char : ℕ → DecodeError
  structural : StructuralReason → DecodeError
