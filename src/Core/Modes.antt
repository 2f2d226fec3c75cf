-- ===== src/Core/Modes.antt =====
-- The two enums of crates/rgk-core/src/policy.rs, which errors carry too.
pub data ProofMode : Type 0 where
  verifier_receipt zk_receipt p2mr_ret : ProofMode

pub data ReceiptPolicy : Type 0 where
  any verifier_only zk_or_verifier : ReceiptPolicy
