-- ===== src/Core/Policy.antt =====
-- crates/rgk-core/src/policy.rs: `ProofMode` and `ReceiptPolicy`.
pub mod Codec
use rgk.Prelude.{
  ℕ, Bool, true, false, Option, none, some, List, [], ◌∷◌, codes, ◌==◌, if◌then◌else◌, ensure,
  ok_or, ◌≟◌, nat_eq, PartialEq,
}
pub use rgk.Core.Modes.{
  ProofMode, verifier_receipt, zk_receipt, p2mr_ret, ReceiptPolicy, any, verifier_only,
  zk_or_verifier,
}
use rgk.Core.Error.{bad_domain_tag, unknown_proof_mode, unknown_receipt_policy}
use rgk.Core.Encoding.{Writer, ◌▸◌, write_u8, Decoder, ◌>>=◌, ◌>>◌, read_u8, lift, Canonical}

unfoldable pub ProofMode-discrete : Discrete ProofMode
ProofMode-discrete = hlevel

unfoldable pub ReceiptPolicy-discrete : Discrete ReceiptPolicy
ReceiptPolicy-discrete = hlevel

instance abbrev pub mode_eq : PartialEq ProofMode
mode_eq = record { dec_eq = ProofMode-discrete }

instance abbrev pub policy_eq : PartialEq ReceiptPolicy
policy_eq = record { dec_eq = ReceiptPolicy-discrete }

-- The two `TAG`s, 'P' and 'R'.
abbrev pub mode_tag : ℕ
mode_tag = 0x50

abbrev pub policy_tag : ℕ
policy_tag = 0x52

unfoldable pub mode_as_u8 : ProofMode → ℕ
mode_as_u8 verifier_receipt = 0x01
mode_as_u8 zk_receipt = 0x02
mode_as_u8 p2mr_ret = 0x03

unfoldable pub mode_from_tag : ℕ → Option ProofMode
mode_from_tag tag =
    if tag == 0x01
    then some verifier_receipt
    else if tag == 0x02
    then some zk_receipt
    else if tag == 0x03
    then some p2mr_ret
    else none

unfoldable pub mode_domain_str : ProofMode → List ℕ
mode_domain_str verifier_receipt = codes "verifier-receipt"
mode_domain_str zk_receipt = codes "zk-receipt"
mode_domain_str p2mr_ret = codes "p2mr-ret"

unfoldable pub encode_mode : ProofMode → Writer → Writer
encode_mode m w = w ▸ write_u8 mode_tag ▸ write_u8 (mode_as_u8 m)

unfoldable pub decode_mode : Decoder ProofMode
decode_mode = read_u8 >>= λ tag.
    ensure (tag ≟ mode_tag) (bad_domain_tag mode_tag tag)
    >> (read_u8 >>= λ val. lift (ok_or (mode_from_tag val) (unknown_proof_mode val)))

instance abbrev pub mode_canonical : Canonical ProofMode
mode_canonical = record { encode = encode_mode; decode = decode_mode }

unfoldable pub policy_as_u8 : ReceiptPolicy → ℕ
policy_as_u8 any = 0x01
policy_as_u8 verifier_only = 0x02
policy_as_u8 zk_or_verifier = 0x03

unfoldable pub policy_from_tag : ℕ → Option ReceiptPolicy
policy_from_tag tag =
    if tag == 0x01
    then some any
    else if tag == 0x02
    then some verifier_only
    else if tag == 0x03
    then some zk_or_verifier
    else none

unfoldable pub admits : ReceiptPolicy → ProofMode → Bool
admits any _ = true
admits verifier_only verifier_receipt = true
admits verifier_only _ = false
admits zk_or_verifier p2mr_ret = false
admits zk_or_verifier _ = true

unfoldable pub policy_domain_str : ReceiptPolicy → List ℕ
policy_domain_str any = codes "any"
policy_domain_str verifier_only = codes "verifier-only"
policy_domain_str zk_or_verifier = codes "zk-or-verifier"

unfoldable pub encode_policy : ReceiptPolicy → Writer → Writer
encode_policy p w = w ▸ write_u8 policy_tag ▸ write_u8 (policy_as_u8 p)

unfoldable pub decode_policy : Decoder ReceiptPolicy
decode_policy = read_u8 >>= λ tag.
    ensure (tag ≟ policy_tag) (bad_domain_tag policy_tag tag)
    >> (read_u8 >>= λ val. lift (ok_or (policy_from_tag val) (unknown_receipt_policy val)))

instance abbrev pub policy_canonical : Canonical ReceiptPolicy
policy_canonical = record { encode = encode_policy; decode = decode_policy }
