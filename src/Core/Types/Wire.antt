-- ===== src/Core/Types/Wire.antt =====
-- The `Canonical` implementations of crates/rgk-core/src/types.rs.
use rgk.Core.Chain.{encode_chain, decode_chain}
use rgk.Core.Policy.{encode_policy, decode_policy, encode_mode, decode_mode}
use rgk.Core.Encoding.{
  Writer, ◌▸◌, Decoder, Canonical, write_u16, write_u32, write_bytes, read_u16, read_u32,
  read_array, pure, ◌>>=◌, ◌>>◌,
}
use rgk.Core.Types.{
  KaspaOutpoint, RgkAssetRef, RgkStateCommitment, RgkReceipt, validate_state, validate_receipt,
}

unfoldable pub encode_outpoint : KaspaOutpoint → Writer → Writer
encode_outpoint o w = w ▸ write_bytes o.transaction_id ▸ write_u32 o.index

unfoldable pub decode_outpoint : Decoder KaspaOutpoint
decode_outpoint = do
  txid ← read_array 32
  index ← read_u32
  pure (record { transaction_id = txid; index = index })

unfoldable pub encode_asset_ref : RgkAssetRef → Writer → Writer
encode_asset_ref a w = w ▸ write_bytes a.asset_id ▸ write_bytes a.schema_id

unfoldable pub decode_asset_ref : Decoder RgkAssetRef
decode_asset_ref = do
  asset ← read_array 32
  schema ← read_array 32
  pure (record { asset_id = asset; schema_id = schema })

unfoldable pub encode_state : RgkStateCommitment → Writer → Writer
encode_state s w =
    w
    ▸ write_u16 s.version
    ▸ encode_chain s.chain_id
    ▸ write_bytes s.covenant_id
    ▸ write_bytes s.asset_id
    ▸ write_bytes s.state_digest
    ▸ encode_policy s.receipt_policy

unfoldable pub decode_state : Decoder RgkStateCommitment
decode_state = do
  version ← read_u16
  chain ← decode_chain
  covenant ← read_array 32
  asset ← read_array 32
  digest ← read_array 32
  policy ← decode_policy
  let commitment : RgkStateCommitment = record {
    version = version;
    chain_id = chain;
    covenant_id = covenant;
    asset_id = asset;
    state_digest = digest;
    receipt_policy = policy;
  }
  validate_state commitment
  pure commitment

unfoldable pub encode_receipt : RgkReceipt → Writer → Writer
encode_receipt r w =
    w
    ▸ write_u16 r.version
    ▸ encode_chain r.chain_id
    ▸ write_bytes r.covenant_id
    ▸ encode_state r.old_state
    ▸ encode_state r.new_state
    ▸ write_bytes r.transition_digest
    ▸ write_bytes r.continuation_commitment
    ▸ encode_mode r.proof_mode
    ▸ write_bytes r.replay_nonce

unfoldable pub decode_receipt : Decoder RgkReceipt
decode_receipt = do
  version ← read_u16
  chain ← decode_chain
  covenant ← read_array 32
  old ← decode_state
  new ← decode_state
  transition ← read_array 32
  continuation ← read_array 32
  mode ← decode_mode
  nonce ← read_array 32
  let receipt : RgkReceipt = record {
    version = version;
    chain_id = chain;
    covenant_id = covenant;
    old_state = old;
    new_state = new;
    transition_digest = transition;
    continuation_commitment = continuation;
    proof_mode = mode;
    replay_nonce = nonce;
  }
  validate_receipt receipt
  pure receipt

instance abbrev pub outpoint_canonical : Canonical KaspaOutpoint
outpoint_canonical = record { encode = encode_outpoint; decode = decode_outpoint }

instance abbrev pub asset_ref_canonical : Canonical RgkAssetRef
asset_ref_canonical = record { encode = encode_asset_ref; decode = decode_asset_ref }

instance abbrev pub state_canonical : Canonical RgkStateCommitment
state_canonical = record { encode = encode_state; decode = decode_state }

instance abbrev pub receipt_canonical : Canonical RgkReceipt
receipt_canonical = record { encode = encode_receipt; decode = decode_receipt }
