-- ===== src/Kaspa.antt =====
-- crates/rgk-kaspa/src/lib.rs: the chain backend that the resolver reads, its types and its errors.
pub mod Fixture
use rgk.Prelude.{ℕ, ◌^◌, ◌≤◌, ◌+◌, Option, List, length, Result, ok, ensure, dec_le, ◌>>=◌, ◌>>◌}
use rgk.Core.Bytes.{Bytes32}
use rgk.Core.Chain.{KaspaChainId}
use rgk.Core.Types.{KaspaOutpoint}

-- A text is its bytes; the `i64` code of a node's error is its bit pattern.
pub data KaspaNetworkError : Type 0 where
  node_unavailable unsupported_toccata_feature bad_rpc budget_exceeded invariant :
      List ℕ → KaspaNetworkError
  wrong_network : KaspaChainId → KaspaChainId → KaspaNetworkError
  script_public_key_too_long : ℕ → ℕ → KaspaNetworkError
  rpc_error : ℕ → List ℕ → KaspaNetworkError
  timeout confirmed reorg_risk : ℕ → KaspaNetworkError
  not_found unconfirmed pruned : KaspaNetworkError

pub data ResolverClassify : Type 0 where
  is_not_found is_unconfirmed is_confirmed is_pruned is_reorg_risk is_node_down is_wrong_network :
      ResolverClassify
  is_unsupported_feature is_rpc_failure is_budget_exceeded is_invariant : ResolverClassify

unfoldable pub classify : KaspaNetworkError → ResolverClassify
classify (node_unavailable _) = is_node_down
classify (wrong_network _ _) = is_wrong_network
classify (unsupported_toccata_feature _) = is_unsupported_feature
classify (bad_rpc _) = is_rpc_failure
classify (rpc_error _ _) = is_rpc_failure
classify (timeout _) = is_rpc_failure
classify not_found = is_not_found
classify unconfirmed = is_unconfirmed
classify (confirmed _) = is_confirmed
classify pruned = is_pruned
classify (reorg_risk _) = is_reorg_risk
classify (budget_exceeded _) = is_budget_exceeded
classify (invariant _) = is_invariant
classify (script_public_key_too_long _ _) = is_invariant

-- `MAX_SCRIPT_PUBLIC_KEY_BYTES`
abbrev pub max_script_public_key_bytes : ℕ
max_script_public_key_bytes = 65537

pub record KaspaScriptPublicKey : Type 0 where
  pub bytes : List ℕ

-- `KaspaScriptPublicKey::new`
unfoldable pub new_script_public_key : List ℕ → Result KaspaNetworkError KaspaScriptPublicKey
new_script_public_key bytes = do
  ensure (dec_le (length bytes) max_script_public_key_bytes)
      (script_public_key_too_long (length bytes) max_script_public_key_bytes)
  ok (record { bytes = bytes })

pub record KaspaTip : Type 0 where
  pub hash : Bytes32
  pub blue_score : ℕ
  pub daa_score : ℕ

pub record KaspaTxSummary : Type 0 where
  pub txid : Bytes32
  pub mass : ℕ
  pub payload : List ℕ

pub record SpendingInfo : Type 0 where
  pub txid : Bytes32
  pub input_index : ℕ
  pub block_daa_score : Option ℕ

pub record KaspaUtxo : Type 0 where
  pub outpoint : KaspaOutpoint
  pub value : ℕ
  pub script_public_key : KaspaScriptPublicKey
  pub block_daa_score : Option ℕ
  pub spending : Option SpendingInfo

-- `KaspaUtxo::new`
unfoldable pub new_utxo :
    KaspaOutpoint → ℕ → List ℕ → Option ℕ → Option SpendingInfo → Result KaspaNetworkError KaspaUtxo
unfolding new_script_public_key
new_utxo outpoint value script score spending = do
  key ← new_script_public_key script
  ok (record {
    outpoint = outpoint;
    value = value;
    script_public_key = key;
    block_daa_score = score;
    spending = spending;
  })

-- `KaspaUtxo::validate_script_public_key`
unfoldable pub validate_script_public_key : KaspaUtxo → Result KaspaNetworkError (Unit {0})
unfolding new_script_public_key
validate_script_public_key u = do _ ← new_script_public_key u.script_public_key.bytes; ok tt

-- `KaspaChainBackend`, less submission: what the node answers at the moment of the call.
pub record KaspaChainBackend : Type 0 where
  pub network_id : Result KaspaNetworkError KaspaChainId
  pub current_tip : Result KaspaNetworkError KaspaTip
  pub get_transaction : Bytes32 → Result KaspaNetworkError (Option KaspaTxSummary)
  pub get_utxo : KaspaOutpoint → Result KaspaNetworkError (Option KaspaUtxo)
  pub get_spending_transaction : KaspaOutpoint → Result KaspaNetworkError (Option KaspaTxSummary)
  pub confirmation_depth : Bytes32 → Result KaspaNetworkError (Option ℕ)
