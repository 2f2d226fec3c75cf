-- ===== src/Kaspa/Fixture.antt =====
-- The in-memory backend of crates/rgk-kaspa/src/lib.rs.
use rgk.Prelude.{
  ℕ, Option, none, some, List, [], ◌∷◌, Result, ok, err, ◌>>◌, BTreeMap, get, insert, Ord, ltb,
  bytes_ord, nat_eq, list_eq, zero, suc,
}
use rgk.Core.Bytes.{Bytes32, zero32}
use rgk.Core.Chain.{KaspaChainId}
use rgk.Core.Types.{KaspaOutpoint, outpoint_eq, outpoint_ord}
use rgk.Kaspa.{
  KaspaNetworkError, KaspaTip, KaspaTxSummary, SpendingInfo, KaspaUtxo, validate_script_public_key,
  KaspaChainBackend,
}

instance abbrev nat_ord : Ord ℕ
nat_ord = record { lt = ltb }

pub record FixtureBackend : Type 0 where
  pub chain : KaspaChainId
  pub tip : KaspaTip
  pub blocks : BTreeMap ℕ (BTreeMap KaspaOutpoint KaspaUtxo)
  pub spends : BTreeMap KaspaOutpoint (ℕ × Bytes32 × ℕ)
  pub txs : BTreeMap Bytes32 KaspaTxSummary
  pub balances : BTreeMap (List ℕ) ℕ
  pub failure : Option KaspaNetworkError

-- `FixtureBackend::new`
unfoldable pub new_fixture : KaspaChainId → FixtureBackend
new_fixture chain = record {
  chain = chain;
  tip = record { hash = zero32; blue_score = 0; daa_score = 0 };
  blocks = [];
  spends = [];
  txs = [];
  balances = [];
  failure = none;
}

unfoldable pub with_failure : KaspaNetworkError → FixtureBackend → FixtureBackend
with_failure e b = record b { failure = some e }

-- `entry(height).or_default()`
unfoldable pub block_at : ℕ → FixtureBackend → BTreeMap KaspaOutpoint KaspaUtxo
block_at height b = elim (get b.blocks height) [ none ↦ [] | some block ↦ block ]

unfoldable pub add_utxo_at : ℕ → KaspaUtxo → FixtureBackend → FixtureBackend
unfolding block_at
add_utxo_at height u b = record b {
  blocks = insert height (insert u.outpoint u (block_at height b)) b.blocks;
}

-- The block with the spend noted on the output, where the block has it.
unfoldable pub annotate :
    KaspaOutpoint
    → SpendingInfo
    → BTreeMap KaspaOutpoint KaspaUtxo
    → BTreeMap KaspaOutpoint KaspaUtxo
annotate outpoint info block = elim (get block outpoint) [
  | none ↦ block
  | some u ↦ insert outpoint (record u { spending = some info }) block
]

unfoldable pub annotate_all :
    KaspaOutpoint
    → SpendingInfo
    → BTreeMap ℕ (BTreeMap KaspaOutpoint KaspaUtxo)
    → BTreeMap ℕ (BTreeMap KaspaOutpoint KaspaUtxo)
unfolding annotate
annotate_all outpoint info [] = []
annotate_all outpoint info ((height, block) ∷ rest) =
    (height, annotate outpoint info block) ∷ annotate_all outpoint info rest

unfoldable pub spend_at : KaspaOutpoint → ℕ → Bytes32 → ℕ → FixtureBackend → FixtureBackend
unfolding annotate_all
spend_at outpoint height txid index b = record b {
  spends = insert outpoint (height, txid, index) b.spends;
  blocks =
      annotate_all outpoint
        (record { txid = txid; input_index = index; block_daa_score = some height }) b.blocks;
}

unfoldable pub submit : KaspaTxSummary → FixtureBackend → FixtureBackend
submit summary b = record b { txs = insert summary.txid summary b.txs }

unfoldable pub set_tip : KaspaTip → FixtureBackend → FixtureBackend
set_tip tip b = record b { tip = tip }

unfoldable pub set_balance_by_address : List ℕ → ℕ → FixtureBackend → FixtureBackend
set_balance_by_address address sompi b = record b { balances = insert address sompi b.balances }

unfoldable pub check_failure : FixtureBackend → Result KaspaNetworkError (Unit {0})
check_failure b = elim b.failure [ none ↦ ok tt | some e ↦ err e ]

-- The output in the latest block that has it: the blocks are read from the last to the first.
unfoldable pub locate :
    KaspaOutpoint → BTreeMap ℕ (BTreeMap KaspaOutpoint KaspaUtxo) → Option KaspaUtxo
locate outpoint [] = none
locate outpoint ((height, block) ∷ rest) = elim (locate outpoint rest) [
  | some u ↦ some u
  | none ↦ get block outpoint
]

-- `get_utxo`'s check of what it found.
unfoldable pub check_script : Option KaspaUtxo → Result KaspaNetworkError (Unit {0})
unfolding validate_script_public_key
check_script none = ok tt
check_script (some u) = validate_script_public_key u

-- A fixture rule: a transaction that was submitted with some mass is one block deep.
unfoldable pub depth_of_mass : ℕ → Option ℕ
depth_of_mass zero = none
depth_of_mass (suc m) = some 1

-- `impl KaspaChainBackend for FixtureBackend`
unfoldable pub fixture_backend : FixtureBackend → KaspaChainBackend
unfolding check_failure check_script locate depth_of_mass
fixture_backend b = record {
  network_id = (do check_failure b; ok b.chain);
  current_tip = (do check_failure b; ok b.tip);
  get_transaction = λ txid. (do check_failure b; ok (get b.txs txid));
  get_utxo = λ o. do
    check_failure b
    check_script (locate o b.blocks)
    ok (locate o b.blocks);
  get_spending_transaction = λ o. do
    check_failure b
    ok (elim (get b.spends o) [ none ↦ none | some (_, txid, _) ↦ get b.txs txid ]);
  confirmation_depth = λ txid. do
    check_failure b
    ok (elim (get b.txs txid) [ none ↦ none | some t ↦ depth_of_mass t.mass ]);
}

unfoldable pub balance_by_address : List ℕ → FixtureBackend → Result KaspaNetworkError ℕ
unfolding check_failure
balance_by_address address b = do
  check_failure b
  ok (elim (get b.balances address) [ none ↦ 0 | some sompi ↦ sompi ])
