-- ===== src/Resolver/Accept.antt =====
-- A receipt that the resolver verifies against the in-memory indexer, and the spend that it then brings.
use rgk.Prelude.{
  ℕ, ◌≡◌, ◌<◌, sym, ap, ◌∙◌, false, none, some, some_of, List, All, length, ok, map_err,
  map_err-eq-ok, ok_of, ok_or, ok_or-eq-ok, >>=-eq-ok, passed, ◌≟◌, nat_eq, list_eq, bool_eq,
  contains, arith,
}
use mathlib.Core.Path.{subst₂}
use rgk.Core.Bytes.{Bytes32, IsByte}
use rgk.Core.Chain.{KaspaChainId}
use rgk.Core.Encoding.{usize_mod, encode_canonical, decode_canonical}
use rgk.Core.Types.{KaspaOutpoint, RgkStateCommitment, RgkReceipt}
use rgk.Core.Types.Wire.{receipt_canonical}
use rgk.Core.Types.Codec.{IsTypedReceipt}
use rgk.Core.Types.Receipts.{decode_receipt_canonical, decode-encode_receipt}
use rgk.Core.Types.Valid.{validate_receipt_iff}
use rgk.Core.Commit.{receipt_commitment}
use rgk.Receipt.{structural, decode_failure, covenant_not_indexed, verify_local}
use rgk.Receipt.Verify.{Matches, verify_local_iff}
use rgk.Indexer.Records.{IndexedCovenant}
use rgk.Indexer.Entry.{Spend, advance_entry, apply_spend_to_entry}
use rgk.Indexer.Entry.Apply.{apply_complete}
use rgk.Indexer.Memory.{
  InMemoryIndexer, lookup, latest_state, open_outpoint, has_replay, list, lane_by_id,
  lane_by_scan_tag, public_lanes,
}
use rgk.Indexer.Memory.Reach.{IsEntry}
use rgk.Kaspa.{KaspaChainBackend}
use rgk.Resolver.{Indexer}
use rgk.Resolver.View.{verify_receipt_against_indexer}

-- `impl Indexer for InMemoryIndexer`, the lookups.
unfoldable pub in_memory : InMemoryIndexer → Indexer
unfolding lookup latest_state open_outpoint has_replay list lane_by_id lane_by_scan_tag public_lanes
in_memory s = record {
  lookup = λ c. lookup c s;
  latest_state = λ c. latest_state c s;
  open_outpoint = λ c. open_outpoint c s;
  has_replay = λ c id. has_replay c id s;
  list = list s;
  lane_by_id = λ id. lane_by_id id s;
  lane_by_scan_tag = λ t. lane_by_scan_tag t s;
  public_lanes = λ a. public_lanes a s;
}

latest_state-lookup :
    (c : Bytes32) (s : InMemoryIndexer) (e : IndexedCovenant)
    → lookup c s ≡ some e
    → latest_state c s ≡ some e.latest_state
unfolding lookup latest_state
latest_state-lookup c s e h = ground arith

has_replay-lookup :
    (c id : Bytes32) (s : InMemoryIndexer) (e : IndexedCovenant)
    → lookup c s ≡ some e
    → has_replay c id s ≡ false
    → contains e.accepted_receipts id ≡ false
unfolding lookup has_replay
has_replay-lookup c id s e h r = ground arith

encode-injective :
    (r q : RgkReceipt)
    → IsTypedReceipt r
    → IsTypedReceipt q
    → encode_canonical r ≡ encode_canonical q
    → r ≡ q
encode-injective r q h k e = ok_of (
    sym (decode-encode_receipt r h)
    ∙ ap (λ x. decode_canonical ⦃c = receipt_canonical⦄ x) e
    ∙ decode-encode_receipt q k)

-- What the resolver has checked of a receipt when it answers with the new state.
record IsVerified (sha256 : List ℕ → Bytes32) (chain : KaspaChainId) (covenant : Bytes32)
    (e : IndexedCovenant) (bytes : List ℕ) (new : RgkStateCommitment) (r : RgkReceipt)
    : Type 0 where
  encoded : bytes ≡ encode_canonical r
  typed : IsTypedReceipt r
  matches : Matches r covenant e.latest_state chain
  fresh : contains e.accepted_receipts (receipt_commitment sha256 r) ≡ false
  answer : r.new_state ≡ new

module _ (sha256 : List ℕ → Bytes32) (b : KaspaChainBackend) (s : InMemoryIndexer)
    (chain : KaspaChainId) (safety : ℕ) (covenant : Bytes32) (bytes : List ℕ)
    (new : RgkStateCommitment) (e : IndexedCovenant) where
  verify-facts :
      length bytes < usize_mod
      → All IsByte bytes
      → lookup covenant s ≡ some e
      → verify_receipt_against_indexer sha256 b (in_memory s) chain safety covenant bytes ≡ ok new
      → (r : RgkReceipt) × IsVerified sha256 chain covenant e bytes new r
  unfolding verify_receipt_against_indexer in_memory
  verify-facts fits range l h =
      let (old, p, h1) =
        >>=-eq-ok (ok_or (latest_state covenant s) (structural covenant_not_indexed)) _ h in
      let old_same : old ≡ e.latest_state =
        some_of (sym (ok_or-eq-ok _ _ p) ∙ latest_state-lookup covenant s e l) in
      let (r, q, h2) =
        >>=-eq-ok (map_err decode_failure (decode_canonical ⦃c = receipt_canonical⦄ bytes)) _ h1 in
      let decoded = map_err-eq-ok decode_failure _ q in
      let (fresh, h3) = passed (has_replay covenant (receipt_commitment sha256 r) s ≟ false) _ h2 in
      let (id, v, h4) = >>=-eq-ok (verify_local sha256 bytes covenant old chain) _ h3 in
      let (typed, same) = decode_receipt_canonical bytes r fits range decoded in
      let (r', same', typed', matches, _) =
        (verify_local_iff sha256 covenant old chain bytes id fits range).0 v in
      let one : r' ≡ r = encode-injective r' r typed' typed (sym same' ∙ sym same) in
      (
        r,
        record {
          encoded = sym same;
          typed = typed;
          matches = subst₂ (λ x y. Matches x covenant y chain) one old_same matches;
          fresh = has_replay-lookup covenant (receipt_commitment sha256 r) s e l fresh;
          answer = ok_of h4;
        },
      )

-- The spend of a receipt without proofs.
abbrev pub plain_spend : Bytes32 → KaspaOutpoint → KaspaOutpoint → RgkStateCommitment → ℕ → Spend
plain_spend id o out new daa = record {
  receipt_id = id;
  spent = o;
  new_outpoint = out;
  new_state = new;
  daa_score = daa;
  continuation = none;
  policy_migration = none;
}

-- A receipt that the resolver verifies against the in-memory indexer is one that the indexer then accepts: on the
-- covenant's chain, where the entry is under its own id and continues a lineage, the buffer is the canonical
-- encoding of a receipt with that new state, and the spend of the open outpoint under the receipt's commitment, to
-- that state and to any output at any score, is applied.
pub verified_receipt_applies :
    (sha256 : List ℕ → Bytes32) (b : KaspaChainBackend) (s : InMemoryIndexer) (chain : KaspaChainId)
    (safety : ℕ) (covenant : Bytes32) (bytes : List ℕ) (new : RgkStateCommitment)
    (e : IndexedCovenant) (o : KaspaOutpoint)
    → length bytes < usize_mod
    → All IsByte bytes
    → lookup covenant s ≡ some e
    → IsEntry covenant e
    → e.chain_id ≡ chain
    → e.open_outpoint ≡ some o
    → verify_receipt_against_indexer sha256 b (in_memory s) chain safety covenant bytes ≡ ok new
    → (r : RgkReceipt) × (bytes ≡ encode_canonical r)
      × (r.new_state ≡ new)
      × ((out : KaspaOutpoint) (daa : ℕ)
          → apply_spend_to_entry sha256 e (plain_spend (receipt_commitment sha256 r) o out new daa)
            ≡ ok (advance_entry e (plain_spend (receipt_commitment sha256 r) o out new daa)))
verified_receipt_applies sha256 b s chain safety covenant bytes new e o fits range l entry on_chain
      at h =
    let (r, v) = verify-facts sha256 b s chain safety covenant bytes new e fits range l h in
    let ok_receipt = (validate_receipt_iff r).0 v.typed.valid in
    let m = v.matches in
    let answer = v.answer in
    (
      r,
      v.encoded,
      answer,
      λ out daa.
          apply_complete sha256 e (plain_spend (receipt_commitment sha256 r) o out new daa) record {
            continued = tt;
            fresh = v.fresh;
            same_chain =
                on_chain
                ∙ sym m.same_chain
                ∙ sym ok_receipt.new_chain
                ∙ ap (λ x. x.chain_id) answer;
            same_covenant =
                entry.same
                ∙ sym m.same_covenant
                ∙ sym ok_receipt.new_covenant
                ∙ ap (λ x. x.covenant_id) answer;
            same_asset = sym m.new_asset ∙ ap (λ x. x.asset_id) answer;
            spends_open = at;
            advances =
                λ k. ok_receipt.advances (m.old_digest ∙ k ∙ ap (λ x. x.state_digest) (sym answer));
            migrated = tt;
          },
    )
