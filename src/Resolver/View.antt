-- ===== src/Resolver/View.antt =====
-- The other lookups of crates/rgk-resolver/src/lib.rs: by asset, lane, view key, scan tag and transition, and
-- the check of a receipt against the indexer.
use rgk.Prelude.{
  ℕ, Bool, false, ◌||◌, not, Option, none, some, List, [], ◌∷◌, map, Result, ok, map_err, ensure,
  ok_or, ◌>>=◌, ◌>>◌, ◌≟◌, nat_eq, list_eq, bool_eq, equals, if◌then◌else◌,
}
use rgk.Core.Bytes.{Bytes32, zero32}
use rgk.Core.Chain.{KaspaChainId}
use rgk.Core.Encoding.{decode_canonical}
use rgk.Core.Types.{RgkStateCommitment}
use rgk.Core.Types.Wire.{receipt_canonical}
use rgk.Core.Commit.{receipt_commitment}
use rgk.Receipt.{
  ReceiptError, structural, decode_failure, replay, covenant_not_indexed, verify_local,
}
use rgk.Indexer.Records.{ContinuationProof, SpendEntry, IndexedLane}
use rgk.Asset.{derive_blinded_lane_id, derive_scan_tag}
use rgk.Kaspa.{KaspaChainBackend}
use rgk.Resolver.{
  Indexer, ResolverState, unknown, LaneResolverState, lane_resolved, unknown_lane, unknown_scan_tag,
  TransitionResolverState, transition_resolved, unknown_transition, resolve_by_covenant,
}

-- The first spend whose continuation proof has the digest.
unfoldable pub proves : Bytes32 → Option ContinuationProof → Bool
proves digest none = false
proves digest (some p) = equals p.transition_digest digest

unfoldable pub find_transition : Bytes32 → List SpendEntry → Option SpendEntry
unfolding proves
find_transition digest [] = none
find_transition digest (s ∷ ss) =
    let rest = find_transition digest ss in if proves digest s.continuation then some s else rest

module _ (sha256 : List ℕ → Bytes32) (b : KaspaChainBackend) (i : Indexer) (chain : KaspaChainId)
    (safety : ℕ) where
  unfoldable pub resolve_asset_in : Bytes32 → List Bytes32 → ResolverState
  resolve_asset_in asset [] = unknown zero32
  resolve_asset_in asset (c ∷ cs) =
      let rest = resolve_asset_in asset cs in
      elim (i.latest_state c) [
        | none ↦ rest
        | some s ↦
            if equals s.asset_id asset then resolve_by_covenant sha256 b i chain safety c else rest
      ]

  unfoldable pub resolve_by_asset : Bytes32 → ResolverState
  unfolding resolve_asset_in
  resolve_by_asset asset = resolve_asset_in asset i.list

  unfoldable pub resolve_indexed_lane : IndexedLane → LaneResolverState
  resolve_indexed_lane l =
      lane_resolved l (resolve_by_covenant sha256 b i chain safety l.covenant_id)

  unfoldable pub resolve_lane : Bytes32 → LaneResolverState
  resolve_lane id = elim (i.lane_by_id id) [
    | none ↦ unknown_lane id
    | some l ↦ resolve_indexed_lane l
  ]

  -- `is_some_and(|tag| tag != expected)`
  unfoldable pub other_tag : Option Bytes32 → Bytes32 → Bool
  other_tag none expected = false
  other_tag (some tag) expected = not (equals tag expected)

  unfoldable pub resolve_by_view_key : Bytes32 → Bytes32 → ℕ → LaneResolverState
  unfolding other_tag
  resolve_by_view_key view_key asset epoch =
      let id = derive_blinded_lane_id sha256 view_key asset epoch in
      elim (i.lane_by_id id) [
        | none ↦ unknown_lane id
        | some l ↦
            if not (equals l.asset_id asset) || not (equals l.epoch epoch)
            then unknown_lane id
            else if other_tag l.scan_tag (derive_scan_tag sha256 view_key id epoch)
            then unknown_lane id
            else resolve_indexed_lane l
      ]

  unfoldable pub resolve_by_scan_tag : Bytes32 → LaneResolverState
  resolve_by_scan_tag tag = elim (i.lane_by_scan_tag tag) [
    | none ↦ unknown_scan_tag tag
    | some l ↦ resolve_indexed_lane l
  ]

  unfoldable pub resolve_public_lineage : Bytes32 → List LaneResolverState
  resolve_public_lineage asset = map resolve_indexed_lane (i.public_lanes asset)

  unfoldable pub transition_in : Bytes32 → List Bytes32 → TransitionResolverState
  unfolding find_transition
  transition_in digest [] = unknown_transition digest
  transition_in digest (c ∷ cs) =
      let rest = transition_in digest cs in
      elim (i.lookup c) [
        | none ↦ rest
        | some e ↦ elim (find_transition digest e.spend_history) [
          | none ↦ rest
          | some s ↦
              transition_resolved digest c s.receipt_id
                (resolve_by_covenant sha256 b i chain safety c)
        ]
      ]

  unfoldable pub resolve_transition : Bytes32 → TransitionResolverState
  unfolding transition_in
  resolve_transition digest = transition_in digest i.list

  unfoldable pub verify_receipt_against_indexer :
      Bytes32 → List ℕ → Result ReceiptError RgkStateCommitment
  verify_receipt_against_indexer covenant bytes = do
    old ← ok_or (i.latest_state covenant) (structural covenant_not_indexed)
    receipt ← map_err decode_failure (decode_canonical ⦃c = receipt_canonical⦄ bytes)
    ensure (i.has_replay covenant (receipt_commitment sha256 receipt) ≟ false)
        (replay (receipt_commitment sha256 receipt))
    _ ← verify_local sha256 bytes covenant old chain
    ok receipt.new_state
