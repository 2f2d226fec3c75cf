-- ===== src/Indexer/Store/Others.antt =====
-- Lanes, observed spends and scan cursors are read back from the store.
use rgk.Prelude.{
  ℕ, ◌<◌, ◌^◌, ◌≡◌, refl, sym, subst, ◌∙◌, Bool, true, false, List, [], ◌++◌, length, length-append,
  All-join, append_assoc, append-nil, Result, ok, ensure-of, ◌≟◌, list_eq, nat_eq, arith,
}
use rgk.Core.Bytes.{IsByte, IsBytes}
use rgk.Core.Chain.{encode_chain}
use rgk.Core.Encoding.{
  Writer, Reader, reader, advance, to_le, usize_mod, write_u8, write_u32, write_u64, write_bytes,
  write_bool, read_array,
}
use rgk.Core.Encoding.Laws.{IsInMemory, rest_of-advance, advance-Took}
use rgk.Core.Encoding.Codec.{array-IsCodec}
use rgk.Core.Types.Codec.{chain_bytes, outpoint_bytes}
use rgk.Indexer.Records.{IndexerError, IndexedLane, ObservedSpendRecord, ScanCursor}
use rgk.Indexer.Store.Scan.{
  Scan, read, bool_bytes, option_bytes, IfSome, Restores, Restores-bind, Restores-read,
  Restores-pure, Restores-optional, Restores-bool,
}
use rgk.Indexer.Store.{
  indexed_lane_magic, observed_spend_magic, scan_cursor_magic, encode_indexed_lane,
  encode_observed_spend_record, encode_scan_cursor,
}
use rgk.Indexer.Store.Decode.{
  decode_stored, decode_lane_fields, check_stored_lane, decode_indexed_lane, decode_observed_fields,
  decode_observed_spend_record, decode_cursor_fields, decode_scan_cursor,
}
use rgk.Indexer.Store.Fields.{
  bytes32-Restores, u32-Restores, u64-Restores, chain-Restores, IsTypedOutpoint, outpoint-Restores,
}
use rgk.Indexer.Store.Spends.{write_option-append}
use rgk.Indexer.Store.Covenants.{finished_lem}

module _ {A : Type 0} (magic : List ℕ) (bad : IndexerError) (fields : Scan A)
    (check : A → Result IndexerError (Unit {0})) where
  decode_stored_lem :
      (a : A) (bs : List ℕ)
      → IsBytes 8 magic
      → Restores fields a bs
      → check a ≡ ok tt
      → length (magic ++ bs) < usize_mod
      → decode_stored magic bad fields check (magic ++ bs) ≡ ok a
  unfolding decode_stored
  decode_stored_lem a bs m h good fits =
      let start : Reader = reader (magic ++ bs) in
      let after : Reader = advance (length magic) start in
      let first = Restores-read ((array-IsCodec 8).reads magic m) m.bytes in
      let memory : IsInMemory start = record {
        inside = omega arith;
        fits = fits;
        bytes = All-join IsByte magic bs m.bytes h.bytes;
      } in
      let read_magic = first.at start bs memory refl in
      let read_fields =
        h.at after [] (advance-Took start magic bs memory refl).still
          (rest_of-advance start magic bs refl ∙ sym (append-nil bs)) in
      rw
        (
          read_magic,
          ensure-of (magic ≟ magic) bad refl,
          read_fields,
          finished_lem (advance (length bs) after) (omega (arith, length-append magic bs)),
          good,
        )
        refl

-- A cursor whose fields have the widths of their types is read back.
decode-encode_scan_cursor :
    (c : ScanCursor)
    → IsBytes 32 c.block_hash
    → c.daa_score < 256 ^ 8
    → length (encode_scan_cursor c) < usize_mod
    → decode_scan_cursor (encode_scan_cursor c) ≡ ok c
unfolding decode_scan_cursor decode_cursor_fields encode_scan_cursor write_bytes encode_chain
    write_u8 write_u64
decode-encode_scan_cursor c hash daa fits =
    let bytes = chain_bytes c.chain_id ++ (c.block_hash ++ (to_le 8 c.daa_score ++ [])) in
    let same : encode_scan_cursor c ≡ scan_cursor_magic ++ bytes =
      simp (append_assoc, append-nil) in
    rw same (
      decode_stored_lem scan_cursor_magic _ decode_cursor_fields (λ _. ok tt) c bytes
        (record { width = refl; bytes = omega arith })
        (Restores-bind _ _ (chain-Restores c.chain_id) (
          Restores-bind _ _ (bytes32-Restores c.block_hash hash)
            (Restores-bind _ _ (u64-Restores c.daa_score daa) (Restores-pure c))))
        refl (subst (λ b. length b < usize_mod) same fits))

record IsTypedLane (l : IndexedLane) : Type 0 where
  pub covenant_id : IsBytes 32 l.covenant_id
  pub asset_id : IsBytes 32 l.asset_id
  pub lane_id : IsBytes 32 l.lane_id
  pub epoch : l.epoch < 256 ^ 8
  pub scan_tag : IfSome (IsBytes 32) (λ b. b) l.scan_tag
  pub state_digest : IsBytes 32 l.state_digest
  pub last_update_daa_score : l.last_update_daa_score < 256 ^ 8

write_bool-append : (b : Bool) (w : Writer) → write_bool b w ≡ w ++ bool_bytes b
unfolding write_bool write_u8
write_bool-append true w = refl
write_bool-append false w = refl

write_bytes-append : (b : List ℕ) (w : Writer) → write_bytes b w ≡ w ++ b
unfolding write_bytes
write_bytes-append b w = refl

write_u64-append : (v : ℕ) (w : Writer) → write_u64 v w ≡ w ++ to_le 8 v
unfolding write_u64
write_u64-append v w = refl

-- A lane whose fields have the widths of their types, and whose id, digest and tag are not zero, is read back.
decode-encode_indexed_lane :
    (l : IndexedLane)
    → IsTypedLane l
    → check_stored_lane l ≡ ok tt
    → length (encode_indexed_lane l) < usize_mod
    → decode_indexed_lane (encode_indexed_lane l) ≡ ok l
unfolding decode_indexed_lane decode_lane_fields encode_indexed_lane write_bytes encode_chain
    write_u8 write_u64
decode-encode_indexed_lane l t good fits =
    let bytes =
      chain_bytes l.chain_id
      ++ (l.covenant_id
          ++ (l.asset_id
              ++ (l.lane_id
                  ++ (to_le 8 l.epoch
                      ++ (option_bytes (IsBytes 32) (λ b. b) l.scan_tag
                          ++ (bool_bytes l.public_lineage
                              ++ (l.state_digest
                                  ++ (to_le 8 l.last_update_daa_score ++ [])))))))) in
    let same : encode_indexed_lane l ≡ indexed_lane_magic ++ bytes = simp (
      write_option-append (IsBytes 32) write_bytes (λ b. b) write_bytes-append,
      write_bool-append,
      append_assoc,
      append-nil,
    ) in
    rw same (
      decode_stored_lem indexed_lane_magic _ decode_lane_fields check_stored_lane l bytes
        (record { width = refl; bytes = omega arith })
        (Restores-bind _ _ (chain-Restores l.chain_id) (
          Restores-bind _ _ (bytes32-Restores l.covenant_id t.covenant_id) (
            Restores-bind _ _ (bytes32-Restores l.asset_id t.asset_id) (
              Restores-bind _ _ (bytes32-Restores l.lane_id t.lane_id) (
                Restores-bind _ _ (u64-Restores l.epoch t.epoch) (
                  Restores-bind _ _
                    (Restores-optional (IsBytes 32) (λ b. b) (read (read_array 32)) bytes32-Restores
                      l.scan_tag t.scan_tag)
                    (Restores-bind _ _ (Restores-bool l.public_lineage) (
                      Restores-bind _ _ (bytes32-Restores l.state_digest t.state_digest) (
                        Restores-bind _ _
                          (u64-Restores l.last_update_daa_score t.last_update_daa_score)
                          (Restores-pure l))))))))))
        good (subst (λ b. length b < usize_mod) same fits))

record IsTypedObserved (r : ObservedSpendRecord) : Type 0 where
  pub spent : IsTypedOutpoint r.spent
  pub spending_txid : IsBytes 32 r.spending_txid
  pub input_index : r.input_index < 256 ^ 4
  pub block_daa_score : IfSome (λ v. v < 256 ^ 8) (to_le 8) r.block_daa_score

-- An observed spend whose fields have the widths of their types is read back.
decode-encode_observed_spend_record :
    (r : ObservedSpendRecord)
    → IsTypedObserved r
    → length (encode_observed_spend_record r) < usize_mod
    → decode_observed_spend_record (encode_observed_spend_record r) ≡ ok r
unfolding decode_observed_spend_record decode_observed_fields encode_observed_spend_record
    write_bytes write_u32
decode-encode_observed_spend_record r t fits =
    let bytes =
      outpoint_bytes r.spent
      ++ (r.spending_txid
          ++ (to_le 4 r.input_index
              ++ (option_bytes (λ v. v < 256 ^ 8) (to_le 8) r.block_daa_score ++ []))) in
    let same : encode_observed_spend_record r ≡ observed_spend_magic ++ bytes = simp (
      write_option-append (λ v. v < 256 ^ 8) write_u64 (to_le 8) write_u64-append,
      append_assoc,
      append-nil,
    ) in
    rw same (
      decode_stored_lem observed_spend_magic _ decode_observed_fields (λ _. ok tt) r bytes
        (record { width = refl; bytes = omega arith })
        (Restores-bind _ _ (outpoint-Restores r.spent t.spent) (
          Restores-bind _ _ (bytes32-Restores r.spending_txid t.spending_txid) (
            Restores-bind _ _ (u32-Restores r.input_index t.input_index) (
              Restores-bind _ _
                (Restores-optional (λ v. v < 256 ^ 8) (to_le 8) _ u64-Restores r.block_daa_score
                  t.block_daa_score)
                (Restores-pure r)))))
        refl (subst (λ b. length b < usize_mod) same fits))
