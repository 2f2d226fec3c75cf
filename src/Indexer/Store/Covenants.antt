-- ===== src/Indexer/Store/Covenants.antt =====
-- The entry of a covenant is written and read back.
use rgk.Prelude.{
  ℕ, ◌<◌, ◌^◌, ◌%◌, ◌≡◌, refl, sym, ap, ◌∙◌, true, List, [], ◌∷◌, ◌++◌, length, All, All-join,
  append_assoc, append-nil, ok, ensure-of, ◌≟◌, list_eq, nat_eq, arith,
}
unfoldable use rgk.Prelude.{ℕ_discrete}
unfoldable use rgk.Prelude.Equality.{List-discrete}
use rgk.Core.Bytes.{Bytes32, IsByte, IsBytes}
use rgk.Core.Chain.{encode_chain, chain_eq}
use rgk.Core.Encoding.{
  Writer, Reader, reader, advance, to_le, usize_mod, write_u8, write_u16, write_u32, write_u64,
  write_bytes, ensure_consumed, read_array,
}
use rgk.Core.Encoding.Laws.{IsInMemory, rest_of-advance, advance-Took}
use rgk.Core.Encoding.Codec.{array-IsCodec}
use rgk.Core.Types.Wire.{encode_outpoint}
use rgk.Core.Types.Codec.{chain_bytes, outpoint_bytes, state_bytes, IsTypedState}
use rgk.Indexer.Records.{SpendEntry, IndexedCovenant, storage, state_key_mismatch}
use rgk.Indexer.Store.Scan.{
  option_bytes, IfSome, list_bytes, Restores, Restores-bind, Restores-read, Restores-pure,
  Restores-optional, Restores-list, read,
}
use rgk.Indexer.Store.{
  indexed_covenant_magic, write_receipts, write_spends, encode_indexed_covenant,
}
use rgk.Indexer.Store.Decode.{
  decode_spend, decode_covenant_fields, finished, covenant_version, decode_indexed_covenant,
}
use rgk.Indexer.Store.Fields.{
  bytes32-Restores, u32-Restores, u64-Restores, chain-Restores, state-Restores, IsTypedOutpoint,
  outpoint-Restores,
}
use rgk.Indexer.Store.Spends.{
  spend_bytes, IsStoredSpend, spend-Restores, write_option-append, encode_outpoint-append,
  write_spend-append,
}

pub finished_lem : (r : Reader) → r.pos ≡ length r.buf → finished r ≡ ok tt
unfolding finished ensure_consumed
finished_lem r h = rw (finished, ensure_consumed, ensure-of (r.pos ≟ length r.buf) _ h) refl

module _ (sha256 : List ℕ → Bytes32) where
  -- The fields of an entry have the widths of their types, its spends are such as can be stored, and its state
  -- is of its chain and covenant.
  pub record IsStored (e : IndexedCovenant) : Type 0 where
    pub covenant_id : IsBytes 32 e.covenant_id
    pub lineage_id : IsBytes 32 e.lineage_id
    pub open_outpoint : IfSome IsTypedOutpoint outpoint_bytes e.open_outpoint
    pub latest_state : IsTypedState e.latest_state
    pub receipts : All (IsBytes 32) e.accepted_receipts
    pub receipt_count : length e.accepted_receipts < 256 ^ 4
    pub spends : All (IsStoredSpend sha256) e.spend_history
    pub spend_count : length e.spend_history < 256 ^ 4
    pub last_update_daa_score : e.last_update_daa_score < 256 ^ 8
    pub same_covenant : e.latest_state.covenant_id ≡ e.covenant_id
    pub same_chain : e.latest_state.chain_id ≡ e.chain_id

  abbrev field_bytes : IndexedCovenant → List ℕ
  field_bytes e =
      e.covenant_id
      ++ (e.lineage_id
          ++ (chain_bytes e.chain_id
              ++ (option_bytes IsTypedOutpoint outpoint_bytes e.open_outpoint
                  ++ (state_bytes e.latest_state
                      ++ (to_le 4 (length e.accepted_receipts)
                          ++ (list_bytes (IsBytes 32) (λ b. b) e.accepted_receipts
                              ++ (to_le 4 (length e.spend_history)
                                  ++ (list_bytes (IsStoredSpend sha256) spend_bytes e.spend_history
                                      ++ (to_le 8 e.last_update_daa_score ++ [])))))))))

  -- The format: the magic bytes, the fields in order, a byte before what may be absent, and the number of
  -- receipts and of spends before them.
  abbrev pub covenant_bytes : IndexedCovenant → List ℕ
  covenant_bytes e = indexed_covenant_magic ++ field_bytes e

  fields-Restores :
      (e : IndexedCovenant)
      → IsStored e
      → Restores (decode_covenant_fields sha256 true) e (field_bytes e)
  unfolding decode_covenant_fields
  fields-Restores e t = Restores-bind _ _ (bytes32-Restores e.covenant_id t.covenant_id) (
      Restores-bind _ _ (bytes32-Restores e.lineage_id t.lineage_id) (
        Restores-bind _ _ (chain-Restores e.chain_id) (
          Restores-bind _ _
            (Restores-optional IsTypedOutpoint outpoint_bytes _ outpoint-Restores e.open_outpoint
              t.open_outpoint)
            (Restores-bind _ _ (state-Restores e.latest_state t.latest_state) (
              Restores-bind _ _ (u32-Restores (length e.accepted_receipts) t.receipt_count) (
                Restores-bind _ _
                  (Restores-list (IsBytes 32) (λ b. b) _ bytes32-Restores e.accepted_receipts
                    t.receipts)
                  (Restores-bind _ _ (u32-Restores (length e.spend_history) t.spend_count) (
                    Restores-bind _ _
                      (Restores-list (IsStoredSpend sha256) spend_bytes (decode_spend sha256 true)
                        (spend-Restores sha256) e.spend_history t.spends)
                      (Restores-bind _ _
                        (u64-Restores e.last_update_daa_score t.last_update_daa_score)
                        (Restores-pure e))))))))))

  write_receipts-append :
      (ids : List Bytes32) (w : Writer)
      → write_receipts ids w ≡ w ++ list_bytes (IsBytes 32) (λ b. b) ids
  unfolding write_receipts write_bytes
  write_receipts-append [] w = sym (append-nil w)
  write_receipts-append (id ∷ ids) w =
      write_receipts-append ids (w ++ id) ∙ append_assoc w id (list_bytes (IsBytes 32) (λ b. b) ids)

  write_spends-append :
      (ss : List SpendEntry) (w : Writer)
      → All (IsStoredSpend sha256) ss
      → write_spends ss w ≡ ok (w ++ list_bytes (IsStoredSpend sha256) spend_bytes ss)
  unfolding write_spends
  write_spends-append [] w t = ap ok (sym (append-nil w))
  write_spends-append (s ∷ ss) w (t, ts) = rw (write_spend-append sha256 s w t) (
      write_spends-append ss (w ++ spend_bytes s) ts
      ∙ ap ok (append_assoc w (spend_bytes s) (list_bytes (IsStoredSpend sha256) spend_bytes ss)))

  encode-covenant_bytes :
      (e : IndexedCovenant) → IsStored e → encode_indexed_covenant e ≡ ok (covenant_bytes e)
  unfolding encode_indexed_covenant write_bytes encode_chain write_u8 write_u16 write_u32 write_u64
  encode-covenant_bytes e t =
      let receipts : length e.accepted_receipts % 2 ^ 32 ≡ length e.accepted_receipts =
        omega (arith, t.receipt_count) in
      let spends : length e.spend_history % 2 ^ 32 ≡ length e.spend_history =
        omega (arith, t.spend_count) in
      rw (receipts, spends, write_spends-append e.spend_history _ t.spends)
        (ap ok (
          simp (
            write_receipts-append,
            write_option-append IsTypedOutpoint encode_outpoint outpoint_bytes
                encode_outpoint-append,
            append_assoc,
            append-nil,
          )))

  magic-Restores : Restores (read (read_array 8)) indexed_covenant_magic indexed_covenant_magic
  magic-Restores =
      Restores-read
        ((array-IsCodec 8).reads indexed_covenant_magic
          (record { width = refl; bytes = omega arith }))
        (omega arith)

  current_version : covenant_version indexed_covenant_magic ≡ ok true
  unfolding covenant_version List-discrete ℕ_discrete
  current_version = refl

  -- An entry is written in the format of the store, and what is written is read back as the entry, under these
  -- conditions: its fields and those of its spends have the widths of their types; its latest state passes
  -- the structural checks and is of the entry's covenant and chain; the continuation proofs, migration proofs
  -- and certificates of its spends are valid, and a migration proof stands with a continuation proof; it has
  -- fewer than 2^32 receipts and fewer than 2^32 spends; and what is written has fewer than 2^64 bytes.
  pub decode-encode_indexed_covenant :
      (e : IndexedCovenant)
      → IsStored e
      → length (covenant_bytes e) < usize_mod
      → (encode_indexed_covenant e ≡ ok (covenant_bytes e))
        × (decode_indexed_covenant sha256 (covenant_bytes e) ≡ ok e)
  unfolding decode_indexed_covenant
  decode-encode_indexed_covenant e t fits = (
    encode-covenant_bytes e t,
    let magic = magic-Restores in
        let fields = fields-Restores e t in
        let memory : IsInMemory (reader (covenant_bytes e)) = record {
          inside = omega arith;
          fits = fits;
          bytes = All-join IsByte indexed_covenant_magic (field_bytes e) magic.bytes fields.bytes;
        } in
        let read_magic = magic.at (reader (covenant_bytes e)) (field_bytes e) memory refl in
        let after : Reader = advance (length indexed_covenant_magic) (reader (covenant_bytes e)) in
        let read_fields =
          fields.at after []
            (advance-Took (reader (covenant_bytes e)) indexed_covenant_magic (field_bytes e) memory
              refl).still
            (rest_of-advance (reader (covenant_bytes e)) indexed_covenant_magic (field_bytes e) refl
              ∙ sym (append-nil (field_bytes e))) in
        rw
          (
            read_magic,
            current_version,
            read_fields,
            finished_lem (advance (length (field_bytes e)) after) (omega arith),
            ensure-of (e.latest_state.covenant_id ≟ e.covenant_id) (storage state_key_mismatch)
                t.same_covenant,
            ensure-of (e.latest_state.chain_id ≟ e.chain_id) (storage state_key_mismatch)
                t.same_chain,
          )
          refl,
  )
