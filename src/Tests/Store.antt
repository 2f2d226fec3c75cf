-- ===== src/Tests/Store.antt =====
-- The theorem on stored entries at an entry with one spend and its continuation.
use rgk.Prelude.{ℕ, ◌≡◌, ◌<◌, refl, length, ok, arith, list_eq}
use rgk.Core.Encoding.{usize_mod, to_le}
use rgk.Indexer.Entry.Apply.{validate-IsContinuation_complete}
use rgk.Indexer.Store.{encode_indexed_covenant}
use rgk.Indexer.Store.Decode.{decode_indexed_covenant}
unfoldable use rgk.Indexer.Store.Decode.{check_stored_migration}
use rgk.Indexer.Store.Fields.{IsTypedOutpoint}
use rgk.Indexer.Store.Covenants.{IsStored, covenant_bytes, decode-encode_indexed_covenant}
use rgk.Tests.{toy_sha, fill-IsBytes, state-IsTypedState}
use rgk.Tests.Indexer.{output, proof, proof-IsContinuation, entry1}

output-IsTyped : (n : ℕ) → n < 256 → IsTypedOutpoint (output n)
output-IsTyped n h = record { transaction_id = fill-IsBytes n h; index = omega arith }

entry1-IsStored : IsStored toy_sha entry1
unfolding check_stored_migration
entry1-IsStored = record {
  covenant_id = fill-IsBytes 1 (omega arith);
  lineage_id = fill-IsBytes 8 (omega arith);
  open_outpoint = output-IsTyped 11 (omega arith);
  latest_state = state-IsTypedState 4 (omega arith) (omega arith);
  receipts = (fill-IsBytes 20 (omega arith), tt);
  receipt_count = omega arith;
  spends = (
    record {
      daa_score = omega arith;
      spent = output-IsTyped 10 (omega arith);
      created = output-IsTyped 11 (omega arith);
      new_state_digest = fill-IsBytes 3 (omega arith);
      resulting_state_digest = fill-IsBytes 4 (omega arith);
      receipt_id = fill-IsBytes 20 (omega arith);
      continuation = record {
        commitment = fill-IsBytes 30 (omega arith);
        shape_root = fill-IsBytes 31 (omega arith);
        transition_digest = fill-IsBytes 32 (omega arith);
        valid = validate-IsContinuation_complete proof proof-IsContinuation;
      };
      policy_migration = tt;
      certificate = tt;
      migrated = refl;
    },
    tt,
  );
  spend_count = omega arith;
  last_update_daa_score = omega arith;
  same_covenant = refl;
  same_chain = refl;
}

entry1-fits : length (covenant_bytes toy_sha entry1) < usize_mod
unfolding to_le
entry1-fits = omega arith

decode-encode_indexed_covenant_example :
    (encode_indexed_covenant entry1 ≡ ok (covenant_bytes toy_sha entry1))
    × (decode_indexed_covenant toy_sha (covenant_bytes toy_sha entry1) ≡ ok entry1)
decode-encode_indexed_covenant_example =
    decode-encode_indexed_covenant toy_sha entry1 entry1-IsStored entry1-fits
