-- ===== src/Asset/Roots/Wire.antt =====
-- What an encoded allocation determines: numbers and hashes of fixed width stand one after the other.
use rgk.Prelude.{
  ℕ, ◌^◌, ◌<◌, ◌≡◌, refl, sym, ap, ◌∙◌, List, [], ◌∷◌, ◌++◌, length, append_inj, append_assoc,
  head_of, tail_of, All, arith, some_of,
}
use rgk.Core.Bytes.{Bytes32}
use rgk.Core.Chain.{KaspaChainId, chain_as_u8, chain_from_tag}
use rgk.Core.Chain.Codec.{chain_from_tag-chain_as_u8}
use rgk.Core.Encoding.{to_le}
use rgk.Core.Encoding.Widths.{length-to_le, to_le-injective}
use rgk.Asset.Records.{RgkAllocation}
use rgk.Asset.Roots.{encode_allocation, encode_allocations}

-- The ranges of the fields' types.
pub record IsTypedAllocation (a : RgkAllocation) : Type 0 where
  pub transaction_id : length a.anchor.covenant_outpoint.transaction_id ≡ 32
  pub index : a.anchor.covenant_outpoint.index < 2 ^ 32
  pub covenant_id : length a.anchor.covenant_id ≡ 32
  pub witness_txid : length a.anchor.witness_txid ≡ 32
  pub daa_score : a.anchor.daa_score < 2 ^ 64
  pub confirmation_depth : a.anchor.confirmation_depth < 2 ^ 64
  pub amount : a.amount < 2 ^ 64
  pub note : length a.encrypted_note_commitment ≡ 32

pub chain_as_u8-injective : (c d : KaspaChainId) → chain_as_u8 c ≡ chain_as_u8 d → c ≡ d
chain_as_u8-injective c d e =
    some_of
      (sym (chain_from_tag-chain_as_u8 c) ∙ ap chain_from_tag e ∙ chain_from_tag-chain_as_u8 d)

-- A hash, and a number, in front of something.
pub hash_front :
    {a b : Bytes32} {u v : List ℕ}
    → length a ≡ 32
    → length b ≡ 32
    → a ++ u ≡ b ++ v
    → (a ≡ b) × (u ≡ v)
hash_front {a} {b} {u} {v} p q e = append_inj a b u v (p ∙ sym q) e

pub number_front :
    (w : ℕ) {m n : ℕ} {u v : List ℕ}
    → m < 256 ^ w
    → n < 256 ^ w
    → to_le w m ++ u ≡ to_le w n ++ v
    → (m ≡ n) × (u ≡ v)
number_front w {m} {n} {u} {v} p q e =
    let (front, back) =
      append_inj (to_le w m) (to_le w n) u v (rw (length-to_le, length-to_le)) e in
    (to_le-injective w m n p q front, back)

-- `to_vec` of one allocation in front of something.
pub allocation_front :
    (a b : RgkAllocation) (u v : List ℕ)
    → IsTypedAllocation a
    → IsTypedAllocation b
    → encode_allocation a ++ u ≡ encode_allocation b ++ v
    → (a ≡ b) × (u ≡ v)
unfolding encode_allocation
allocation_front a b u v p q e =
    let chain = chain_as_u8-injective a.anchor.chain b.anchor.chain (head_of e) in
    let e0 = simp append_assoc at (tail_of e) in
    let (txid, e1) = hash_front p.transaction_id q.transaction_id e0 in
    let (index, e2) = number_front 4 p.index q.index e1 in
    let (covenant, e3) = hash_front p.covenant_id q.covenant_id e2 in
    let (witness, e4) = hash_front p.witness_txid q.witness_txid e3 in
    let (daa, e5) = number_front 8 p.daa_score q.daa_score e4 in
    let (depth, e6) = number_front 8 p.confirmation_depth q.confirmation_depth e5 in
    let (amount, e7) = number_front 8 p.amount q.amount e6 in
    let (note, rest) = hash_front p.note q.note e7 in (cc, rest)

pub encode_allocations-injective :
    (xs ys : List RgkAllocation)
    → All IsTypedAllocation xs
    → All IsTypedAllocation ys
    → length xs ≡ length ys
    → encode_allocations xs ≡ encode_allocations ys
    → xs ≡ ys
unfolding encode_allocations
encode_allocations-injective [] [] p q n e = refl
encode_allocations-injective [] (y ∷ ys) p q n e = absurd (omega arith)
encode_allocations-injective (x ∷ xs) [] p q n e = absurd (omega arith)
encode_allocations-injective (x ∷ xs) (y ∷ ys) p q n e =
    let (head, rest) =
      allocation_front x y (encode_allocations xs) (encode_allocations ys) p.0 q.0 e in
    cc (head, encode_allocations-injective xs ys p.1 q.1 (omega arith) rest)
