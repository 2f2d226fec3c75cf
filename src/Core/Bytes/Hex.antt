-- ===== src/Core/Bytes/Hex.antt =====
-- `from_hex` and `to_hex` of crates/rgk-core/src/bytes.rs. A text is the list of its bytes.
use Prim.Native.Nat.{bit_and}
use rgk.Prelude.{
  ℕ, suc, ◌+◌, ◌*◌, ◌/◌, ◌%◌, Option, none, some, List, [], ◌∷◌, codes, get_elem?, length, Result,
  ok, ok_or, ensure, ◌>>=◌, ◌>>◌, ◌≟◌, nat_eq,
}
use rgk.Core.Error.{DecodeError, hex_bad_length, hex_bad_char}

abbrev pub hex_alphabet : List ℕ
hex_alphabet = codes "0123456789abcdef"

-- `iter().position(|&c| c == x)`, counting from `i`.
unfoldable pub position_from : ℕ → ℕ → List ℕ → Option ℕ
position_from i x [] = none
position_from i x (c ∷ cs) = elim (c ≟ x) [ yes _ ↦ some i | no _ ↦ position_from (suc i) x cs ]

unfoldable pub nibble : ℕ → Result DecodeError ℕ
unfolding position_from
nibble c = ok_or (position_from 0 c hex_alphabet) (hex_bad_char c)

-- The loop over `bytes.chunks_exact(2)`; a chunk of one byte is left out of it.
unfoldable pub decode_chunks : List ℕ → Result DecodeError (List ℕ)
unfolding nibble
decode_chunks [] = ok []
decode_chunks (c ∷ []) = ok []
decode_chunks (c ∷ d ∷ rest) = nibble c >>= λ hi.
    nibble d >>= λ lo. decode_chunks rest >>= λ out. ok (((hi * 16) % 256 + lo) ∷ out)

unfoldable pub from_hex : ℕ → List ℕ → Result DecodeError (List ℕ)
unfolding decode_chunks
from_hex n s = ensure (length s ≟ n * 2) (hex_bad_length (n * 2) (length s)) >> decode_chunks s

-- `HEX[i as usize] as char`, with an index below 16.
abbrev hex_digit : ℕ → ℕ
hex_digit i = elim (get_elem? hex_alphabet i) [ none ↦ 0 | some c ↦ c ]

unfoldable pub to_hex : List ℕ → List ℕ
to_hex [] = []
to_hex (b ∷ bs) = hex_digit (b / 16) ∷ hex_digit (bit_and b 0x0f) ∷ to_hex bs
