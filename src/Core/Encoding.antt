-- ===== src/Core/Encoding.antt =====
-- crates/rgk-core/src/encoding.rs: the canonical writer and the bounds-checked reader. A `Writer` is
-- its buffer; a reader method returns its value with the reader that it leaves behind. `usize` has 64
-- bits. Integers are little-endian.
pub mod Widths
pub mod Laws
pub mod Codec
pub mod Tagged
pub mod Header
use rgk.Prelude.{
  ℕ, zero, suc, ◌+◌, ◌-◌, ◌*◌, ◌/◌, ◌%◌, ◌^◌, ◌≤◌, ◌<◌, ◌≡◌, Bool, true, false, Option, none, some,
  List, [], ◌∷◌, ◌++◌, take, drop, length, replicate, codes, dec_lt, dec_le, if◌then◌else◌, Result,
  ok, err, ok_or, ensure, map_err, ◌≟◌, nat_eq, list_eq, List-discrete, ℕ_discrete,
}
use rgk.Prelude.Results
use rgk.Core.Error.{
  DecodeError, eof, trailing_bytes, bad_magic, unknown_version, blob_too_long, invalid_utf8,
}
use mathlib.Core.Logic.{ite}

abbrev pub encoding_version : ℕ
encoding_version = 1

abbrev pub max_blob_bytes : ℕ
max_blob_bytes = 2 ^ 20

-- `b"rgk:v0\x00\x00"`
abbrev pub domain_magic : List ℕ
domain_magic = codes "rgk:v0" ++ (0 ∷ 0 ∷ [])

abbrev pub usize_mod : ℕ
usize_mod = 2 ^ 64

-- `to_le_bytes` and `from_le_bytes` of an integer of `k` bytes.
unfoldable pub to_le : ℕ → ℕ → List ℕ
to_le zero v = []
to_le (suc k) v = v % 256 ∷ to_le k (v / 256)

unfoldable pub from_le : List ℕ → ℕ
from_le [] = 0
from_le (b ∷ bs) = b + 256 * from_le bs

abbrev pub Writer : Type 0
Writer = List ℕ

-- One call after another on the same writer.
infixl 6 ◌▸◌
abbrev pub ◌▸◌ : Writer → (Writer → Writer) → Writer
w ▸ f = f w

unfoldable pub write_u8 : ℕ → Writer → Writer
write_u8 v w = w ++ (v ∷ [])

unfoldable pub write_u16 : ℕ → Writer → Writer
write_u16 v w = w ++ to_le 2 v

unfoldable pub write_u32 : ℕ → Writer → Writer
write_u32 v w = w ++ to_le 4 v

unfoldable pub write_u64 : ℕ → Writer → Writer
write_u64 v w = w ++ to_le 8 v

-- `write_bytes`, `write_bytes20` and `write_bytes32`
unfoldable pub write_bytes : List ℕ → Writer → Writer
write_bytes b w = w ++ b

unfoldable pub write_blob : List ℕ → Writer → Writer
unfolding write_u32 write_bytes
write_blob b w = w ▸ write_u32 (length b % 2 ^ 32) ▸ write_bytes b

unfoldable pub write_bool : Bool → Writer → Writer
unfolding write_u8
write_bool b w = write_u8 (if b then 1 else 0) w

pub record Reader : Type 0 where
  pub buf : List ℕ
  pub pos : ℕ

abbrev pub Decoder {ℓ} : Type ℓ → Type ℓ
Decoder A = Reader → Result DecodeError (A × Reader)

module _ {ℓ κ} {A : Type ℓ} {B : Type κ} where
  infixl 5 ◌>>=◌
  abbrev pub ◌>>=◌ : Decoder A → (A → Decoder B) → Decoder B
  ◌>>=◌ m f r = Results.◌>>=◌ (m r) (λ ar. f ar.0 ar.1)

module _ {ℓ} {A : Type ℓ} where
  infixl 5 ◌>>◌
  abbrev pub ◌>>◌ : Result DecodeError (Unit {0}) → Decoder A → Decoder A
  ◌>>◌ g k r = Results.◌>>◌ g (k r)

  abbrev pub pure : A → Decoder A
  pure a r = ok (a, r)

  -- `?` on a result that does not touch the reader.
  abbrev pub lift : Result DecodeError A → Decoder A
  lift (ok a) r = ok (a, r)
  lift (err e) r = err e

abbrev pub reader : List ℕ → Reader
reader buf = record { buf = buf; pos = 0 }

unfoldable pub remaining : Reader → ℕ
remaining r = length r.buf - r.pos

abbrev pub advance : ℕ → Reader → Reader
advance n r = record { buf = r.buf; pos = r.pos + n }

unfoldable pub checked_add : ℕ → ℕ → Option ℕ
checked_add a b = ite (dec_lt (a + b) usize_mod) (some (a + b)) none

-- `Reader::take`
unfoldable pub take_bytes : ℕ → Decoder (List ℕ)
unfolding checked_add
take_bytes n r = Results.◌>>=◌ (ok_or (checked_add r.pos n) eof) λ end.
    Results.◌>>◌ (ensure (dec_le end (length r.buf)) eof)
      (ok (take n (drop r.pos r.buf), advance n r))

-- `read_array::<N>`, with `read_bytes20` and `read_bytes32`
unfoldable pub read_array : ℕ → Decoder (List ℕ)
unfolding take_bytes
read_array n = take_bytes n

-- `self.take(1)?[0]`
unfoldable pub read_u8 : Decoder ℕ
unfolding take_bytes from_le
read_u8 = take_bytes 1 >>= λ s. pure (from_le s)

unfoldable pub read_u16 : Decoder ℕ
unfolding read_array from_le
read_u16 = read_array 2 >>= λ s. pure (from_le s)

unfoldable pub read_u32 : Decoder ℕ
unfolding read_array from_le
read_u32 = read_array 4 >>= λ s. pure (from_le s)

unfoldable pub read_u64 : Decoder ℕ
unfolding read_array from_le
read_u64 = read_array 8 >>= λ s. pure (from_le s)

unfoldable pub read_bool : Decoder Bool
unfolding read_u8
read_bool = read_u8 >>= λ b. pure (elim (b ≟ 0) [ yes _ ↦ false | no _ ↦ true ])

unfoldable pub read_blob : Decoder (List ℕ)
unfolding read_u32 take_bytes
read_blob = read_u32 >>= λ len.
    ensure (dec_le len max_blob_bytes) (blob_too_long len max_blob_bytes) >> take_bytes len

-- `ensure_consumed`
unfoldable pub ensure_consumed : Reader → Result DecodeError (Unit {0})
ensure_consumed r = ensure (r.pos ≟ length r.buf) (trailing_bytes (length r.buf - r.pos))

-- The trait `Canonical`.
pub record Canonical {ℓ} (A : Type ℓ) : Type ℓ where
  pub encode : A → Writer → Writer
  pub decode : Decoder A

module _ {ℓ} {A : Type ℓ} ⦃c : Canonical A⦄ where
  unfoldable pub encode_canonical : A → List ℕ
  unfolding write_bytes write_u16
  encode_canonical a = [] ▸ write_bytes domain_magic ▸ write_u16 encoding_version ▸ c.encode a

  unfoldable pub decode_canonical : List ℕ → Result DecodeError A
  unfolding read_array read_u16 ensure_consumed
  decode_canonical buf =
      Results.◌>>=◌
        ((read_array 8 >>= λ magic.
            ensure (magic ≟ domain_magic) bad_magic
            >> (read_u16 >>= λ version.
                ensure (version ≟ encoding_version) (unknown_version version) >> c.decode))
          (reader buf))
        λ (value, r). Results.◌>>◌ (ensure_consumed r) (ok value)
