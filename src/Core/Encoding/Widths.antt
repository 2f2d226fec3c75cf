-- ===== src/Core/Encoding/Widths.antt =====
-- Little-endian integers: `to_le` and `from_le` are inverse on the widths that the format uses.
use rgk.Prelude.{
  ℕ, zero, suc, ◌+◌, ◌*◌, ◌/◌, ◌%◌, ◌^◌, ◌<◌, ◌≡◌, refl, ap, List, [], ◌∷◌, length, All, arith,
}
use rgk.Core.Bytes.{IsByte}
use rgk.Core.Encoding.{to_le, from_le}
use native.Mathlib.Nat.{pow-suc}

pub length-to_le : (k v : ℕ) → length (to_le k v) ≡ k
unfolding to_le
length-to_le zero v = refl
length-to_le (suc k) v = ap suc (length-to_le k (v / 256))

pub to_le-IsByte : (k v : ℕ) → All IsByte (to_le k v)
unfolding to_le
to_le-IsByte zero v = tt
to_le-IsByte (suc k) v = (omega arith, to_le-IsByte k (v / 256))

pub from_le-to_le : (k v : ℕ) → v < 256 ^ k → from_le (to_le k v) ≡ v
unfolding to_le from_le
from_le-to_le zero v h = omega arith
from_le-to_le (suc k) v h = omega (arith, from_le-to_le k (v / 256) (omega (arith, pow-suc 256 k)))

module _ (b x : ℕ) (h : b < 256) where
  low_byte : (b + 256 * x) % 256 ≡ b
  low_byte = omega arith

  high_bytes : (b + 256 * x) / 256 ≡ x
  high_bytes = omega arith

pub to_le-from_le : (bs : List ℕ) → All IsByte bs → to_le (length bs) (from_le bs) ≡ bs
unfolding to_le from_le
to_le-from_le [] h = refl
to_le-from_le (b ∷ bs) h =
    rw (low_byte b (from_le bs) h.0, high_bytes b (from_le bs) h.0) (cc (to_le-from_le bs h.1))

pub from_le-lt : (bs : List ℕ) → All IsByte bs → from_le bs < 256 ^ length bs
unfolding from_le
from_le-lt [] h = omega arith
from_le-lt (b ∷ bs) h = omega (arith, from_le-lt bs h.1, pow-suc 256 (length bs))

-- Two integers of the same width with the same bytes are equal.
pub to_le-injective : (k v w : ℕ) → v < 256 ^ k → w < 256 ^ k → to_le k v ≡ to_le k w → v ≡ w
to_le-injective k v w hv hw e = cc (from_le-to_le k v hv, from_le-to_le k w hw)
