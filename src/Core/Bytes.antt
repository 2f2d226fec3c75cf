-- ===== src/Core/Bytes.antt =====
-- crates/rgk-core/src/bytes.rs: fixed-width bytes and lowercase hex. `[u8; N]` is a list of numbers;
-- its width and the range of its bytes are `IsBytes N`.
pub mod Hex
use rgk.Prelude.{ℕ, zero, suc, ◌<◌, ◌≡◌, List, [], ◌∷◌, replicate, length, All}

abbrev pub Bytes32 : Type 0
Bytes32 = List ℕ

abbrev pub IsByte : ℕ → Type 0
IsByte b = b < 256

pub record IsBytes (n : ℕ) (b : List ℕ) : Type 0 where
  pub width : length b ≡ n
  pub bytes : All IsByte b

-- `[0u8; 32]`
abbrev pub zero32 : Bytes32
zero32 = replicate 32 0
