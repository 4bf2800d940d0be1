-- ===== src/External.antt =====
-- What the modelled code calls and does not implement: the integer and byte conversions of the
-- package eth_utils, as operations with the laws that their documentation states.
pub mod Reference
use veda_bvm.Common.{ℕ, suc, ◌^◌, ◌≤◌, ◌<◌, ◌≡◌, List, ◌∷◌, All, length}

-- A byte string's elements are bytes.
abbrev pub IsBytes : List ℕ → Type 0
IsBytes = All (λ b. b < 256)

pub record EthUtils : Type 0 where
  pub big_endian_to_int : List ℕ → ℕ
  pub int_to_big_endian : ℕ → List ℕ
  -- the two conversions are inverse on integers
  pub to_int-to_bytes : (n : ℕ) → big_endian_to_int (int_to_big_endian n) ≡ n
  -- a byte string of `k` bytes stands for a number below 256 ^ k, and leading zeros do not count
  pub to_int-lt : (bs : List ℕ) → IsBytes bs → big_endian_to_int bs < 256 ^ length bs
  pub to_int-zero_cons : (bs : List ℕ) → big_endian_to_int (0 ∷ bs) ≡ big_endian_to_int bs
  -- the byte form is the shortest, of one byte at least
  pub to_bytes-IsBytes : (n : ℕ) → IsBytes (int_to_big_endian n)
  pub length-to_bytes-le : (n k : ℕ) → n < 256 ^ suc k → length (int_to_big_endian n) ≤ suc k
