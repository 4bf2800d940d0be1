-- ===== src/Numeric/Signed.antt =====
-- The two readings of a 256-bit word: `unsigned_to_signed` and `signed_to_unsigned`.
use veda_bvm.Common.{ℕ, suc, ◌-◌, ◌^◌, ◌<◌, ◌≡◌, arith}
use veda_bvm.Common.Int.{ℤ, pos, negsuc, ◌+ℤ◌, ◌-ℤ◌, ◌≤ℤ◌}
use veda_bvm.Numeric.{unsigned_to_signed, signed_to_unsigned}

-- Every word survives the trip to its signed reading and back, and that reading lies in the range
-- of a 256-bit two's complement.
pub signed_to_unsigned-unsigned_to_signed :
    (w : ℕ)
    → w < 2 ^ 256
    → (signed_to_unsigned (unsigned_to_signed w) ≡ pos w)
      × (negsuc (2 ^ 255 - 1) ≤ℤ unsigned_to_signed w)
      × (unsigned_to_signed w ≤ℤ pos (2 ^ 255 - 1))
unfolding unsigned_to_signed signed_to_unsigned ◌+ℤ◌ ◌-ℤ◌
signed_to_unsigned-unsigned_to_signed w h = (ground arith, ground arith, ground arith)

-- Every integer of that range survives the trip to a word and back, and the word fits 256 bits.
pub unsigned_to_signed-signed_to_unsigned :
    (z : ℤ)
    → negsuc (2 ^ 255 - 1) ≤ℤ z
    → z ≤ℤ pos (2 ^ 255 - 1)
    → (w : ℕ) × (signed_to_unsigned z ≡ pos w) × (w < 2 ^ 256) × (unsigned_to_signed w ≡ z)
unfolding unsigned_to_signed signed_to_unsigned ◌+ℤ◌ ◌-ℤ◌
unsigned_to_signed-signed_to_unsigned (pos n) lo hi = (n, ground arith, ground arith, ground arith)
unsigned_to_signed-signed_to_unsigned (negsuc n) lo hi =
    (2 ^ 256 - suc n, ground arith, ground arith, ground arith)
