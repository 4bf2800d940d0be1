-- ===== src/Numeric/Tests.antt =====
-- Runs of the numeric helpers, and the theorems at concrete values.
use veda_bvm.Common.{ℕ, ◌+◌, ◌-◌, ◌%◌, ◌^◌, ◌≤◌, ◌<◌, ◌≡◌, refl, arith, List, All, length, some}
use veda_bvm.Common.Int.{pos, negsuc, ◌+ℤ◌, ◌-ℤ◌, ◌≤ℤ◌}
use veda_bvm.Exceptions.{ok}
use veda_bvm.Numeric.{
  ceil_xx, ceil32, int_to_bytes32, from_bytes, get_highest_bit_index, unsigned_to_signed,
  signed_to_unsigned, clamp,
}
use veda_bvm.Numeric.Laws.{ceil_xx_least, int_to_bytes32_reads_back, get_highest_bit_index_lem}
use veda_bvm.Numeric.Signed.{
  signed_to_unsigned-unsigned_to_signed, unsigned_to_signed-signed_to_unsigned,
}

ceil32-values : (ceil32 33 ≡ 64) × (ceil32 64 ≡ 64) × (ceil32 0 ≡ 0)
unfolding ceil32
ceil32-values = (refl, refl, refl)

signed-values :
    (unsigned_to_signed (2 ^ 256 - 1) ≡ negsuc 0)
    × (signed_to_unsigned (negsuc 1) ≡ pos (2 ^ 256 - 2))
unfolding unsigned_to_signed signed_to_unsigned ◌+ℤ◌ ◌-ℤ◌
signed-values = (refl, refl)

bit_index-values : (get_highest_bit_index 1 ≡ some 0) × (get_highest_bit_index 256 ≡ some 8)
unfolding get_highest_bit_index
bit_index-values = (refl, refl)

clamp-value : clamp (negsuc 4) (pos 4) (pos 9) ≡ pos 4
unfolding clamp
clamp-value = refl

ceil_xx_least_example : (ceil_xx 33 32 % 32 ≡ 0) × (33 ≤ ceil_xx 33 32) × (ceil_xx 33 32 < 33 + 32)
ceil_xx_least_example = ceil_xx_least 33 32 (omega arith)

int_to_bytes32_reads_back_example :
    (bs : List ℕ) × (int_to_bytes32 (pos 258) ≡ ok bs)
    × (length bs ≡ 32)
    × All (λ b. b < 256) bs
    × (from_bytes bs ≡ 258)
int_to_bytes32_reads_back_example = int_to_bytes32_reads_back 258 (omega arith)

get_highest_bit_index_lem_example :
    (r : ℕ) × (get_highest_bit_index 300 ≡ some r) × (2 ^ r ≤ 300) × (300 < 2 ^ (r + 1))
get_highest_bit_index_lem_example = get_highest_bit_index_lem 300 (omega arith)

signed_to_unsigned-unsigned_to_signed_example :
    (signed_to_unsigned (unsigned_to_signed (2 ^ 255)) ≡ pos (2 ^ 255))
    × (negsuc (2 ^ 255 - 1) ≤ℤ unsigned_to_signed (2 ^ 255))
    × (unsigned_to_signed (2 ^ 255) ≤ℤ pos (2 ^ 255 - 1))
signed_to_unsigned-unsigned_to_signed_example =
    signed_to_unsigned-unsigned_to_signed (2 ^ 255) (omega arith)

unsigned_to_signed-signed_to_unsigned_example :
    (w : ℕ) × (signed_to_unsigned (negsuc 4) ≡ pos w)
    × (w < 2 ^ 256)
    × (unsigned_to_signed w ≡ negsuc 4)
unsigned_to_signed-signed_to_unsigned_example =
    unsigned_to_signed-signed_to_unsigned (negsuc 4) (omega arith) (omega arith)
