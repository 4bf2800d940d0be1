-- ===== src/Numeric.antt =====
-- veda/_utils/numeric.py, and the constants of veda/constants.py that it uses.
pub mod Laws
pub mod Signed
mod Tests
use veda_bvm.Common.{
  ℕ, zero, suc, ◌+◌, ◌-◌, ◌*◌, ◌/◌, ◌%◌, ◌^◌, Bool, List, [], ◌∷◌, ◌++◌, Option, none, some, ltb,
  leb, ◌==◌, if◌then◌else◌,
}
use veda_bvm.Common.Int.{ℤ, pos, negsuc, ◌+ℤ◌, ◌-ℤ◌, ltb_ℤ, leb_ℤ}
use veda_bvm.Exceptions.{Result, ok, err, value_error}

abbrev pub uint_256_ceiling : ℕ
uint_256_ceiling = 2 ^ 256

abbrev pub uint_256_max : ℕ
uint_256_max = 2 ^ 256 - 1

abbrev pub uint_255_max : ℕ
uint_255_max = 2 ^ 255 - 1

abbrev pub uint_255_negative_one : ℕ
uint_255_negative_one = 2 ^ 256 - 1

abbrev pub uint_64_max : ℕ
uint_64_max = 2 ^ 64 - 1

-- Python's `int.to_bytes(n, "big")`, for a value that fits.
unfoldable pub to_bytes : ℕ → ℕ → List ℕ
to_bytes zero v = []
to_bytes (suc n) v = to_bytes n (v / 256) ++ v % 256 ∷ []

-- Python's `int.from_bytes(_, "big")`.
from_bytes_onto : ℕ → List ℕ → ℕ
from_bytes_onto acc [] = acc
from_bytes_onto acc (b ∷ bs) = from_bytes_onto (acc * 256 + b) bs

pub from_bytes : List ℕ → ℕ
unfolding from_bytes_onto
from_bytes = from_bytes_onto 0

-- The type test is left out: the model's values are integers.
pub int_to_bytes32 : ℤ → Result (List ℕ)
int_to_bytes32 (negsuc _) = err value_error
int_to_bytes32 (pos value) =
    if ltb uint_256_max value then err value_error else ok (to_bytes 32 value)

unfoldable pub ceil_xx : ℕ → ℕ → ℕ
ceil_xx value ceiling =
    let remainder = value % ceiling in if remainder == 0 then value else value + ceiling - remainder

unfoldable pub ceil32 : ℕ → ℕ
unfolding ceil_xx
ceil32 value = ceil_xx value 32

unfoldable pub ceil8 : ℕ → ℕ
unfolding ceil_xx
ceil8 value = ceil_xx value 8

unfoldable pub unsigned_to_signed : ℕ → ℤ
unsigned_to_signed value =
    if leb value uint_255_max then pos value else pos value -ℤ pos uint_256_ceiling

unfoldable pub signed_to_unsigned : ℤ → ℤ
signed_to_unsigned value = if ltb_ℤ value (pos 0) then value +ℤ pos uint_256_ceiling else value

pub is_even : ℕ → Bool
is_even value = value % 2 == 0

pub is_odd : ℕ → Bool
is_odd value = value % 2 == 1

-- The loop of `get_highest_bit_index`, from `bit_length` on; `none` means that the fuel ran out.
highest_bit_loop : ℕ → ℕ → ℕ → Option ℕ
highest_bit_loop zero value bit_length = none
highest_bit_loop (suc fuel) value bit_length =
    let rest = highest_bit_loop fuel (value / 2) (bit_length + 1) in
    if value == 0 then some bit_length else rest

-- A value is halved at most as often as the value is large.
pub get_highest_bit_index : ℕ → Option ℕ
unfolding highest_bit_loop
get_highest_bit_index value = highest_bit_loop (value + 1) (value / 2) 0

pub clamp : ℤ → ℤ → ℤ → ℤ
clamp inclusive_lower_bound inclusive_upper_bound value =
    if leb_ℤ value inclusive_lower_bound
    then inclusive_lower_bound
    else if leb_ℤ inclusive_upper_bound value
    then inclusive_upper_bound
    else value
