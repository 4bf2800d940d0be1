-- ===== src/Memory.antt =====
-- veda/vm/memory.py: the memory of a computation, a byte array. A `bytearray` that cannot grow in
-- place is replaced by a longer one of the same content, so the model has one way to grow.
pub mod Access
mod Tests
use veda_bvm.Common.{
  ℕ, ◌+◌, ◌-◌, List, [], ◌∷◌, ◌++◌, ⊤, leb, ltb, ◌==◌, if◌then◌else◌, length, set, take, drop,
  replicate, not, Bool,
}
use veda_bvm.Exceptions.{
  Result, ok, err, Action, ◌>>=◌, ◌>>◌, validation_error, raise_if, gets, modify, pure,
}
use veda_bvm.Numeric.{uint_256_max, ceil32}

abbrev pub Memory : Type 0
Memory = List ℕ

unfoldable pub extend : ℕ → ℕ → Memory → Memory
extend start_position size m =
    if size == 0
    then m
    else let new_size = ceil32 (start_position + size) in
      if leb new_size (length m) then m else m ++ replicate (new_size - length m) 0

-- The loop over `enumerate(value)`, from the position `start_position + idx` on.
unfoldable pub write_bytes : ℕ → List ℕ → Memory → Memory
write_bytes position [] m = m
write_bytes position (v ∷ value) m = write_bytes (position + 1) value (set m position v)

unfoldable pub write : ℕ → ℕ → List ℕ → Action Memory ⊤
write start_position size value = if size == 0 then pure tt else do
  raise_if (ltb uint_256_max start_position) validation_error
  raise_if (ltb uint_256_max size) validation_error
  raise_if (not (length value == size)) validation_error
  len ← gets length
  raise_if (ltb len (start_position + size)) validation_error
  modify (write_bytes start_position value)

-- `read` gives a view of the bytes that `read_bytes` copies.
unfoldable pub read_bytes : ℕ → ℕ → Memory → List ℕ
read_bytes start_position size m = take size (drop start_position m)
