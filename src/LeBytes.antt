-- ===== src/LeBytes.antt =====
-- src/internal/le_bytes.rs: integers of `size` bytes as little-endian byte arrays.
pub mod Value
pub mod Decoding
use gdbstub.Prelude.{
  Bytes, ltb, ◌==◌, if◌then◌else◌, length, take, drop, ℕ, zero, suc, ◌-◌, ◌*◌, ◌/◌, ◌%◌, ◌^◌,
  bit_or, Bool, false, not, ◌||◌, Option, none, some, [], ◌∷◌, ◌++◌,
}

-- `<$num>::to_le_bytes` of the language: `size` bytes, the least significant first.
abbrev pub le_bytes : ℕ → ℕ → Bytes
le_bytes zero n = []
le_bytes (suc size) n = n % 256 ∷ le_bytes size (n / 256)

-- `LeBytes::to_le_bytes`: the bytes go to the front of `buf`; their number and the new contents.
unfoldable pub to_le_bytes : ℕ → ℕ → Bytes → Option (ℕ × Bytes)
to_le_bytes size n buf =
    if ltb (length buf) size then none else some (size, le_bytes size n ++ drop size buf)

abbrev any_nonzero : Bytes → Bool
any_nonzero [] = false
any_nonzero (b ∷ bs) = not (b == 0) || any_nonzero bs

-- The loop of `from_le_bytes`, which walks from the end: `res <<= 4; res <<= 4; res |= b` on an
-- integer of `size` bytes.
unfoldable pub shift_back : ℕ → Bytes → ℕ
shift_back size [] = 0
shift_back size (b ∷ bs) = bit_or (shift_back size bs * 2 ^ 4 % 256 ^ size * 2 ^ 4 % 256 ^ size) b

-- What is dropped of an array that is too long are its first bytes.
unfoldable pub from_le_bytes : ℕ → Bytes → Option ℕ
unfolding shift_back
from_le_bytes size buf =
    if ltb size (length buf)
    then (let extra = length buf - size in
        if any_nonzero (take extra buf) then none else some (shift_back size (drop extra buf)))
    else some (shift_back size buf)
