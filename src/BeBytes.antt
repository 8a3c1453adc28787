-- ===== src/BeBytes.antt =====
-- src/internal/be_bytes.rs: integers of `size` bytes as big-endian byte arrays.
pub mod Value
pub mod Decoding
use gdbstub.Prelude.{
  Bytes, ltb, ◌==◌, if◌then◌else◌, length, take, drop, ℕ, zero, suc, ◌-◌, ◌*◌, ◌/◌, ◌%◌, ◌^◌,
  bit_or, Bool, false, not, ◌||◌, Option, none, some, [], ◌∷◌, ◌++◌,
}

-- `<$num>::to_be_bytes` of the language: `size` bytes, the most significant first.
abbrev pub be_bytes : ℕ → ℕ → Bytes
be_bytes zero n = []
be_bytes (suc size) n = be_bytes size (n / 256) ++ (n % 256 ∷ [])

-- `BeBytes::to_be_bytes`: the bytes go to the front of `buf`; their number and the new contents.
unfoldable pub to_be_bytes : ℕ → ℕ → Bytes → Option (ℕ × Bytes)
to_be_bytes size n buf =
    if ltb (length buf) size then none else some (size, be_bytes size n ++ drop size buf)

abbrev any_nonzero : Bytes → Bool
any_nonzero [] = false
any_nonzero (b ∷ bs) = not (b == 0) || any_nonzero bs

-- The loop of `from_be_bytes`: `res <<= 4; res <<= 4; res |= b` on an integer of `size` bytes.
unfoldable pub shift_in : ℕ → ℕ → Bytes → ℕ
shift_in size res [] = res
shift_in size res (b ∷ bs) =
    shift_in size (bit_or (res * 2 ^ 4 % 256 ^ size * 2 ^ 4 % 256 ^ size) b) bs

unfoldable pub from_be_bytes : ℕ → Bytes → Option ℕ
unfolding shift_in
from_be_bytes size buf =
    if ltb size (length buf)
    then (let extra = length buf - size in
        if any_nonzero (take extra buf) then none else some (shift_in size 0 (drop extra buf)))
    else some (shift_in size 0 buf)
