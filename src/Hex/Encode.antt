-- ===== src/Hex/Encode.antt =====
-- src/protocol/common/hex.rs: `encode_hex_buf`, which encodes in place.
pub mod InPlace
pub mod ReadBack
use gdbstub.Prelude.{
  ℕ, zero, suc, ◌+◌, ◌-◌, ◌*◌, ◌/◌, ◌%◌, ◌==◌, ◌^◌, Bool, Bytes, Option, none, some, length,
  get_elem?, set, take, leb, ltb, bit_and, if◌then◌else◌,
}
use gdbstub.Prelude.OptionDo.{◌>>=◌}

-- An index out of range, an overflow that the build checks, and `unreachable!` panic.
pub data EncodeHexBufResult : Type 0 where
  encoded : Bytes → EncodeHexBufResult
  small_buffer : EncodeHexBufResult
  panic : EncodeHexBufResult

abbrev pub wrapped : Bool → ℕ → Option ℕ
wrapped overflow_checks n = if overflow_checks then none else some (n % 2 ^ 64)

-- `buf.len() - start_idx`.
abbrev pub data_len : Bool → Bytes → ℕ → Option ℕ
data_len overflow_checks buf start_idx =
    if leb start_idx (length buf)
    then some (length buf - start_idx)
    else wrapped overflow_checks (length buf + 2 ^ 64 - start_idx)

-- `len * 2`.
abbrev pub doubled : Bool → ℕ → Option ℕ
doubled overflow_checks len =
    if ltb (len * 2) (2 ^ 64) then some (len * 2) else wrapped overflow_checks (len * 2)

abbrev pub nybble_at : ℕ → ℕ → ℕ
nybble_at i byte = if i % 2 == 0 then bit_and byte 0xf0 / 2 ^ 4 else bit_and byte 0x0f

abbrev pub upper_digit : ℕ → Option ℕ
upper_digit nybble =
    if leb nybble 9
    then some (b'0' + nybble)
    else if leb nybble 15
    then some (b'A' + (nybble - 10))
    else none

-- The rounds of the loop from index `i` on, of which `left` are left.
unfoldable pub encode_loop : ℕ → ℕ → ℕ → Bytes → Option Bytes
encode_loop zero i start_idx buf = some buf
encode_loop (suc left) i start_idx buf = do
  byte ← get_elem? buf (start_idx + i / 2)
  digit ← upper_digit (nybble_at i byte)
  encode_loop left (i + 1) start_idx (set buf i digit)

-- The slice that is returned.
abbrev pub returned : ℕ → Option Bytes → EncodeHexBufResult
returned n none = panic
returned n (some buf) = encoded (take n buf)

unfoldable pub encode_len : Bytes → ℕ → Option ℕ → EncodeHexBufResult
unfolding encode_loop
encode_len buf start_idx none = panic
encode_len buf start_idx (some encoded_len) =
    if ltb (length buf) encoded_len
    then small_buffer
    else returned encoded_len (encode_loop encoded_len 0 start_idx buf)

unfoldable pub encode_hex_buf : Bool → Bytes → ℕ → EncodeHexBufResult
encode_hex_buf overflow_checks buf start_idx =
    encode_len buf start_idx
      (do len ← data_len overflow_checks buf start_idx; doubled overflow_checks len)
