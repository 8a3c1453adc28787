-- ===== src/Hex.antt =====
-- src/protocol/common/hex.rs: hex digits, `decode_hex`, and the in-place `decode_hex_buf`.
pub mod Digits
pub mod Buffer
pub mod Number
pub mod Encode
use gdbstub.Prelude.{
  ℕ, zero, suc, ◌+◌, ◌-◌, ◌*◌, ◌/◌, ◌%◌, Bool, ◌&&◌, ◌||◌, [], ◌∷◌, Option, none, some, Result, ok,
  err, ok_or, Bytes, length, get_elem?, set, take, drop, leb, ◌==◌, if◌then◌else◌, ◌^◌, bit_or,
}
use gdbstub.Prelude.ResultDo.{◌>>=◌}

pub data DecodeHexError : Type 0 where
  not_ascii empty overflow invalid_output : DecodeHexError

pub data DecodeHexBufError : Type 0 where
  not_ascii : DecodeHexBufError

abbrev within : ℕ → ℕ → ℕ → Bool
within lo hi c = leb lo c && leb c hi

unfoldable pub ascii2byte : ℕ → Option ℕ
ascii2byte c =
    if within b'0' b'9' c
    then some (c - b'0')
    else if within b'a' b'f' c
    then some (c - b'a' + 10)
    else if within b'A' b'F' c
    then some (c - b'A' + 10)
    else if c == b'x' || c == b'X'
    then some 0
    else none

unfoldable pub is_hex : ℕ → Bool
is_hex c =
    within b'0' b'9' c || within b'a' b'f' c || within b'A' b'F' c || (c == b'x' || c == b'X')

-- `checked_mul` and `checked_add` of an integer type with the greatest value `max`.
unfoldable pub checked : ℕ → ℕ → Option ℕ
checked max n = if leb n max then some n else none

-- One round of the loop of `decode_hex`. `I::from_u8` gives `none` for an integer type that does
-- not hold the digit.
unfoldable pub decode_digit : ℕ → ℕ → ℕ → Result DecodeHexError ℕ
unfolding checked
decode_digit max result digit = do
  b ← ok_or (ascii2byte digit) DecodeHexError.not_ascii
  x ← ok_or (checked max b) invalid_output
  shifted ← ok_or (checked max (result * 16)) overflow
  ok_or (checked max (shifted + x)) overflow

unfoldable pub decode_digits : ℕ → ℕ → Bytes → Result DecodeHexError ℕ
decode_digits max result [] = ok result
decode_digits max result (digit ∷ buf) = do
  next ← decode_digit max result digit
  decode_digits max next buf

-- `decode_hex::<I>`, for the unsigned type `I` with the greatest value `max`.
unfoldable pub decode_hex : ℕ → Bytes → Result DecodeHexError ℕ
unfolding decode_digits decode_digit
decode_hex max [] = err empty
decode_hex max (digit ∷ buf) = do
  radix ← ok_or (checked max 16) invalid_output
  decode_digits max 0 (digit ∷ buf)

-- One round of the loop of `decode_hex_buf`, on the slice behind the odd digit. An index out of
-- range would panic; `Hex.Buffer` shows that none is.
pub data DecodeHexBufResult : Type 0 where
  decoded : Bytes → DecodeHexBufResult
  failed : DecodeHexBufError → DecodeHexBufResult
  panic : DecodeHexBufResult

abbrev digit_at : Bytes → ℕ → (ℕ → DecodeHexBufResult) → DecodeHexBufResult
digit_at buf i f = elim (get_elem? buf i) [
  | none ↦ panic
  | some c ↦ elim (ascii2byte c) [ none ↦ failed DecodeHexBufError.not_ascii | some x ↦ f x ]
]

-- `hi << 4 | lo` on `u8`.
unfoldable pub join_nybbles : ℕ → ℕ → ℕ
join_nybbles hi lo = bit_or (hi * 2 ^ 4 % 2 ^ 8) lo

-- `left` rounds of the loop from index `i` on.
unfoldable pub decode_pairs_loop : ℕ → ℕ → Bytes → DecodeHexBufResult
decode_pairs_loop zero i buf = decoded buf
decode_pairs_loop (suc left) i buf = digit_at buf (i * 2) λ hi.
    digit_at buf (i * 2 + 1) λ lo. decode_pairs_loop left (i + 1) (set buf i (join_nybbles hi lo))

-- The slice of the decoded bytes.
abbrev prefix : ℕ → DecodeHexBufResult → DecodeHexBufResult
prefix n (decoded buf) = decoded (take n buf)
prefix n (failed e) = failed e
prefix n panic = panic

abbrev prepend : ℕ → DecodeHexBufResult → DecodeHexBufResult
prepend b (decoded buf) = decoded (b ∷ buf)
prepend b (failed e) = failed e
prepend b panic = panic

-- `decode_hex_buf`; at an odd length the first digit is a byte of its own, and the loop works on
-- the slice behind it.
unfoldable pub decode_hex_buf : Bytes → DecodeHexBufResult
unfolding decode_pairs_loop
decode_hex_buf base_buf =
    if length base_buf % 2 == 0
    then prefix (length base_buf / 2) (decode_pairs_loop (length base_buf / 2) 0 base_buf)
    else digit_at base_buf 0 λ first.
      let buf = drop 1 base_buf in
      prepend first (prefix (length buf / 2) (decode_pairs_loop (length buf / 2) 0 buf))

-- `decode_hex_buf(..).ok()`.
abbrev pub decoded_buf : DecodeHexBufResult → Option Bytes
decoded_buf (decoded buf) = some buf
decoded_buf _ = none
