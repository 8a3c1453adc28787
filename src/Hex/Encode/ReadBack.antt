-- ===== src/Hex/Encode/ReadBack.antt =====
-- src/protocol/common/hex.rs: `decode_hex_buf` on what `encode_hex_buf` gives.
use gdbstub.Prelude.{
  ℕ, ◌+◌, ◌*◌, ◌/◌, ◌%◌, ◌==◌, Bytes, some, length, ◌<◌, ◌≤◌, ◌≡◌, refl, ap, ◌∙◌, [], ◌∷◌, ◌++◌,
  arith, All, IsByte, false, true, ◌^◌, Bool, leb,
}
use gdbstub.Hex.{ascii2byte, decode_hex_buf, decoded}
use gdbstub.Hex.Buffer.{pair_values, hex_bytes, decode_hex_buf-hex_bytes, answer}
use gdbstub.Hex.Encode.{encode_hex_buf, encoded}
use gdbstub.Hex.Encode.InPlace.{upper_char, upper_text, encode_hex_buf-upper_text}

ascii2byte-upper_char : (d : ℕ) → d < 16 → ascii2byte (upper_char d) ≡ some d
unfolding ascii2byte
ascii2byte-upper_char d h = ground arith

pair_values-upper_text : (bs : Bytes) → All IsByte bs → pair_values (upper_text bs) ≡ some bs
pair_values-upper_text [] h = refl
pair_values-upper_text (b ∷ bs) (hb, h) =
    let hi = ascii2byte-upper_char (b / 16) (omega arith) in
    let lo = ascii2byte-upper_char (b % 16) (omega arith) in
    let value : b / 16 * 16 + b % 16 ≡ b = omega arith in
    rw hi (rw lo (rw (pair_values-upper_text bs h) (rw value)))

even_length : (bs : Bytes) → length (upper_text bs) % 2 ≡ 0
even_length [] = refl
even_length (b ∷ bs) = omega (arith, even_length bs)

hex_bytes-upper_text : (bs : Bytes) → All IsByte bs → hex_bytes (upper_text bs) ≡ some bs
hex_bytes-upper_text [] h = refl
hex_bytes-upper_text (b ∷ bs) h =
    let odd : (length (upper_char (b % 16) ∷ upper_text bs) % 2 == 0) ≡ false =
      ground (arith, even_length bs) in
    rw odd (pair_values-upper_text (b ∷ bs) h)

-- Data that `encode_hex_buf` encodes in place, behind at least as many bytes as the data has,
-- `decode_hex_buf` decodes to the data. A slice has less than 2^63 bytes.
pub encode_hex_buf-decode_hex_buf :
    (overflow_checks : Bool) (front bytes : Bytes)
    → All IsByte bytes
    → length front + length bytes < 2 ^ 63
    → length bytes ≤ length front
    → (text : Bytes) × (encode_hex_buf overflow_checks (front ++ bytes) (length front)
        ≡ encoded text)
      × (decode_hex_buf text ≡ decoded bytes)
encode_hex_buf-decode_hex_buf overflow_checks front bytes are_bytes fits room =
    let wide : leb (length bytes) (length front) ≡ true = ground arith in
    (
      upper_text bytes,
      rw wide at (encode_hex_buf-upper_text overflow_checks front bytes are_bytes fits),
      decode_hex_buf-hex_bytes (upper_text bytes)
          ∙ ap answer (hex_bytes-upper_text bytes are_bytes),
    )
