-- ===== src/ResponseWriter/Decoding.antt =====
-- src/protocol/response_writer.rs against src/protocol/common/hex.rs: what the writer prints, the
-- parsers read back.
use gdbstub.Hex.{decoded, decode_hex, decode_hex_buf, ascii2byte}
use gdbstub.ResponseWriter.Texts.{hex_chars, num_text, hex_text}
use gdbstub.ResponseWriter.{hex_char, skip_zeros}
use gdbstub.BeBytes.Value.{be_value-be_bytes, be_bytes-IsByte, be_value}
use gdbstub.BeBytes.{be_bytes}
use gdbstub.Prelude.{
  all_below, eq_below, Bool-cases, Bytes, ◌==◌, length, All, IsByte, ok, ℕ, ◌+◌, ◌*◌, ◌/◌, ◌%◌, ◌^◌,
  ◌≤◌, ◌<◌, bit_and, ◌≡◌, refl, ap, ◌∙◌, ◌≢◌, inl, inr, false, some, [], ◌∷◌, arith,
}
use gdbstub.Hex.Number.{hex_value, decode_hex_iff}
use gdbstub.Hex.Buffer.{pair_values, hex_bytes, answer, decode_hex_buf-hex_bytes}

pub high_nybble : (b : ℕ) → b < 256 → bit_and b 0xf0 / 2 ^ 4 ≡ b / 16
unfolding all_below
high_nybble = eq_below _ _ 256 refl

pub low_nybble : (b : ℕ) → b < 256 → bit_and b 0x0f ≡ b % 16
unfolding all_below
low_nybble = eq_below _ _ 256 refl

ascii2byte-hex_char : (d : ℕ) → d < 16 → ascii2byte (hex_char d) ≡ some d
unfolding ascii2byte hex_char
ascii2byte-hex_char d h = ground arith

-- The two digits of a byte say its halves.
hex_digits :
    (b : ℕ)
    → b < 256
    → (ascii2byte (hex_char (bit_and b 0xf0 / 2 ^ 4)) ≡ some (b / 16))
      × (ascii2byte (hex_char (bit_and b 0x0f)) ≡ some (b % 16))
hex_digits b h = (
  rw (high_nybble b h) (ascii2byte-hex_char (b / 16) (omega arith)),
  rw (low_nybble b h) (ascii2byte-hex_char (b % 16) (omega arith)),
)

pair_values-hex_text : (bs : Bytes) → All IsByte bs → pair_values (hex_text bs) ≡ some bs
pair_values-hex_text [] h = refl
pair_values-hex_text (b ∷ bs) (hb, h) =
    let (hi, lo) = hex_digits b hb in
    let value : b / 16 * 16 + b % 16 ≡ b = omega arith in
    rw hi (rw lo (rw (pair_values-hex_text bs h) (rw value)))

pub length-hex_text : (bs : Bytes) → length (hex_text bs) ≡ 2 * length bs
length-hex_text [] = refl
length-hex_text (b ∷ bs) = omega (arith, length-hex_text bs)

hex_bytes-hex_text : (bs : Bytes) → All IsByte bs → hex_bytes (hex_text bs) ≡ some bs
hex_bytes-hex_text [] h = refl
hex_bytes-hex_text (b ∷ bs) h =
    let odd : (length (hex_char (bit_and b 0x0f) ∷ hex_text bs) % 2 == 0) ≡ false =
      ground (arith, length-hex_text bs) in
    rw odd (pair_values-hex_text (b ∷ bs) h)

-- `decode_hex_buf` reads back every byte string that `write_hex_buf` prints.
pub decode_hex_buf-hex_text :
    (bs : Bytes) → All IsByte bs → decode_hex_buf (hex_text bs) ≡ decoded bs
decode_hex_buf-hex_text bs h =
    decode_hex_buf-hex_bytes (hex_text bs) ∙ ap answer (hex_bytes-hex_text bs h)

pub hex_value-hex_text :
    (bs : Bytes) (acc : ℕ) → All IsByte bs → hex_value acc (hex_text bs) ≡ some (be_value acc bs)
hex_value-hex_text [] acc h = refl
hex_value-hex_text (b ∷ bs) acc (hb, h) =
    let (hi, lo) = hex_digits b hb in
    let value : (acc * 16 + b / 16) * 16 + b % 16 ≡ acc * 256 + b = omega arith in
    rw hi (rw lo (rw value (hex_value-hex_text bs (acc * 256 + b) h)))

be_value-skip_zeros : (bs : Bytes) → be_value 0 (skip_zeros bs) ≡ be_value 0 bs
be_value-skip_zeros [] = refl
be_value-skip_zeros (b ∷ bs) = elim (Bool-cases (b == 0)) [
  | inl z ↦ let e : b ≡ 0 = ground arith in rw z (be_value-skip_zeros bs ∙ rw e)
  | inr nz ↦ rw nz
]

pub skip_zeros-IsByte : (bs : Bytes) → All IsByte bs → All IsByte (skip_zeros bs)
skip_zeros-IsByte [] h = tt
skip_zeros-IsByte (b ∷ bs) (hb, h) = elim (Bool-cases (b == 0)) [
  | inl z ↦ rw z (skip_zeros-IsByte bs h)
  | inr nz ↦ rw nz (hb, h)
]

hex_value-num_text : (size n : ℕ) → n < 256 ^ size → hex_value 0 (num_text size n) ≡ some n
hex_value-num_text size n fits = elim (Bool-cases (n == 0)) [
  | inl z ↦ rw z (unfold hex_char ascii2byte in ground arith)
  | inr nz ↦ rw nz (
      hex_value-hex_text (skip_zeros (be_bytes size n)) 0
        (skip_zeros-IsByte (be_bytes size n) (be_bytes-IsByte size n))
      ∙ ap some (be_value-skip_zeros (be_bytes size n) ∙ be_value-be_bytes size n fits))
]

num_text-ne-nil : (size n : ℕ) → n < 256 ^ size → num_text size n ≢ []
num_text-ne-nil size n fits e =
    let v : hex_value 0 [] ≡ some n = rw e at (hex_value-num_text size n fits) in
    elim (Bool-cases (n == 0)) [
      | inl z ↦ let none_left : hex_chars 0 ≡ [] = rw z at e in cc
      | inr nz ↦ absurd (ground arith)
    ]

-- `decode_hex` reads back every number that `write_num` prints, into any type that holds it.
pub decode_hex-num_text :
    (max size n : ℕ) → n < 256 ^ size → n ≤ max → 16 ≤ max → decode_hex max (num_text size n) ≡ ok n
decode_hex-num_text max size n fits small wide =
    (decode_hex_iff max (num_text size n) n wide).1
      (num_text-ne-nil size n fits, hex_value-num_text size n fits, small)
