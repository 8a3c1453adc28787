-- ===== src/Commands/Base/RoundTrip.antt =====
-- src/protocol/commands/_m_upcase.rs: the packet that writes memory, as a client prints it.
use gdbstub.Prelude.{
  usize_max, Bool-cases, Bytes, ◌==◌, All, IsByte, ℕ, ◌/◌, ◌%◌, ◌≤◌, ◌<◌, ◌≡◌, refl, ap, ◌∙◌, inl,
  inr, Bool, false, ◌||◌, some, [], ◌∷◌, ◌++◌, arith,
}
use gdbstub.Prelude.Slices.{split, Plain, split_at, split-Plain}
use gdbstub.BeBytes.{be_bytes}
use gdbstub.BeBytes.Value.{be_bytes-IsByte}
use gdbstub.ResponseWriter.{hex_char, skip_zeros}
use gdbstub.ResponseWriter.Texts.{hex_text, num_text}
use gdbstub.ResponseWriter.Decoding.{
  high_nybble, low_nybble, skip_zeros-IsByte, decode_hex_buf-hex_text, decode_hex-num_text,
}
use gdbstub.Commands.Types.{Base}
use gdbstub.Commands.Base.{parse_m_upcase}

abbrev is_separator : ℕ → Bool
is_separator b = b == b',' || b == b':'

hex_char-digit : (d : ℕ) → d < 16 → is_separator (hex_char d) ≡ false
unfolding hex_char
hex_char-digit d h = ground arith

Plain-hex_text : (bs : Bytes) → All IsByte bs → Plain is_separator (hex_text bs)
Plain-hex_text [] h = tt
Plain-hex_text (b ∷ bs) (hb, h) = (
  rw (high_nybble b hb) (hex_char-digit (b / 16) (omega arith)),
  (rw (low_nybble b hb) (hex_char-digit (b % 16) (omega arith)), Plain-hex_text bs h),
)

Plain-num_text : (n : ℕ) → Plain is_separator (num_text 8 n)
Plain-num_text n = elim (Bool-cases (n == 0)) [
  | inl z ↦ rw z (Plain-hex_text (0 ∷ []) (omega arith, tt))
  | inr nz ↦ rw nz (
      Plain-hex_text (skip_zeros (be_bytes 8 n))
        (skip_zeros-IsByte (be_bytes 8 n) (be_bytes-IsByte 8 n)))
]

-- A client's request to write `val` at an address is parsed to the bytes of the address, the length
-- and the bytes to write, all in hex text, where the length fits `usize`.
pub parse_m_upcase-hex_text :
    (addr val : Bytes) (len : ℕ)
    → All IsByte addr
    → All IsByte val
    → len ≤ usize_max
    → parse_m_upcase (hex_text addr ++ (b',' ∷ (num_text 8 len ++ (b':' ∷ hex_text val))))
      ≡ some (Base.m_upcase addr len val)
unfolding parse_m_upcase
parse_m_upcase-hex_text addr val len ha hv fits =
    let tail = num_text 8 len ++ (b':' ∷ hex_text val) in
    let first : split is_separator (hex_text addr ++ (b',' ∷ tail))
        ≡ hex_text addr ∷ split is_separator tail =
      split_at is_separator (hex_text addr) b',' tail (Plain-hex_text addr ha) refl in
    let second : split is_separator tail ≡ num_text 8 len ∷ split is_separator (hex_text val) =
      split_at is_separator (num_text 8 len) b':' (hex_text val) (Plain-num_text len) refl in
    let third : split is_separator (hex_text val) ≡ hex_text val ∷ [] =
      split-Plain is_separator (hex_text val) (Plain-hex_text val hv) in
    let parts : split is_separator (hex_text addr ++ (b',' ∷ tail))
        ≡ hex_text addr ∷ num_text 8 len ∷ hex_text val ∷ [] =
      first ∙ ap (◌∷◌ (hex_text addr)) (second ∙ ap (◌∷◌ (num_text 8 len)) third) in
    rw parts (
      rw (decode_hex_buf-hex_text addr ha) (
        rw (decode_hex-num_text usize_max 8 len (omega arith) fits (omega arith))
          (rw (decode_hex_buf-hex_text val hv) refl)))
