-- ===== src/Packet.antt =====
-- src/protocol/packet.rs: `PacketBuf`, a view of the packet buffer whose checksum was verified.
pub mod Accepts
pub mod Received
use gdbstub.Hex.{decode_hex}
use gdbstub.Prelude.Slices.{nth, starts_with, split, range}
use gdbstub.Checksum.{wrapping_sum}
use gdbstub.Prelude.{
  usize_max, u8_max, all_below, all_below_sound, eq_below, Bool-cases, Option-cases, Bytes, codes,
  equal, equal_iff, ltb, leb, ◌==◌, if◌then◌else◌, length, get_elem?, set, take, drop, replicate,
  length-append, length-drop, take-length-append, drop-length-append, get_elem?-append_here,
  set-append_here, All, All-append, IsByte, Result, ok, err, to_option, ok_or, map_err, ℕ, zero,
  suc, ◌+◌, ◌-◌, ◌*◌, ◌/◌, ◌%◌, ◌^◌, ◌≤◌, ◌<◌, min, bit_or, bit_and, bit_xor, ◌≡◌, refl, sym, ap,
  ◌∙◌, ◌≢◌, ◌↔◌, ◌⊎◌, inl, inr, Bool, true, false, not, ◌&&◌, ◌||◌, Option, none, some, List, [],
  ◌∷◌, ◌++◌, map, append-nil, append_assoc, arith,
}
use gdbstub.Prelude.ResultDo.{◌>>=◌}

pub data PacketParseError : Type 0 where
  checksum_mismatched : ℕ → ℕ → PacketParseError
  empty_buf : PacketParseError
  missing_checksum : PacketParseError
  malformed_checksum : PacketParseError
  malformed_command : PacketParseError
  not_ascii : PacketParseError
  unexpected_header : ℕ → PacketParseError

-- `body_range` is `start..end`.
pub record PacketBuf : Type 0 where
  pub buf : Bytes
  pub start : ℕ
  pub end : ℕ

-- `get(..2)`.
abbrev first_two : Bytes → Option Bytes
first_two (a ∷ b ∷ _) = some (a ∷ b ∷ [])
first_two _ = none

unfoldable pub is_ascii : Bytes → Bool
is_ascii [] = true
is_ascii (b ∷ bs) = ltb b 128 && is_ascii bs

-- The guards of `PacketBuf::new` behind the split, in the order of the source.
unfoldable pub validate : Bytes → Bytes → Option Bytes → Result PacketParseError PacketBuf
unfolding is_ascii
validate pkt_buf body checksum_part = do
  rest ← ok_or checksum_part missing_checksum
  text ← ok_or (first_two rest) malformed_checksum
  body ← if is_ascii body then ok body else err PacketParseError.not_ascii
  checksum ← map_err (λ _. malformed_checksum) (decode_hex u8_max text)
  let calculated = wrapping_sum 0 body
  if calculated == checksum
      then ok (record { buf = pkt_buf; start = 1; end = 1 + length body })
      else err (checksum_mismatched checksum calculated)

abbrev or_empty : Option Bytes → Bytes
or_empty none = []
or_empty (some xs) = xs

-- `PacketBuf::new`. The iterator over the pieces gives at least one, so the `unwrap` is safe.
unfoldable pub new : Bytes → Result PacketParseError PacketBuf
unfolding validate
new [] = err empty_buf
new (header ∷ rest) =
    let parts = split (λ b. b == b'#') rest in
    validate (header ∷ rest) (or_empty (nth 0 parts)) (nth 1 parts)

-- `into_body`.
abbrev pub into_body : PacketBuf → Bytes
into_body p = range p.start p.end p.buf

-- `strip_prefix`: whether the body starts with the prefix, which is then cut off.
unfoldable pub strip_prefix : Bytes → PacketBuf → Bool × PacketBuf
strip_prefix prefix p =
    if starts_with prefix (into_body p)
    then (true, record p { start = p.start + length prefix })
    else (false, p)

abbrev pub full_len : PacketBuf → ℕ
full_len p = length p.buf
