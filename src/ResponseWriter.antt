-- ===== src/ResponseWriter.antt =====
-- src/protocol/response_writer.rs: framing, the running checksum and run-length encoding.
pub mod Rle
pub mod Sent
pub mod Framing
pub mod Texts
pub mod Ids
pub mod Decoding
pub mod Delivery
pub mod ReadBack
pub mod Binary
pub mod Steps
use gdbstub.Prelude.{
  Bool-cases, Option-cases, Bytes, codes, equal, equal_iff, ltb, leb, ◌==◌, if◌then◌else◌, length,
  get_elem?, set, take, drop, replicate, length-append, length-drop, take-length-append,
  drop-length-append, get_elem?-append_here, set-append_here, All, All-append, IsByte, Result, ok,
  err, to_option, ok_or, map_err, ℕ, zero, suc, ◌+◌, ◌-◌, ◌*◌, ◌/◌, ◌%◌, ◌^◌, ◌≤◌, ◌<◌, min, bit_or,
  bit_and, bit_xor, ◌≡◌, refl, sym, ap, ◌∙◌, ◌≢◌, ◌↔◌, ◌⊎◌, inl, inr, Bool, true, false, not, ◌&&◌,
  ◌||◌, Option, none, some, List, [], ◌∷◌, ◌++◌, map, append-nil, append_assoc, arith,
}
use gdbstub.Prelude.Exec.{Outcome, done, fail, Exec, pure, abort, ◌>>=◌, ◌>>◌}
use gdbstub.Connection.{Connection}
use gdbstub.BeBytes.{to_be_bytes}

-- `msg`, the copy of the packet for the log, is left out: nothing reads it but the log.
pub record ResponseWriter (Conn : Type 0) : Type 0 where
  pub inner : Conn
  pub started : Bool
  pub checksum : ℕ
  pub rle_char : ℕ
  pub rle_repeat : ℕ

unfoldable pub new : {Conn : Type 0} → Conn → ResponseWriter Conn
new inner = record { inner = inner; started = false; checksum = 0; rle_char = 0; rle_repeat = 0 }

abbrev pub ascii_first_print : ℕ
ascii_first_print = b' '

abbrev pub ascii_last_print : ℕ
ascii_last_print = b'~'

-- The character of a digit below 16.
unfoldable pub hex_char : ℕ → ℕ
hex_char digit = if leb digit 9 then b'0' + digit else b'a' + digit - 10

-- The bytes that `write_binary` escapes.
abbrev pub is_special : ℕ → Bool
is_special b = b == b'#' || b == b'$' || b == b'}' || b == b'*'

-- `skip_while(|&b| b == 0)`.
abbrev pub skip_zeros : Bytes → Bytes
skip_zeros [] = []
skip_zeros (b ∷ bs) = if b == 0 then skip_zeros bs else b ∷ bs

module _ (c : Connection) where
  abbrev pub Writer : Type 0 → Type 0
  Writer A = Exec (ResponseWriter c.Conn) c.ConnError A

  abbrev settle :
      ResponseWriter c.Conn
      → Result c.ConnError (Unit {0}) × c.Conn
      → Outcome c.ConnError (Unit {0}) × ResponseWriter c.Conn
  settle w (ok _, k) = (done tt, record w { inner = k })
  settle w (err e, k) = (fail e, record w { inner = k })

  -- `self.inner.write(byte)`.
  unfoldable pub conn_write : ℕ → Writer (Unit {0})
  conn_write byte w = settle w (c.write byte w.inner)

  unfoldable pub conn_flush : Writer (Unit {0})
  conn_flush w = settle w (c.flush w.inner)

  abbrev start : Writer (Unit {0})
  start w = if w.started then (done tt, w) else conn_write b'$' (record w { started = true })

  abbrev add_checksum : ℕ → Writer (Unit {0})
  add_checksum byte w = (done tt, record w { checksum = (w.checksum + byte) % 256 })

  unfoldable pub inner_write : ℕ → Writer (Unit {0})
  inner_write byte = do start; add_checksum byte; conn_write byte

  abbrev repeat_write : ℕ → ℕ → Writer (Unit {0})
  repeat_write zero char = pure tt
  repeat_write (suc n) char = do inner_write char; repeat_write n char

  abbrev set_repeat : ℕ → Writer (Unit {0})
  set_repeat n w = (done tt, record w { rle_repeat = n })

  -- The loop of `write`, on `rle_repeat`, up to the assignments behind the `match`.
  unfoldable pub write_run : ℕ → ℕ → Writer (Unit {0})
  write_run char zero = pure tt
  write_run char (suc n) =
      let again = (do inner_write char; set_repeat n; write_run char n) in
      if leb (suc n) 3
      then repeat_write (suc n) char
      else if suc n == 6 || suc n == 7
      then again
      else do inner_write char; inner_write b'*'; inner_write (ascii_first_print - 4 + suc n)

  abbrev begin_run : ℕ → Writer (Unit {0})
  begin_run byte w = (done tt, record w { rle_char = byte; rle_repeat = 1 })

  unfoldable pub write : ℕ → Writer (Unit {0})
  write byte w =
      let rle_printable = leb (ascii_first_print - 4 + (w.rle_repeat + 1)) ascii_last_print in
      if byte == w.rle_char && rle_printable
      then (done tt, record w { rle_repeat = w.rle_repeat + 1 })
      else (do write_run w.rle_char w.rle_repeat; begin_run byte) w

  -- The loop of `write_str` over the bytes of the text.
  unfoldable pub write_bytes : Bytes → Writer (Unit {0})
  write_bytes [] = pure tt
  write_bytes (b ∷ bs) = do write b; write_bytes bs

  unfoldable pub write_hex : ℕ → Writer (Unit {0})
  write_hex byte = do
    write (hex_char (bit_and byte 0xf0 / 2 ^ 4))
    write (hex_char (bit_and byte 0x0f))

  unfoldable pub write_hex_buf : Bytes → Writer (Unit {0})
  write_hex_buf [] = pure tt
  write_hex_buf (b ∷ bs) = do write_hex b; write_hex_buf bs

  unfoldable pub write_binary : Bytes → Writer (Unit {0})
  write_binary [] = pure tt
  write_binary (b ∷ bs) =
      if is_special b
      then (do write b'}'; write (bit_xor b 0x20); write_binary bs)
      else do write b; write_binary bs

  -- `write_num` of a number of `size` bytes. The `unwrap` panics for a number of over 128 bits.
  unfoldable pub write_num : ℕ → ℕ → Writer (Unit {0})
  write_num size digit =
      if digit == 0 then write_hex 0 else elim (to_be_bytes size digit (replicate 16 0)) [
        | none ↦ abort
        | some (len, buf) ↦ write_hex_buf (skip_zeros (take len buf))
      ]

  -- `flush`: the '#' waits in the RLE buffer, so `checksum` covers the body alone.
  unfoldable pub flush : Writer (Unit {0})
  flush = do
    write b'#'
    checksum ← λ w. (done w.checksum, w)
    write_hex checksum
    write 0
    conn_flush
