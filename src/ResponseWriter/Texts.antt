-- ===== src/ResponseWriter/Texts.antt =====
-- src/protocol/response_writer.rs: `write_hex`, `write_hex_buf`, `write_binary` and `write_num`
-- write a text, byte by byte; here the texts, over any connection.
use gdbstub.ResponseWriter.{
  write, ResponseWriter, write_hex, write_bytes, hex_char, is_special, write_hex_buf, write_binary,
  skip_zeros, write_num,
}
use gdbstub.BeBytes.{be_bytes}
use gdbstub.BeBytes.Value.{take-be_bytes, to_be_bytes-fits}
use gdbstub.Prelude.{
  Bool-cases, Bytes, ◌==◌, if◌then◌else◌, replicate, ℕ, ◌/◌, ◌^◌, ◌≤◌, bit_and, bit_xor, ◌≡◌, refl,
  sym, ap, ◌∙◌, inl, inr, [], ◌∷◌, ◌++◌,
}
use gdbstub.Prelude.Exec.{◌>>◌, continue_ext, continue_assoc, continue-pure, continue}
use gdbstub.Connection.{Connection}

-- The two digits of a byte.
abbrev pub hex_chars : ℕ → Bytes
hex_chars n = hex_char (bit_and n 0xf0 / 2 ^ 4) ∷ hex_char (bit_and n 0x0f) ∷ []

abbrev pub hex_text : Bytes → Bytes
hex_text [] = []
hex_text (b ∷ bs) = hex_chars b ++ hex_text bs

abbrev pub binary_text : Bytes → Bytes
binary_text [] = []
binary_text (b ∷ bs) =
    if is_special b then b'}' ∷ bit_xor b 0x20 ∷ binary_text bs else b ∷ binary_text bs

-- The text of a number of `size` bytes.
abbrev pub num_text : ℕ → ℕ → Bytes
num_text size n = if n == 0 then hex_chars 0 else hex_text (skip_zeros (be_bytes size n))

module _ (c : Connection) where
  pub write_bytes-append :
      (xs ys : Bytes) (w : ResponseWriter c.Conn)
      → write_bytes c (xs ++ ys) w ≡ (do write_bytes c xs; write_bytes c ys) w
  unfolding write_bytes
  write_bytes-append [] ys w = refl
  write_bytes-append (x ∷ xs) ys w =
      continue_ext _ _ (write c x w) (λ _ v. write_bytes-append xs ys v)
      ∙ sym (continue_assoc _ _ (write c x w))

  pub write_hex-text :
      (b : ℕ) (w : ResponseWriter c.Conn) → write_hex c b w ≡ write_bytes c (hex_chars b) w
  unfolding write_hex write_bytes
  write_hex-text b w = sym (
      continue_ext _ _ (write c (hex_char (bit_and b 0xf0 / 2 ^ 4)) w)
        λ _ v. continue-pure (write c (hex_char (bit_and b 0x0f)) v))

  pub write_hex_buf-text :
      (bs : Bytes) (w : ResponseWriter c.Conn)
      → write_hex_buf c bs w ≡ write_bytes c (hex_text bs) w
  unfolding write_hex_buf
  write_hex_buf-text [] w = unfold write_bytes in refl
  write_hex_buf-text (b ∷ bs) w =
      ap (continue (λ _. write_hex_buf c bs)) (write_hex-text b w)
      ∙ continue_ext _ _ (write_bytes c (hex_chars b) w) (λ _ v. write_hex_buf-text bs v)
      ∙ sym (write_bytes-append (hex_chars b) (hex_text bs) w)

  pub write_binary-text :
      (bs : Bytes) (w : ResponseWriter c.Conn)
      → write_binary c bs w ≡ write_bytes c (binary_text bs) w
  unfolding write_binary write_bytes
  write_binary-text [] w = refl
  write_binary-text (b ∷ bs) w = elim (Bool-cases (is_special b)) [
    | inl special ↦ rw special (
        continue_ext _ _ (write c b'}' w)
          λ _ v. continue_ext _ _ (write c (bit_xor b 0x20) v) (λ _ u. write_binary-text bs u))
    | inr plain ↦ rw plain (continue_ext _ _ (write c b w) (λ _ v. write_binary-text bs v))
  ]

  pub write_num-text :
      (size n : ℕ) (w : ResponseWriter c.Conn)
      → size ≤ 16
      → write_num c size n w ≡ write_bytes c (num_text size n) w
  unfolding write_num
  write_num-text size n w small = elim (Bool-cases (n == 0)) [
    | inl z ↦ rw z (write_hex-text 0 w)
    | inr nz ↦
        rw (nz, to_be_bytes-fits size n (replicate 16 0) small)
          (ap (λ bs. write_hex_buf c (skip_zeros bs) w) (take-be_bytes size n _)
            ∙ write_hex_buf-text (skip_zeros (be_bytes size n)) w)
  ]
