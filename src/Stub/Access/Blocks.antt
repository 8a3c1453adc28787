-- ===== src/Stub/Access/Blocks.antt =====
-- src/gdbstub_impl/ext/base.rs: `g` prints the register block of the target.
use gdbstub.Prelude.{
  Bytes, codes, ok, ℕ, ◌≡◌, refl, sym, ap, ◌∙◌, Option, none, some, List, [], ◌∷◌, ◌++◌,
}
use gdbstub.Prelude.Exec.{◌>>◌, done, pure, continue, bind-done}
use gdbstub.Connection.{Connection, IsReliable}
use gdbstub.ResponseWriter.{write_bytes}
use gdbstub.ResponseWriter.Texts.{hex_chars, write_hex_buf-text}
use gdbstub.ResponseWriter.Sent.{W, put_all, write_bytes-put_all}
use gdbstub.Target.{Target}
use gdbstub.Stub.{answered, handle_error, Session, handled, put, wrote}
use gdbstub.Stub.Access.{ask_selected, access, handle_g, write_register_bytes, write_register_byte}

abbrev byte_text : Option ℕ → Bytes
byte_text none = codes "xx"
byte_text (some b) = hex_chars b

-- Two characters for each byte.
abbrev pub serial_text : List (Option ℕ) → Bytes
serial_text [] = []
serial_text (b ∷ bs) = byte_text b ++ serial_text bs

module _ (c : Connection) (reliable : IsReliable c) (t : Target) where
  write_register_byte-text :
      (b : Option ℕ) (w : W c reliable)
      → write_register_byte c t b w ≡ (done tt, put_all c reliable (byte_text b) w)
  write_register_byte-text none w = write_bytes-put_all c reliable (codes "xx") w
  write_register_byte-text (some b) w =
      write_hex_buf-text c (b ∷ []) w ∙ write_bytes-put_all c reliable (hex_chars b ++ []) w

  pub put_all-append :
      (xs ys : Bytes) (w : W c reliable)
      → put_all c reliable (xs ++ ys) w ≡ put_all c reliable ys (put_all c reliable xs w)
  put_all-append [] ys w = refl
  put_all-append (x ∷ xs) ys w = put_all-append xs ys _

  write_register_bytes-text :
      (bs : List (Option ℕ)) (w : W c reliable)
      → write_register_bytes c t bs w ≡ (done tt, put_all c reliable (serial_text bs) w)
  unfolding write_register_bytes
  write_register_bytes-text [] w = refl
  write_register_bytes-text (b ∷ bs) w = rw (write_register_byte-text b w) (
      rw (write_register_bytes-text bs (put_all c reliable (byte_text b) w))
        (rw (put_all-append (byte_text b) (serial_text bs) w) refl))

  -- On a connection that takes every byte, when the selected thread's registers are read, `g` writes
  -- two hex digits for each byte of the architecture's register block, in order, and "xx" for each
  -- byte that is not available.
  pub handle_g-serial_text :
      (regs : t.arch.Registers) (after : t.State) (s : Session c t)
      → (access c t s.current_mem_tid t.base_ops).read_registers t.arch.default_registers s.target
        ≡ (ok regs, after)
      → handle_g c t s
        ≡ (do put c t (write_bytes c (serial_text (t.arch.gdb_serialize regs))); pure handled)
            (record s { target = after })
  unfolding handle_g
  handle_g-serial_text regs after s reads =
      let asked : ask_selected c t (λ a. a.read_registers t.arch.default_registers) s
          ≡ (done regs, record s { target = after }) =
        unfold handle_error in ap (answered c t s) reads in
      let block = t.arch.gdb_serialize regs in
      bind-done _ asked
      ∙ ap (λ r. continue (λ _. pure handled) (wrote c t (record s { target = after }) r))
          (write_register_bytes-text block s.res
            ∙ sym (write_bytes-put_all c reliable (serial_text block) s.res))
