-- ===== src/Stub/Access/Memory.antt =====
-- src/gdbstub_impl/ext/base.rs: `m` reads memory in chunks that fit the packet buffer.
use gdbstub.Prelude.{
  Bytes, ltb, ◌==◌, ok, ℕ, zero, suc, ◌+◌, ◌-◌, ◌≤◌, ◌<◌, min, ◌≡◌, refl, sym, ap, ◌∙◌, true, false,
  some, [], ◌∷◌, ◌++◌, arith,
}
use gdbstub.Prelude.Exec.{◌>>◌, done, fail, panic, Outcome, pure, continue, bind-done}
use gdbstub.Connection.{Connection}
use gdbstub.BeBytes.{from_be_bytes}
use gdbstub.ResponseWriter.{ResponseWriter, write_bytes}
use gdbstub.ResponseWriter.Texts.{hex_chars, hex_text, write_hex_buf-text, write_bytes-append}
use gdbstub.Target.{Target}
use gdbstub.Stub.{
  answered, handle_error, Session, handled, add, put, wrote, Handler, expect, GdbStubError,
}
use gdbstub.Stub.Access.{
  ask_selected, num_cast, read_chunk, access, usize_bound, read_chunks, handle_m,
}

-- The bytes of a memory from an address on.
abbrev pub slice : (ℕ → ℕ) → ℕ → ℕ → Bytes
slice mem start zero = []
slice mem start (suc n) = mem start ∷ slice mem (start + 1) n

slice-add :
    (mem : ℕ → ℕ) (start m k : ℕ)
    → slice mem start (m + k) ≡ slice mem start m ++ slice mem (start + m) k
slice-add mem start zero k =
    let none_yet : 0 + k ≡ k = omega arith in
    let here : start ≡ start + 0 = omega arith in
    ap (slice mem start) none_yet ∙ ap (λ a. slice mem a k) here
slice-add mem start (suc m) k =
    let one_more : suc m + k ≡ suc (m + k) = omega arith in
    let later : start + 1 + m ≡ start + suc m = omega arith in
    ap (slice mem start) one_more
    ∙ ap (◌∷◌ (mem start))
        (slice-add mem (start + 1) m k ∙ ap (λ a. slice mem (start + 1) m ++ slice mem a k) later)

pub hex_text-append : (xs ys : Bytes) → hex_text (xs ++ ys) ≡ hex_text xs ++ hex_text ys
hex_text-append [] ys = refl
hex_text-append (x ∷ xs) ys = ap (λ r. hex_chars x ++ r) (hex_text-append xs ys)

module _ (c : Connection) (t : Target) where
  pub wrote_over :
      {A : Type 0} (s : Session c t) (w : ResponseWriter c.Conn)
      (r : Outcome c.ConnError A × ResponseWriter c.Conn)
      → wrote c t (record s { res = w }) r ≡ wrote c t s r
  wrote_over s w (done a, v) = refl
  wrote_over s w (fail e, v) = refl
  wrote_over s w (panic, v) = refl

  -- A text that is written, and then another.
  then_write :
      (f : Unit {0} → Handler c t (Unit {0})) (s : Session c t) (ys : Bytes)
      (r : Outcome c.ConnError (Unit {0}) × ResponseWriter c.Conn)
      → ((w : ResponseWriter c.Conn)
          → f tt (record s { res = w }) ≡ put c t (write_bytes c ys) (record s { res = w }))
      → continue f (wrote c t s r) ≡ wrote c t s (continue (λ _. write_bytes c ys) r)
  then_write f s ys (done _, w) h = h w ∙ wrote_over s w (write_bytes c ys w)
  then_write f s ys (fail e, w) h = refl
  then_write f s ys (panic, w) h = refl

  -- The selected thread sees the memory `mem`, and reading it changes nothing.
  abbrev pub HasMemory : (ℕ → ℕ) → ℕ → Type 0
  HasMemory mem tid =
      (start len : ℕ) (target : t.State)
      → start + len ≤ usize_bound c t
      → (access c t tid t.base_ops).read_addrs start len target ≡ (ok (slice mem start len), target)

  pub add-fits :
      (bound a b : ℕ) (s : Session c t) → a + b < bound → add c t bound a b s ≡ (done (a + b), s)
  unfolding add
  add-fits bound a b s h = let fits : ltb (a + b) bound ≡ true = ground arith in rw fits refl

  read_chunk-slice :
      (mem : ℕ → ℕ) (buf_len addr i n : ℕ) (s : Session c t)
      → HasMemory mem s.current_mem_tid
      → 0 < n
      → addr + i + n ≤ usize_bound c t
      → read_chunk c t buf_len addr i n s
        ≡ put c t (write_bytes c (hex_text (slice mem (addr + i) (min n buf_len)))) s
  unfolding read_chunk
  read_chunk-slice mem buf_len addr i n s m some_left fits =
      let chunk = slice mem (addr + i) (min n buf_len) in
      let small : ltb i (usize_bound c t) ≡ true = ground arith in
      let cast : expect c t (num_cast c t i) GdbStubError.target_mismatch s ≡ (done i, s) =
        rw small refl in
      let memory : (access c t s.current_mem_tid t.base_ops).read_addrs (addr + i) (min n buf_len)
            s.target
          ≡ (ok chunk, s.target) =
        m (addr + i) (min n buf_len) s.target (omega arith) in
      let asked : ask_selected c t (λ a. a.read_addrs (addr + i) (min n buf_len)) s
          ≡ (done chunk, s) =
        unfold handle_error in ap (answered c t s) memory in
      bind-done _ cast
      ∙ bind-done _ (add-fits (usize_bound c t) addr i s (omega arith))
      ∙ bind-done _ asked
      ∙ ap (wrote c t s) (write_hex_buf-text c chunk s.res)

  read_chunks-slice :
      (mem : ℕ → ℕ) (fuel buf_len addr i n : ℕ) (s : Session c t)
      → HasMemory mem s.current_mem_tid
      → n ≤ fuel
      → 0 < buf_len
      → addr + i + n ≤ usize_bound c t
      → read_chunks c t fuel buf_len addr i n s
        ≡ put c t (write_bytes c (hex_text (slice mem (addr + i) n))) s
  unfolding read_chunks
  read_chunks-slice mem zero buf_len addr i n s m enough room fits =
      let z : n ≡ 0 = omega arith in rw z (unfold write_bytes in refl)
  read_chunks-slice mem (suc fuel) buf_len addr i zero s m enough room fits =
      unfold write_bytes in refl
  read_chunks-slice mem (suc fuel) buf_len addr i (suc n) s m enough room fits =
      let k = min (suc n) buf_len in
      let front = slice mem (addr + i) k in
      let back = slice mem (addr + (i + k)) (suc n - k) in
      let whole : front ++ back ≡ slice mem (addr + i) (suc n) =
        let place : addr + (i + k) ≡ addr + i + k = omega arith in
        let count : k + (suc n - k) ≡ suc n = omega arith in
        ap (λ a. front ++ slice mem a (suc n - k)) place
        ∙ sym (slice-add mem (addr + i) k (suc n - k))
        ∙ ap (slice mem (addr + i)) count in
      let going : (suc n == 0) ≡ false = ground arith in
      let rounds = λ (_ : Unit {0}). read_chunks c t fuel buf_len addr (i + k) (suc n - k) in
      rw going (
        ap (continue rounds) (read_chunk-slice mem buf_len addr i (suc n) s m (omega arith) fits)
        ∙ then_write rounds s (hex_text back) (write_bytes c (hex_text front) s.res) (λ w.
          read_chunks-slice mem fuel buf_len addr (i + k) (suc n - k) (record s { res = w }) m
            (omega arith) room (omega arith))
        ∙ ap (wrote c t s) (sym (write_bytes-append c (hex_text front) (hex_text back) s.res))
        ∙ ap (λ bs. put c t (write_bytes c bs) s)
            (sym (hex_text-append front back) ∙ ap hex_text whole))

  -- `m` answers with the hex text of the memory from the decoded address on, whatever the size of the
  -- buffer that it reads through, as long as that has a byte: the target's memory is unchanged by
  -- reads, and the range stays within the address space.
  pub handle_m-slice :
      (mem : ℕ → ℕ) (addr_bytes : Bytes) (addr len buf_len : ℕ) (s : Session c t)
      → HasMemory mem s.current_mem_tid
      → from_be_bytes t.arch.usize_bytes addr_bytes ≡ some addr
      → 0 < buf_len
      → addr + len ≤ usize_bound c t
      → handle_m c t addr_bytes len buf_len s
        ≡ (do put c t (write_bytes c (hex_text (slice mem addr len))); pure handled) s
  unfolding handle_m
  handle_m-slice mem addr_bytes addr len buf_len s m decodes room fits =
      let start : addr + 0 ≡ addr = omega arith in
      rw decodes (
        ap (continue (λ _. pure handled)) (
          read_chunks-slice mem len buf_len addr 0 len s m (omega arith) room (omega arith)
          ∙ ap (λ a. put c t (write_bytes c (hex_text (slice mem a len))) s) start))
