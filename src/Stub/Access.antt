-- ===== src/Stub/Access.antt =====
-- src/gdbstub_impl/ext/base.rs and single_register_access.rs: registers and memory.
pub mod Memory
pub mod Blocks
use gdbstub.Prelude.{
  usize_max, u8_max, all_below, all_below_sound, eq_below, Bool-cases, Option-cases, Bytes, codes,
  equal, equal_iff, ltb, leb, ◌==◌, if◌then◌else◌, length, get_elem?, set, take, drop, replicate,
  length-append, length-drop, take-length-append, drop-length-append, get_elem?-append_here,
  set-append_here, All, All-append, IsByte, Result, ok, err, to_option, ok_or, map_err, ℕ, zero,
  suc, ◌+◌, ◌-◌, ◌*◌, ◌/◌, ◌%◌, ◌^◌, ◌≤◌, ◌<◌, min, bit_or, bit_and, bit_xor, ◌≡◌, refl, sym, ap,
  ◌∙◌, ◌≢◌, ◌↔◌, ◌⊎◌, inl, inr, Bool, true, false, not, ◌&&◌, ◌||◌, Option, none, some, List, [],
  ◌∷◌, ◌++◌, map, append-nil, append_assoc, arith,
}
use gdbstub.Prelude.Exec.{◌>>=◌, ◌>>◌, done, fail, panic, Outcome, pure, abort}
use gdbstub.Connection.{Connection}
use gdbstub.BeBytes.{from_be_bytes}
use gdbstub.ResponseWriter.{Writer, write_bytes, write_hex_buf}
use gdbstub.Target
use gdbstub.Target.{Target, BaseOps, TargetResult}
use gdbstub.Commands.Types.{SingleRegisterAccess}
use gdbstub.Stub.{GdbStubError, Handler, HandlerStatus, handled, needs_ok, put, ask, expect, add}

module _ (c : Connection) (t : Target) where
  -- The accesses of the selected thread.
  unfoldable pub access :
      ℕ
      → BaseOps t.State t.Error t.arch.Registers t.arch.RegId
      → Target.Access t.State t.Error t.arch.Registers
  access tid (BaseOps.single_thread ops) = ops.access
  access tid (BaseOps.multi_thread ops) = ops.access tid

  -- An operation on the thread `current_mem_tid`.
  abbrev pub ask_selected :
      {A : Type 0}
      → (Target.Access t.State t.Error t.arch.Registers → TargetResult t.State t.Error A)
      → Handler c t A
  ask_selected op s = ask c t (op (access s.current_mem_tid t.base_ops)) s

  abbrev write_register_byte : Option ℕ → Writer c (Unit {0})
  write_register_byte none = write_bytes c (codes "xx")
  write_register_byte (some b) = write_hex_buf c (b ∷ [])

  abbrev worse :
      Outcome c.ConnError (Unit {0})
      → Outcome c.ConnError (Unit {0})
      → Outcome c.ConnError (Unit {0})
  worse panic b = panic
  worse a (done _) = a
  worse a (fail e) = fail e
  worse a panic = panic

  -- The callback of `gdb_serialize` keeps writing behind an error, and the last error is returned.
  unfoldable pub write_register_bytes : List (Option ℕ) → Writer c (Unit {0})
  write_register_bytes [] w = (done tt, w)
  write_register_bytes (b ∷ bs) w =
      let (r, v) = write_register_byte b w in
      let (rest, v') = write_register_bytes bs v in (worse r rest, v')

  -- `g`.
  unfoldable pub handle_g : Handler c t HandlerStatus
  unfolding write_register_bytes
  handle_g = do
    regs ← ask_selected (λ a. a.read_registers t.arch.default_registers)
    put c t (write_register_bytes (t.arch.gdb_serialize regs))
    pure handled

  -- `G`.
  unfoldable pub handle_g_upcase : Bytes → Handler c t HandlerStatus
  handle_g_upcase vals = do
    regs ← expect c t (t.arch.gdb_deserialize vals) GdbStubError.target_mismatch
    ask_selected (λ a. a.write_registers regs)
    pure needs_ok

  abbrev pub usize_bound : ℕ
  usize_bound = 256 ^ t.arch.usize_bytes

  -- `NumCast::from`, to the target's word.
  abbrev pub num_cast : ℕ → Option ℕ
  num_cast i = if ltb i usize_bound then some i else none

  -- One round of the loop of `m`: at most `buf_len` of the `n` bytes that are left behind the first
  -- `i` bytes.
  unfoldable pub read_chunk : ℕ → ℕ → ℕ → ℕ → Handler c t (Unit {0})
  read_chunk buf_len addr i n = do
    offset ← expect c t (num_cast i) GdbStubError.target_mismatch
    start ← add c t usize_bound addr offset
    chunk ← ask_selected (λ a. a.read_addrs start (min n buf_len))
    put c t (write_hex_buf c chunk)

  -- The loop. Each round takes at least one byte, so `n` rounds are enough.
  unfoldable pub read_chunks : ℕ → ℕ → ℕ → ℕ → ℕ → Handler c t (Unit {0})
  unfolding read_chunk
  read_chunks zero buf_len addr i n = pure tt
  read_chunks (suc fuel) buf_len addr i n =
      let chunk_size = min n buf_len in
      let more = (do
        read_chunk buf_len addr i n
        read_chunks fuel buf_len addr (i + chunk_size) (n - chunk_size)) in
      if n == 0 then pure tt else more

  -- `m`.
  unfoldable pub handle_m : Bytes → ℕ → ℕ → Handler c t HandlerStatus
  unfolding read_chunks
  handle_m addr_bytes len buf_len = do
    addr ← expect c t (from_be_bytes t.arch.usize_bytes addr_bytes) GdbStubError.target_mismatch
    read_chunks len buf_len addr 0 len
    pure handled

  -- `M`.
  unfoldable pub handle_m_upcase : Bytes → Bytes → Handler c t HandlerStatus
  handle_m_upcase addr_bytes val = do
    addr ← expect c t (from_be_bytes t.arch.usize_bytes addr_bytes) GdbStubError.target_mismatch
    ask_selected (λ a. a.write_addrs addr val)
    pure needs_ok

  -- `inner` of single_register_access.rs. Slicing the buffer of 32 bytes panics for a larger register.
  abbrev inner :
      Target.SingleRegisterAccess t.State t.Error t.arch.RegId
      → SingleRegisterAccess
      → Handler c t HandlerStatus
  inner ops (SingleRegisterAccess.p reg_id) = go (t.arch.reg_id_from_raw reg_id)
    where
      go : Option (t.arch.RegId × ℕ) → Handler c t HandlerStatus
      go none = pure handled
      go (some (id, size)) =
          let read = (do
            dst ← ask c t (ops.read_register id size)
            put c t (write_hex_buf c dst)
            pure handled) in
          if ltb 32 size then abort else read
  inner ops (SingleRegisterAccess.p_upcase reg_id val) = go (t.arch.reg_id_from_raw reg_id)
    where
      go : Option (t.arch.RegId × ℕ) → Handler c t HandlerStatus
      go none = pure handled
      go (some (id, _)) = do ask c t (ops.write_register id val); pure needs_ok

  abbrev registers :
      ℕ
      → BaseOps t.State t.Error t.arch.Registers t.arch.RegId
      → Option (Target.SingleRegisterAccess t.State t.Error t.arch.RegId)
  registers tid (BaseOps.single_thread ops) = ops.single_register_access
  registers tid (BaseOps.multi_thread ops) = chosen ops.single_register_access
    where
      chosen :
          Option (ℕ → Target.SingleRegisterAccess t.State t.Error t.arch.RegId)
          → Option (Target.SingleRegisterAccess t.State t.Error t.arch.RegId)
      chosen none = none
      chosen (some f) = some (f tid)

  -- `p` and `P`.
  unfoldable pub handle_single_register_access : SingleRegisterAccess → Handler c t HandlerStatus
  handle_single_register_access command s = go (registers s.current_mem_tid t.base_ops) s
    where
      go :
          Option (Target.SingleRegisterAccess t.State t.Error t.arch.RegId)
          → Handler c t HandlerStatus
      go none = pure handled
      go (some ops) = inner ops command
