-- ===== src/Stub/Queries.antt =====
-- src/gdbstub_impl/ext/base.rs and memory_map.rs: handshaking, queries and the selection of threads.
pub mod Transfer
use gdbstub.Prelude.Slices.{range}
use gdbstub.Prelude.{
  Bytes, codes, leb, ◌==◌, if◌then◌else◌, length, drop, ℕ, ◌^◌, Bool, true, false, ◌&&◌, ◌||◌,
  Option, none, some, [], ◌∷◌,
}
use gdbstub.Prelude.Exec.{◌>>=◌, ◌>>◌, pure}
use gdbstub.Hex.Digits.{is_some}
use gdbstub.Connection.{Connection}
use gdbstub.ThreadId.{SpecificIdKind, SpecificThreadId}
use gdbstub.ResponseWriter.{write_num, write_binary}
use gdbstub.Target
use gdbstub.Target.{Target, BaseOps, fake_pid, single_thread_tid}
use gdbstub.Stub.{
  GdbStubError, Handler, HandlerStatus, handled, needs_ok, put, write_str, ask, expect, modify, add,
}

-- `trim`, of an ASCII text.
abbrev is_whitespace : ℕ → Bool
is_whitespace b = leb 9 b && leb b 13 || b == b' '

abbrev trim_start : Bytes → Bytes
trim_start [] = []
trim_start (b ∷ bs) = let rest = trim_start bs in if is_whitespace b then rest else b ∷ bs

abbrev trim_end : Bytes → Bytes
trim_end [] = []
trim_end (b ∷ bs) = cons_unless_blank b (trim_end bs)
  where
    cons_unless_blank : ℕ → Bytes → Bytes
    cons_unless_blank b [] = if is_whitespace b then [] else b ∷ []
    cons_unless_blank b (x ∷ xs) = b ∷ x ∷ xs

abbrev pub trim : Bytes → Bytes
trim text = trim_end (trim_start text)

-- The thread that the handlers of a thread id with `tid` name.
abbrev pub thread_of : ℕ → SpecificThreadId
thread_of tid = record {
  pid = some (SpecificIdKind.with_id fake_pid);
  tid = SpecificIdKind.with_id tid;
}

abbrev supports_reverse_cont :
    {State Error Registers RegId : Type 0} → BaseOps State Error Registers RegId → Bool
supports_reverse_cont (BaseOps.single_thread ops) = is_some ops.support_reverse_cont
supports_reverse_cont (BaseOps.multi_thread ops) = is_some ops.support_reverse_cont

abbrev supports_reverse_step :
    {State Error Registers RegId : Type 0} → BaseOps State Error Registers RegId → Bool
supports_reverse_step (BaseOps.single_thread ops) = is_some ops.support_reverse_step
supports_reverse_step (BaseOps.multi_thread ops) = is_some ops.support_reverse_step

module _ (c : Connection) (t : Target) where
  -- Whether `finish_exec` accepts the end of a replay log.
  abbrev pub guard_reverse_exec : Bool
  guard_reverse_exec = supports_reverse_cont t.base_ops || supports_reverse_step t.base_ops

  -- A feature of the reply to `qSupported`, if the target has it.
  abbrev feature : Bool → Bytes → Handler c t (Unit {0})
  feature true text = write_str c t text
  feature false text = pure tt

  extended_features : Option (Target.ExtendedMode t.State t.Error) → Handler c t (Unit {0})
  extended_features none = pure tt
  extended_features (some ops) = do
    feature (is_some ops.configure_aslr) (codes ";QDisableRandomization+")
    feature (is_some ops.configure_env)
        (codes ";QEnvironmentHexEncoded+;QEnvironmentUnset+;QEnvironmentReset+")
    feature (is_some ops.configure_startup_shell) (codes ";QStartupWithShell+")
    feature (is_some ops.configure_working_dir) (codes ";QSetWorkingDir+")

  breakpoint_features :
      Option (Target.Breakpoints t.State t.Error t.arch.BreakpointKind) → Handler c t (Unit {0})
  breakpoint_features none = pure tt
  breakpoint_features (some ops) = do
    feature (is_some ops.sw_breakpoint) (codes ";swbreak+")
    feature (is_some ops.hw_breakpoint || is_some ops.hw_watchpoint) (codes ";hwbreak+")

  -- `qSupported`.
  unfoldable pub handle_q_supported : ℕ → Handler c t HandlerStatus
  unfolding extended_features breakpoint_features
  handle_q_supported packet_buffer_len = do
    write_str c t (codes "PacketSize=")
    put c t (write_num c 8 packet_buffer_len)
    write_str c t (codes ";vContSupported+")
    write_str c t (codes ";multiprocess+")
    write_str c t (codes ";QStartNoAckMode+")
    feature (supports_reverse_cont t.base_ops) (codes ";ReverseContinue+")
    feature (supports_reverse_step t.base_ops) (codes ";ReverseStep+")
    extended_features t.extended_mode
    breakpoint_features t.breakpoints
    feature (is_some t.arch.target_description_xml || is_some t.target_description_xml_override)
        (codes ";qXfer:features:read+")
    feature (is_some t.memory_map) (codes ";qXfer:memory-map:read+")
    pure handled

  -- `QStartNoAckMode`.
  unfoldable pub handle_q_start_no_ack_mode : Handler c t HandlerStatus
  handle_q_start_no_ack_mode = do modify c t (λ s. record s { no_ack_mode = true }); pure needs_ok

  -- The part of a document that `qXfer` asks for; `usize` of the host has 64 bits.
  unfoldable pub transfer : Bytes → ℕ → ℕ → Handler c t HandlerStatus
  transfer text offset len =
      let xml = trim text in
      if leb (length xml) offset
      then (do write_str c t (codes "l"); pure handled)
      else do end ← add c t (2 ^ 64) offset len; transfer_part xml end
    where
      transfer_part : Bytes → ℕ → Handler c t HandlerStatus
      transfer_part xml end =
          if leb (length xml) end
          then (do
            write_str c t (codes "l")
            put c t (write_binary c (drop offset xml))
            pure handled)
          else do
            write_str c t (codes "m")
            put c t (write_binary c (range offset end xml))
            pure handled

  -- `or_else`.
  abbrev first_some : Option Bytes → Option Bytes → Option Bytes
  first_some none b = b
  first_some (some a) b = some a

  -- `qXfer:features:read`.
  unfoldable pub handle_q_xfer_features_read : ℕ → ℕ → Handler c t HandlerStatus
  unfolding transfer
  handle_q_xfer_features_read offset len = do
    xml ←
        expect c t (first_some t.target_description_xml_override t.arch.target_description_xml)
          GdbStubError.packet_unexpected
    transfer xml offset len

  -- memory_map.rs
  unfoldable pub handle_q_xfer_memory_map_read : ℕ → ℕ → Handler c t HandlerStatus
  unfolding transfer
  handle_q_xfer_memory_map_read offset len = go t.memory_map
    where
      go : Option Bytes → Handler c t HandlerStatus
      go none = pure handled
      go (some text) = transfer text offset len

  is_attached : Option (Target.ExtendedMode t.State t.Error) → Option ℕ → Handler c t Bool
  is_attached none pid = pure true
  is_attached (some ops) pid = do
    pid ← expect c t pid GdbStubError.packet_unexpected
    ask c t (ops.query_if_attached pid)

  -- `qAttached`.
  unfoldable pub handle_q_attached : Option ℕ → Handler c t HandlerStatus
  unfolding is_attached
  handle_q_attached pid = do
    attached ← is_attached t.extended_mode pid
    write_str c t (if attached then codes "1" else codes "0")
    pure handled
