-- ===== src/Stub/Extensions.antt =====
-- src/gdbstub_impl/ext/: breakpoints.rs, extended_mode.rs, monitor_cmd.rs and section_offsets.rs.
pub mod Monitor
use gdbstub.Prelude.{
  Bytes, codes, ◌==◌, if◌then◌else◌, Result, ok, err, ℕ, Bool, Option, none, some,
}
use gdbstub.Prelude.Exec.{◌>>◌, ◌>>=◌, done, fail, panic, Outcome, pure, raise}
use gdbstub.Connection.{Connection}
use gdbstub.BeBytes.{from_be_bytes}
use gdbstub.ResponseWriter
use gdbstub.ResponseWriter.{Writer, write_bytes, write_hex_buf, write_num, flush}
use gdbstub.Target
use gdbstub.Target.{Target, TargetResult, WatchKind, Offsets, sections, segments}
use gdbstub.Commands.Types.{Breakpoints, BasicBreakpoint, ExtendedMode}
use gdbstub.Commands.Extended.{args_iter}
use gdbstub.Stub.{
  Session, GdbStubError, Handler, HandlerStatus, handled, needs_ok, DisconnectReason, put,
  write_str, ask, insist, expect, Error,
}

pub data CmdKind : Type 0 where
  add : CmdKind
  remove : CmdKind

module _ (c : Connection) (t : Target) where
  abbrev pub BreakpointsOps : Type 0
  BreakpointsOps = Target.Breakpoints t.State t.Error t.arch.BreakpointKind

  abbrev Supported : Type 0
  Supported = Option (TargetResult t.State t.Error Bool)

  -- `.map(|op| ..)`: the operation of the extension, if the target has it.
  abbrev with_op :
      {Kind : Type 0}
      → CmdKind
      → ℕ
      → Kind
      → Option (Target.BreakpointOps t.State t.Error ℕ Kind)
      → Supported
  with_op cmd_kind addr kind none = none
  with_op CmdKind.add addr kind (some op) = some (op.add addr kind)
  with_op CmdKind.remove addr kind (some op) = some (op.remove addr kind)

  -- Only the types 0 to 4 are in the protocol.
  abbrev supported : BreakpointsOps → CmdKind → ℕ → ℕ → t.arch.BreakpointKind → Supported
  supported ops cmd_kind type_ addr kind =
      if type_ == 0
      then with_op cmd_kind addr kind ops.sw_breakpoint
      else if type_ == 1
      then with_op cmd_kind addr kind ops.hw_breakpoint
      else if type_ == 2
      then with_op cmd_kind addr WatchKind.write ops.hw_watchpoint
      else if type_ == 3
      then with_op cmd_kind addr WatchKind.read ops.hw_watchpoint
      else if type_ == 4
      then with_op cmd_kind addr WatchKind.read_write ops.hw_watchpoint
      else none

  -- 22 is EINVAL.
  abbrev breakpoint_reply : Supported → Handler c t HandlerStatus
  breakpoint_reply none = pure handled
  breakpoint_reply (some op) = do
    changed ← ask c t op
    if changed then pure needs_ok else raise (GdbStubError.non_fatal_error 22)

  unfoldable pub handle_breakpoint_common :
      BreakpointsOps → BasicBreakpoint → CmdKind → Handler c t HandlerStatus
  handle_breakpoint_common ops cmd cmd_kind = do
    addr ← expect c t (from_be_bytes t.arch.usize_bytes cmd.addr) GdbStubError.target_mismatch
    kind ← expect c t (t.arch.breakpoint_kind_from_usize cmd.kind) GdbStubError.target_mismatch
    breakpoint_reply (supported ops cmd_kind cmd.type_ addr kind)

  unfoldable pub handle_breakpoints : Breakpoints → Handler c t HandlerStatus
  unfolding handle_breakpoint_common
  handle_breakpoints command = go t.breakpoints command
    where
      go : Option BreakpointsOps → Breakpoints → Handler c t HandlerStatus
      go none _ = pure handled
      go (some ops) (Breakpoints.z cmd) = handle_breakpoint_common ops cmd CmdKind.remove
      go (some ops) (Breakpoints.z_upcase cmd) = handle_breakpoint_common ops cmd CmdKind.add

  abbrev ExtendedModeOps : Type 0
  ExtendedModeOps = Target.ExtendedMode t.State t.Error

  -- A configuration that the target may lack; then the reply is empty.
  abbrev configure :
      {A : Type 0}
      → Option A
      → (A → TargetResult t.State t.Error (Unit {0}))
      → Handler c t HandlerStatus
  configure none op = pure handled
  configure (some ops) op = do ask c t (op ops); pure needs_ok

  abbrev pub extended : ExtendedModeOps → ExtendedMode → Handler c t HandlerStatus
  extended ops ExtendedMode.exclamation_mark = do insist c t ops.on_start; pure needs_ok
  extended ops ExtendedMode.r_upcase = do insist c t ops.restart; pure handled
  extended ops (ExtendedMode.v_attach pid) = do ask c t (ops.attach pid); pure handled
  extended ops (ExtendedMode.v_run filename args) = do
    ask c t (ops.run filename (args_iter args))
    write_str c t (codes "S05")
    pure handled
  extended ops (ExtendedMode.q_disable_randomization value) =
      configure ops.configure_aslr (λ cfg_aslr. cfg_aslr value)
  extended ops (ExtendedMode.q_environment_hex_encoded key value) =
      configure ops.configure_env (λ env. env.set_env key value)
  extended ops (ExtendedMode.q_environment_unset key) =
      configure ops.configure_env (λ env. env.remove_env key)
  extended ops ExtendedMode.q_environment_reset = configure ops.configure_env (λ env. env.reset_env)
  extended ops (ExtendedMode.q_set_working_dir dir) =
      configure ops.configure_working_dir (λ cfg_working_dir. cfg_working_dir dir)
  extended ops (ExtendedMode.q_startup_with_shell value) =
      configure ops.configure_startup_shell (λ cfg_startup. cfg_startup value)

  unfoldable pub handle_extended_mode : ExtendedMode → Handler c t HandlerStatus
  handle_extended_mode command = go t.extended_mode
    where
      go : Option ExtendedModeOps → Handler c t HandlerStatus
      go none = pure handled
      go (some ops) = extended ops command

  -- `k` and `vKill`.
  unfoldable pub handle_kill : Option ℕ → Handler c t HandlerStatus
  handle_kill pid = go t.extended_mode
    where
      go : Option ExtendedModeOps → Handler c t HandlerStatus
      go none = pure (HandlerStatus.disconnect DisconnectReason.kill)
      go (some ops) = do
        should_terminate ← ask c t (ops.kill pid)
        if should_terminate
            then (do
              write_str c t (codes "OK")
              pure (HandlerStatus.disconnect DisconnectReason.kill))
            else pure needs_ok

  -- What the callback of `qRcmd` works on: the connection, and the last error.
  pub record Console : Type 0 where
    pub conn : c.Conn
    pub outcome : Outcome c.ConnError (Unit {0})

  abbrev console_packet : Bytes → Writer c (Unit {0})
  console_packet msg = do write_bytes c (codes "O"); write_hex_buf c msg; flush c

  abbrev printed :
      Console → Outcome c.ConnError (Unit {0}) × ResponseWriter.ResponseWriter c.Conn → Console
  printed k (done _, w) = record k { conn = w.inner }
  printed k (fail e, w) = record { conn = w.inner; outcome = fail e }
  printed k (panic, w) = record { conn = w.inner; outcome = panic }

  -- The callback: each message is a packet of its own.
  abbrev pub print_message : Bytes → Console → Console
  print_message msg k = go k.outcome
    where
      go : Outcome c.ConnError (Unit {0}) → Console
      go panic = k
      go _ = printed k (console_packet msg (ResponseWriter.new k.conn))

  abbrev monitor_done :
      Session c t
      → Result t.Error (Unit {0}) × t.State × Console
      → Outcome (Error c t) HandlerStatus × Session c t
  monitor_done s (err e, target, k) = (
    fail (GdbStubError.target_error e),
    record s { target = target; res = record s.res { inner = k.conn } },
  )
  monitor_done s (ok _, target, k) =
      (do put c t (λ w. (k.outcome, w)); pure needs_ok)
        (record s { target = target; res = record s.res { inner = k.conn } })

  abbrev pub monitor_by :
      Option (Bytes → Target.Reporting t.State t.Error Bytes) → Bytes → Handler c t HandlerStatus
  monitor_by none hex_cmd s = (done handled, s)
  monitor_by (some op) hex_cmd s =
      monitor_done s (
        op hex_cmd Console print_message s.target
          (record { conn = s.res.inner; outcome = done tt }))

  -- `qRcmd`.
  unfoldable pub handle_monitor_cmd : Bytes → Handler c t HandlerStatus
  handle_monitor_cmd = monitor_by t.monitor_cmd

  abbrev word : ℕ → Handler c t (Unit {0})
  word n = put c t (write_num c t.arch.usize_bytes n)

  abbrev or_else : Option ℕ → ℕ → ℕ
  or_else none n = n
  or_else (some m) n = m

  abbrev pub write_offsets : Offsets → Handler c t (Unit {0})
  write_offsets (sections text rel bss) = do
    write_str c t (codes "Text=")
    word text
    write_str c t (codes ";Data=")
    word rel
    write_str c t (codes ";Bss=")
    word (or_else bss rel)
  write_offsets (segments text_seg none) = do write_str c t (codes "TextSeg="); word text_seg
  write_offsets (segments text_seg (some rel)) = do
    write_str c t (codes "TextSeg=")
    word text_seg
    write_str c t (codes ";DataSeg=")
    word rel

  -- `qOffsets`.
  unfoldable pub handle_section_offsets : Handler c t HandlerStatus
  handle_section_offsets = go t.section_offsets
    where
      go : Option (Target.Fallible t.State t.Error Offsets) → Handler c t HandlerStatus
      go none = pure handled
      go (some get_section_offsets) = do
        offsets ← insist c t get_section_offsets
        write_offsets offsets
        pure handled
