-- ===== src/Stub/Stop.antt =====
-- src/gdbstub_impl/ext/base.rs and reverse_exec.rs: the reply when the target has stopped, and the
-- handlers that resume it.
pub mod Once
pub mod Texts
use gdbstub.Prelude.{
  usize_max, u8_max, all_below, all_below_sound, eq_below, Bool-cases, Option-cases, Bytes, codes,
  equal, equal_iff, ltb, leb, ◌==◌, if◌then◌else◌, length, get_elem?, set, take, drop, replicate,
  length-append, length-drop, take-length-append, drop-length-append, get_elem?-append_here,
  set-append_here, All, All-append, IsByte, Result, ok, err, to_option, ok_or, map_err, ℕ, zero,
  suc, ◌+◌, ◌-◌, ◌*◌, ◌/◌, ◌%◌, ◌^◌, ◌≤◌, ◌<◌, min, bit_or, bit_and, bit_xor, ◌≡◌, refl, sym, ap,
  ◌∙◌, ◌≢◌, ◌↔◌, ◌⊎◌, inl, inr, Bool, true, false, not, ◌&&◌, ◌||◌, Option, none, some, List, [],
  ◌∷◌, ◌++◌, map, append-nil, append_assoc, arith,
}
use gdbstub.Prelude.Exec.{◌>>=◌, ◌>>◌, pure, raise, abort}
use gdbstub.Connection.{Connection}
use gdbstub.ThreadId.{SpecificIdKind, SpecificThreadId}
use gdbstub.ResponseWriter.{write_num}
use gdbstub.ResponseWriter.Ids.{write_specific_thread_id}
use gdbstub.Target
use gdbstub.Target.{Target, BaseOps, ThreadStopReason, ReplayLogPosition, WatchKind}
use gdbstub.Commands.Types.{VCont, query, actions, Actions}
use gdbstub.Commands.VCont.{iter}
use gdbstub.Hex.Digits.{is_some}
use gdbstub.Stub.Queries.{thread_of, guard_reverse_exec}
use gdbstub.Stub.Resume.{do_vcont_single_thread, do_vcont_multi_thread, run_target, run_single}
use gdbstub.Stub.{
  GdbStubError, Handler, HandlerStatus, handled, DisconnectReason, put, write_str, expect, get,
  modify,
}

module _ (c : Connection) (t : Target) where
  unfoldable pub write_break_common : ℕ → Handler c t (Unit {0})
  write_break_common tid = do
    modify c t
        (λ s. record s { current_mem_tid = tid; current_resume_tid = SpecificIdKind.with_id tid })
    write_str c t (codes "T05")
    write_str c t (codes "thread:")
    put c t (write_specific_thread_id c (thread_of tid))
    write_str c t (codes ";")

  -- `guard_break!`: what the target has of the breakpoints.
  abbrev pub Breakpoints : Type 0
  Breakpoints = Target.Breakpoints t.State t.Error t.arch.BreakpointKind

  abbrev pub guard_break : (Breakpoints → Bool) → Bool
  guard_break has = go t.breakpoints
    where
      go : Option Breakpoints → Bool
      go none = false
      go (some ops) = has ops

  -- A break that the target does not support is an error.
  abbrev guarded : Bool → Handler c t HandlerStatus → Handler c t HandlerStatus
  guarded true m = m
  guarded false m = raise GdbStubError.unsupported_stop_reason

  abbrev pub watch_name : WatchKind → Bytes
  watch_name WatchKind.write = codes "watch:"
  watch_name WatchKind.read = codes "rwatch:"
  watch_name WatchKind.read_write = codes "awatch:"

  abbrev pub position_name : ReplayLogPosition → Bytes
  position_name ReplayLogPosition.begin = codes "begin"
  position_name ReplayLogPosition.end = codes "end"

  unfoldable pub report_watch : ℕ → WatchKind → ℕ → Handler c t HandlerStatus
  unfolding write_break_common
  report_watch tid kind addr = do
    write_break_common tid
    write_str c t (watch_name kind)
    put c t (write_num c t.arch.usize_bytes addr)
    write_str c t (codes ";")
    pure handled

  -- The reply for each reason to stop.
  unfoldable pub report : ThreadStopReason → Handler c t HandlerStatus
  unfolding write_break_common report_watch
  report ThreadStopReason.done_step = do write_str c t (codes "S05"); pure handled
  report ThreadStopReason.gdb_interrupt = do write_str c t (codes "S05"); pure handled
  report (ThreadStopReason.signal sig) = do
    write_str c t (codes "S")
    put c t (write_num c 1 sig)
    pure handled
  report (ThreadStopReason.exited code) = do
    write_str c t (codes "W")
    put c t (write_num c 1 code)
    pure (HandlerStatus.disconnect (DisconnectReason.target_exited code))
  report (ThreadStopReason.terminated sig) = do
    write_str c t (codes "X")
    put c t (write_num c 1 sig)
    pure (HandlerStatus.disconnect (DisconnectReason.target_terminated sig))
  report (ThreadStopReason.sw_break tid) =
      guarded (guard_break (λ ops. is_some ops.sw_breakpoint))
        (do write_break_common tid; write_str c t (codes "swbreak:;"); pure handled)
  report (ThreadStopReason.hw_break tid) =
      guarded (guard_break (λ ops. is_some ops.hw_breakpoint))
        (do write_break_common tid; write_str c t (codes "hwbreak:;"); pure handled)
  report (ThreadStopReason.watch tid kind addr) =
      guarded (guard_break (λ ops. is_some ops.hw_watchpoint)) (report_watch tid kind addr)
  report (ThreadStopReason.replay_log pos) = guarded (guard_reverse_exec c t) (do
    write_str c t (codes "T05")
    write_str c t (codes "replaylog:")
    write_str c t (position_name pos)
    write_str c t (codes ";")
    pure handled)

  -- `finish_exec` wraps the status in `Some`: `None` would resume the target again.
  unfoldable pub finish_exec : ThreadStopReason → Handler c t (Option HandlerStatus)
  unfolding report
  finish_exec reason = do status ← report reason; pure (some status)

  unfoldable pub resume_once :
      BaseOps t.State t.Error t.arch.Registers t.arch.RegId → Actions → Handler c t ThreadStopReason
  resume_once (BaseOps.single_thread ops) acts = do_vcont_single_thread c t ops (iter acts)
  resume_once (BaseOps.multi_thread ops) acts = do_vcont_multi_thread c t ops (iter acts)

  -- The loop of `do_vcont`, for at most so many rounds; one is enough.
  unfoldable pub do_vcont : ℕ → Actions → Handler c t HandlerStatus
  unfolding finish_exec resume_once
  do_vcont zero acts = abort
  do_vcont (suc rounds) acts = do
    reason ← resume_once t.base_ops acts
    status ← finish_exec reason
    elim status [ some status ↦ pure status | none ↦ do_vcont rounds acts ]

  abbrev supports_range_step : BaseOps t.State t.Error t.arch.Registers t.arch.RegId → Bool
  supports_range_step (BaseOps.single_thread ops) = is_some ops.support_resume_range_step
  supports_range_step (BaseOps.multi_thread ops) = is_some ops.support_range_step

  -- `vCont`.
  unfoldable pub handle_v_cont : VCont → Handler c t HandlerStatus
  unfolding do_vcont
  handle_v_cont query = do
    write_str c t (codes "vCont;c;C;s;S")
    if supports_range_step t.base_ops then write_str c t (codes ";r") else pure tt
    pure handled
  handle_v_cont (actions acts) = do_vcont 1 acts

  -- `c` and `s`, on the thread that was selected.
  unfoldable pub handle_fixed : (SpecificThreadId → Actions) → Handler c t HandlerStatus
  unfolding do_vcont
  handle_fixed act = do
    s ← get c t
    do_vcont 1 (act (record { pid = none; tid = s.current_resume_tid }))

  -- The end of both reverse handlers.
  abbrev finish_reverse : ThreadStopReason → Handler c t HandlerStatus
  finish_reverse reason = do
    status ← finish_exec reason
    expect c t status GdbStubError.packet_unexpected

  -- `bc`.
  unfoldable pub handle_reverse_cont : Handler c t HandlerStatus
  unfolding finish_exec
  handle_reverse_cont = go t.base_ops
    where
      single :
          Option (Target.Interruptible t.State t.Error Target.StopReason)
          → Handler c t HandlerStatus
      single none = pure handled
      single (some op) = do reason ← run_single c t op; finish_reverse reason

      multi :
          Option (Target.Interruptible t.State t.Error ThreadStopReason) → Handler c t HandlerStatus
      multi none = pure handled
      multi (some op) = do reason ← run_target c t op; finish_reverse reason

      go : BaseOps t.State t.Error t.arch.Registers t.arch.RegId → Handler c t HandlerStatus
      go (BaseOps.single_thread ops) = single ops.support_reverse_cont
      go (BaseOps.multi_thread ops) = multi ops.support_reverse_cont

  -- The thread that is stepped back; not all of them can be.
  abbrev step_thread : SpecificIdKind → Handler c t ℕ
  step_thread SpecificIdKind.all = raise GdbStubError.packet_unexpected
  step_thread (SpecificIdKind.with_id tid) = pure tid

  -- `bs`.
  unfoldable pub handle_reverse_step : Handler c t HandlerStatus
  unfolding finish_exec
  handle_reverse_step = go t.base_ops
    where
      single :
          Option (Target.Interruptible t.State t.Error Target.StopReason)
          → Handler c t HandlerStatus
      single none = pure handled
      single (some op) = do
        s ← get c t
        step_thread s.current_resume_tid
        reason ← run_single c t op
        finish_reverse reason

      multi :
          Option (ℕ → Target.Interruptible t.State t.Error ThreadStopReason)
          → Handler c t HandlerStatus
      multi none = pure handled
      multi (some op) = do
        s ← get c t
        tid ← step_thread s.current_resume_tid
        reason ← run_target c t (op tid)
        finish_reverse reason

      go : BaseOps t.State t.Error t.arch.Registers t.arch.RegId → Handler c t HandlerStatus
      go (BaseOps.single_thread ops) = single ops.support_reverse_step
      go (BaseOps.multi_thread ops) = multi ops.support_reverse_step
