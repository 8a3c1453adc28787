-- ===== src/Stub/Stop/Texts.antt =====
-- src/gdbstub_impl/ext/base.rs: the stop replies, as texts.
use gdbstub.Prelude.{Bytes, codes, ℕ, ◌≡◌, refl, sym, ap, ◌∙◌, Bool, true, false, ◌++◌}
use gdbstub.Prelude.Exec.{◌>>◌, done, fail, panic, Outcome, pure, continue}
use gdbstub.Connection.{Connection}
use gdbstub.Hex.Digits.{is_some}
use gdbstub.ThreadId.{SpecificIdKind}
use gdbstub.ResponseWriter.{ResponseWriter, write_bytes}
use gdbstub.ResponseWriter.Ids.{thread_id_text}
use gdbstub.ResponseWriter.Texts.{num_text, write_bytes-append}
use gdbstub.Target.{Target, ThreadStopReason}
use gdbstub.Stub.{
  Session, HandlerStatus, handled, Handler, GdbStubError, DisconnectReason, wrote, write_str,
}
use gdbstub.Stub.Access.Memory.{wrote_over}
use gdbstub.Stub.Queries.{thread_of, guard_reverse_exec}
use gdbstub.Stub.Stop.{report, guard_break, watch_name, position_name}

module _ (c : Connection) (t : Target) where
  -- A text is written, and a handler that writes another follows.
  pub then_text :
      (xs ys : Bytes) (a : HandlerStatus) (m : Handler c t HandlerStatus)
      → ((v : Session c t) → m v ≡ (do write_str c t ys; pure a) v)
      → (s : Session c t) → (do write_str c t xs; m) s ≡ (do write_str c t (xs ++ ys); pure a) s
  then_text xs ys a m h s =
      go (write_bytes c xs s.res)
      ∙ ap (λ r. continue (λ _. pure a) (wrote c t s r)) (sym (write_bytes-append c xs ys s.res))
    where
      go :
          (r : Outcome c.ConnError (Unit {0}) × ResponseWriter c.Conn)
          → continue (λ _. m) (wrote c t s r)
            ≡ continue (λ _. pure a) (wrote c t s (continue (λ _. write_bytes c ys) r))
      go (done _, w) =
          h (record s { res = w })
          ∙ ap (continue (λ _. pure a)) (wrote_over c t s w (write_bytes c ys w))
      go (fail e, w) = refl
      go (panic, w) = refl

  -- The thread that a break selects for the packets that follow.
  abbrev pub selected : ThreadStopReason → Session c t → Session c t
  selected (ThreadStopReason.sw_break tid) s = record s {
    current_mem_tid = tid;
    current_resume_tid = SpecificIdKind.with_id tid;
  }
  selected (ThreadStopReason.hw_break tid) s = record s {
    current_mem_tid = tid;
    current_resume_tid = SpecificIdKind.with_id tid;
  }
  selected (ThreadStopReason.watch tid kind addr) s = record s {
    current_mem_tid = tid;
    current_resume_tid = SpecificIdKind.with_id tid;
  }
  selected _ s = s

  abbrev break_text : ℕ → Bytes → Bytes
  break_text tid what =
      codes "T05" ++ (codes "thread:" ++ (thread_id_text (thread_of tid) ++ (codes ";" ++ what)))

  -- The protocol's stop replies.
  abbrev pub stop_text : ThreadStopReason → Bytes
  stop_text ThreadStopReason.done_step = codes "S05"
  stop_text ThreadStopReason.gdb_interrupt = codes "S05"
  stop_text (ThreadStopReason.signal sig) = codes "S" ++ num_text 1 sig
  stop_text (ThreadStopReason.exited code) = codes "W" ++ num_text 1 code
  stop_text (ThreadStopReason.terminated sig) = codes "X" ++ num_text 1 sig
  stop_text (ThreadStopReason.sw_break tid) = break_text tid (codes "swbreak:;")
  stop_text (ThreadStopReason.hw_break tid) = break_text tid (codes "hwbreak:;")
  stop_text (ThreadStopReason.watch tid kind addr) =
      break_text tid (watch_name c t kind ++ (num_text t.arch.usize_bytes addr ++ codes ";"))
  stop_text (ThreadStopReason.replay_log pos) =
      codes "T05" ++ (codes "replaylog:" ++ (position_name c t pos ++ codes ";"))

  abbrev pub stop_status : ThreadStopReason → HandlerStatus
  stop_status (ThreadStopReason.exited code) =
      HandlerStatus.disconnect (DisconnectReason.target_exited code)
  stop_status (ThreadStopReason.terminated sig) =
      HandlerStatus.disconnect (DisconnectReason.target_terminated sig)
  stop_status _ = handled

  -- Whether the target has what a reason to stop requires.
  abbrev pub supported : ThreadStopReason → Bool
  supported (ThreadStopReason.sw_break tid) = guard_break c t (λ ops. is_some ops.sw_breakpoint)
  supported (ThreadStopReason.hw_break tid) = guard_break c t (λ ops. is_some ops.hw_breakpoint)
  supported (ThreadStopReason.watch tid kind addr) =
      guard_break c t (λ ops. is_some ops.hw_watchpoint)
  supported (ThreadStopReason.replay_log pos) = guard_reverse_exec c t
  supported _ = true

  -- A reason to stop that the target does not support is an error: nothing is written, and the
  -- session is left as it was.
  pub report-unsupported :
      (reason : ThreadStopReason) (s : Session c t)
      → supported reason ≡ false
      → report c t reason s ≡ (fail GdbStubError.unsupported_stop_reason, s)
  unfolding report
  report-unsupported ThreadStopReason.done_step s h = cc
  report-unsupported ThreadStopReason.gdb_interrupt s h = cc
  report-unsupported (ThreadStopReason.signal sig) s h = cc
  report-unsupported (ThreadStopReason.exited code) s h = cc
  report-unsupported (ThreadStopReason.terminated sig) s h = cc
  report-unsupported (ThreadStopReason.sw_break tid) s h = rw h refl
  report-unsupported (ThreadStopReason.hw_break tid) s h = rw h refl
  report-unsupported (ThreadStopReason.watch tid kind addr) s h = rw h refl
  report-unsupported (ThreadStopReason.replay_log pos) s h = rw h refl
