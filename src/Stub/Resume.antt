-- ===== src/Stub/Resume.antt =====
-- src/gdbstub_impl/ext/base.rs and reverse_exec.rs: the packets that run the target.
use gdbstub.Prelude.{
  Bytes, ◌==◌, if◌then◌else◌, Result, ok, err, to_option, ℕ, ◌-◌, Bool, true, false, not, Option,
  none, some, List, [], ◌∷◌,
}
use gdbstub.Prelude.Exec.{◌>>◌, ◌>>=◌, Outcome, pure, raise}
use gdbstub.Connection.{Connection}
use gdbstub.Hex.{decode_hex}
use gdbstub.ThreadId.{SpecificThreadId}
use gdbstub.Packet.{PacketParseError}
use gdbstub.Target
use gdbstub.Target.{
  Target, BaseOps, ThreadStopReason, StopReason, ReplayLogPosition, WatchKind, ResumeAction,
  thread_stop_reason,
}
use gdbstub.Commands.Types.{VContKind, VContAction}
use gdbstub.Stub.Access.{usize_bound}
use gdbstub.Stub.{insist, SpecificIdKind, Session, GdbStubError, Handler, expect, settle, Error}

module _ (c : Connection) (t : Target) where
  -- What `check_gdb_interrupt` works on: the connection, and the error of the last peek that failed.
  pub record Poll : Type 0 where
    pub conn : c.Conn
    pub failed : Option c.ConnError

  abbrev polled : Poll → Result c.ConnError (Option ℕ) × c.Conn → Bool × Poll
  polled p (ok (some b), k) = (b == 0x03, record p { conn = k })
  polled p (ok none, k) = (false, record p { conn = k })
  polled p (err e, k) = (true, record { conn = k; failed = some e })

  -- 0x03 is the interrupt byte; an error of the connection ends the run as well.
  unfoldable pub check_gdb_interrupt : Poll → Bool × Poll
  check_gdb_interrupt p = polled p (c.peek p.conn)

  -- The target's error goes first, then that of the connection.
  abbrev stopped : {A : Type 0} → Result t.Error A → Option c.ConnError → Result (Error c t) A
  stopped (err e) _ = err (GdbStubError.target_error e)
  stopped (ok a) (some e) = err (GdbStubError.connection_read e)
  stopped (ok a) none = ok a

  abbrev ran :
      {A : Type 0}
      → Session c t
      → Result t.Error A × t.State × Poll
      → Outcome (Error c t) A × Session c t
  ran s (r, target, p) =
      settle c t (stopped r p.failed)
        (record s { target = target; res = record s.res { inner = p.conn } })

  -- An operation that runs until something stops it.
  abbrev pub run_target : {A : Type 0} → Target.Interruptible t.State t.Error A → Handler c t A
  run_target op s =
      ran s (op Poll check_gdb_interrupt s.target (record { conn = s.res.inner; failed = none }))

  abbrev pub run_single :
      Target.Interruptible t.State t.Error StopReason → Handler c t ThreadStopReason
  run_single op = do reason ← run_target op; pure (thread_stop_reason reason)

  abbrev malformed : Error c t
  malformed = GdbStubError.packet_parse PacketParseError.malformed_command

  -- A bound of a range, as an integer of the target's word size.
  abbrev decode_bound : Bytes → Handler c t ℕ
  decode_bound text =
      expect c t (to_option (decode_hex (usize_bound c t - 1) text)) GdbStubError.target_mismatch

  -- The second action may only continue the other threads, and there is no third.
  abbrev pub invalid_rest : List (Option VContAction) → Result (Error c t) Bool
  invalid_rest [] = ok false
  invalid_rest (none ∷ _) = err malformed
  invalid_rest (some act ∷ []) = ok (not (is_continue act.kind))
    where
      is_continue : VContKind → Bool
      is_continue VContKind.continue = true
      is_continue _ = false
  invalid_rest (some _ ∷ _ ∷ _) = ok true

  abbrev range_step_single :
      Bytes
      → Bytes
      → Option (ℕ → ℕ → Target.Interruptible t.State t.Error StopReason)
      → Handler c t ThreadStopReason
  range_step_single start_text end_text none = raise GdbStubError.packet_unexpected
  range_step_single start_text end_text (some resume_range_step) = do
    start ← decode_bound start_text
    end ← decode_bound end_text
    run_single (resume_range_step start end)

  abbrev single_action :
      Target.SingleThreadOps t.State t.Error t.arch.Registers t.arch.RegId
      → VContKind
      → Handler c t ThreadStopReason
  single_action ops VContKind.step = run_single (ops.resume ResumeAction.step)
  single_action ops VContKind.continue = run_single (ops.resume ResumeAction.continue)
  single_action ops (VContKind.step_with_sig sig) =
      run_single (ops.resume (ResumeAction.step_with_signal sig))
  single_action ops (VContKind.continue_with_sig sig) =
      run_single (ops.resume (ResumeAction.continue_with_signal sig))
  single_action ops (VContKind.range_step start end) =
      range_step_single start end ops.support_resume_range_step
  single_action ops VContKind.stop = raise GdbStubError.packet_unexpected

  unfoldable pub do_vcont_single_thread :
      Target.SingleThreadOps t.State t.Error t.arch.Registers t.arch.RegId
      → List (Option VContAction)
      → Handler c t ThreadStopReason
  do_vcont_single_thread ops [] = raise malformed
  do_vcont_single_thread ops (none ∷ _) = raise malformed
  do_vcont_single_thread ops (some first_action ∷ rest) = do
    invalid ← settle c t (invalid_rest rest)
    if invalid then raise GdbStubError.packet_unexpected else single_action ops first_action.kind

  abbrev MultiOps : Type 1
  MultiOps = Target.MultiThreadOps t.State t.Error t.arch.Registers t.arch.RegId

  -- The thread that an action is for; `none` is all of them.
  abbrev target_thread : Option SpecificThreadId → Option ℕ
  target_thread none = none
  target_thread (some thread) = one thread.tid
    where
      one : SpecificIdKind → Option ℕ
      one SpecificIdKind.all = none
      one (SpecificIdKind.with_id tid) = some tid

  -- An action for all threads is the new default.
  abbrev set_action : MultiOps → Option ℕ → ResumeAction → ResumeAction → Handler c t ResumeAction
  set_action ops none action default_action = pure action
  set_action ops (some tid) action default_action = do
    insist c t (ops.set_resume_action tid action)
    pure default_action

  abbrev range_step_multi :
      Option (ℕ → ℕ → ℕ → Target.Fallible t.State t.Error (Unit {0}))
      → Option ℕ
      → Bytes
      → Bytes
      → ResumeAction
      → Handler c t ResumeAction
  range_step_multi none thread start_text end_text default_action =
      raise GdbStubError.packet_unexpected
  range_step_multi (some set_range_step) none start_text end_text default_action =
      raise GdbStubError.packet_unexpected
  range_step_multi (some set_range_step) (some tid) start_text end_text default_action = do
    start ← decode_bound start_text
    end ← decode_bound end_text
    insist c t (set_range_step tid start end)
    pure default_action

  -- One round of the loop over the actions: the default action behind it.
  abbrev multi_action : MultiOps → VContKind → Option ℕ → ResumeAction → Handler c t ResumeAction
  multi_action ops VContKind.step thread = set_action ops thread ResumeAction.step
  multi_action ops VContKind.continue thread = set_action ops thread ResumeAction.continue
  multi_action ops (VContKind.step_with_sig sig) thread =
      set_action ops thread (ResumeAction.step_with_signal sig)
  multi_action ops (VContKind.continue_with_sig sig) thread =
      set_action ops thread (ResumeAction.continue_with_signal sig)
  multi_action ops (VContKind.range_step start end) thread =
      range_step_multi ops.support_range_step thread start end
  multi_action ops VContKind.stop thread = λ _. raise GdbStubError.packet_unexpected

  unfoldable pub set_actions :
      MultiOps → List (Option VContAction) → ResumeAction → Handler c t ResumeAction
  set_actions ops [] default_action = pure default_action
  set_actions ops (none ∷ _) default_action = raise malformed
  set_actions ops (some act ∷ acts) default_action = do
    next ← multi_action ops act.kind (target_thread act.thread) default_action
    set_actions ops acts next

  unfoldable pub do_vcont_multi_thread :
      MultiOps → List (Option VContAction) → Handler c t ThreadStopReason
  unfolding set_actions
  do_vcont_multi_thread ops acts = do
    insist c t ops.clear_resume_actions
    default_action ← set_actions ops acts ResumeAction.continue
    run_target (ops.resume default_action)
