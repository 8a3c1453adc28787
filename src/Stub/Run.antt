-- ===== src/Stub/Run.antt =====
-- src/gdbstub_impl/mod.rs and ext/base.rs: the dispatch over the commands, and the loop that serves
-- one packet after another.
pub mod Replies
pub mod Kill
use gdbstub.Prelude.{
  usize_max, u8_max, all_below, all_below_sound, eq_below, Bool-cases, Option-cases, Bytes, codes,
  equal, equal_iff, ltb, leb, ◌==◌, if◌then◌else◌, length, get_elem?, set, take, drop, replicate,
  length-append, length-drop, take-length-append, drop-length-append, get_elem?-append_here,
  set-append_here, All, All-append, IsByte, Result, ok, err, to_option, ok_or, map_err, ℕ, zero,
  suc, ◌+◌, ◌-◌, ◌*◌, ◌/◌, ◌%◌, ◌^◌, ◌≤◌, ◌<◌, min, bit_or, bit_and, bit_xor, ◌≡◌, refl, sym, ap,
  ◌∙◌, ◌≢◌, ◌↔◌, ◌⊎◌, inl, inr, Bool, true, false, not, ◌&&◌, ◌||◌, Option, none, some, List, [],
  ◌∷◌, ◌++◌, map, append-nil, append_assoc, arith,
}
use gdbstub.Prelude.Exec.{◌>>=◌, ◌>>◌, done, fail, panic, Outcome, pure, raise}
use gdbstub.Connection.{Connection}
use gdbstub.ResponseWriter
use gdbstub.ResponseWriter.{write_bytes, write_num, flush}
use gdbstub.Target.{Target}
use gdbstub.Packet.Received.{Packet, ack, nack, interrupt}
use gdbstub.Commands.Types.{
  Command, Base, MonitorCmd, SectionOffsets, ReverseCont, ReverseStep, MemoryMap, fixed_cont,
  fixed_step,
}
use gdbstub.Stub.{
  Session, GdbStubError, Handler, HandlerStatus, handled, needs_ok, DisconnectReason, put,
  write_str, modify, Error,
}
use gdbstub.Stub.Queries.{
  handle_q_supported, handle_q_start_no_ack_mode, handle_q_xfer_features_read,
  handle_q_xfer_memory_map_read, handle_q_attached,
}
use gdbstub.Stub.Threads.{handle_h_upcase, handle_qf_thread_info, handle_t_upcase}
use gdbstub.Stub.Access.{
  handle_g, handle_g_upcase, handle_m, handle_m_upcase, handle_single_register_access,
}
use gdbstub.Stub.Stop.{handle_v_cont, handle_fixed, handle_reverse_cont, handle_reverse_step}
use gdbstub.Stub.Extensions.{
  handle_breakpoints, handle_extended_mode, handle_kill, handle_monitor_cmd, handle_section_offsets,
}

module _ (c : Connection) (t : Target) where
  unfoldable pub handle_base : Base → Handler c t HandlerStatus
  handle_base (Base.q_supported packet_buffer_len _) = handle_q_supported c t packet_buffer_len
  handle_base Base.q_start_no_ack_mode = handle_q_start_no_ack_mode c t
  handle_base (Base.q_xfer_features_read offset len) = handle_q_xfer_features_read c t offset len
  handle_base Base.question_mark = do write_str c t (codes "S05"); pure handled
  handle_base (Base.q_attached pid) = handle_q_attached c t pid
  handle_base Base.g = handle_g c t
  handle_base (Base.g_upcase vals) = handle_g_upcase c t vals
  handle_base (Base.m addr len buf_len) = handle_m c t addr len buf_len
  handle_base (Base.m_upcase addr _ val) = handle_m_upcase c t addr val
  handle_base Base.k = handle_kill c t none
  handle_base (Base.v_kill pid) = handle_kill c t (some pid)
  handle_base (Base.d_upcase _) = do
    write_str c t (codes "OK")
    pure (HandlerStatus.disconnect DisconnectReason.disconnect)
  handle_base (Base.v_cont cmd) = handle_v_cont c t cmd
  handle_base (Base.c _) = handle_fixed c t fixed_cont
  handle_base (Base.s _) = handle_fixed c t fixed_step
  handle_base (Base.h_upcase kind thread) = handle_h_upcase c t kind thread
  handle_base Base.qf_thread_info = handle_qf_thread_info c t
  handle_base Base.qs_thread_info = do write_str c t (codes "l"); pure handled
  handle_base (Base.t_upcase thread) = handle_t_upcase c t thread

  unfoldable pub handle_command : Command → Handler c t HandlerStatus
  unfolding handle_base
  handle_command (Command.unknown _) = pure handled
  handle_command (Command.base cmd) = handle_base cmd
  handle_command (Command.single_register_access cmd) = handle_single_register_access c t cmd
  handle_command (Command.breakpoints cmd) = handle_breakpoints c t cmd
  handle_command (Command.extended_mode cmd) = handle_extended_mode c t cmd
  handle_command (Command.monitor_cmd (MonitorCmd.q_rcmd hex_cmd)) = handle_monitor_cmd c t hex_cmd
  handle_command (Command.section_offsets SectionOffsets.q_offsets) = handle_section_offsets c t
  handle_command (Command.reverse_cont ReverseCont.bc) = handle_reverse_cont c t
  handle_command (Command.reverse_step ReverseStep.bs) = handle_reverse_step c t
  handle_command (Command.memory_map (MemoryMap.q_xfer_memory_map_read offset len)) =
      handle_q_xfer_memory_map_read c t offset len

  -- `ResponseWriter::new` on the connection of the session.
  abbrev pub new_reply : Handler c t (Unit {0})
  new_reply = modify c t (λ s. record s { res = ResponseWriter.new s.res.inner })

  -- A write to the connection outside a reply; the source calls its error `ConnectionRead`.
  unfoldable pub write_ack : Handler c t (Unit {0})
  write_ack s = go (c.write b'+' s.res.inner)
    where
      go : Result c.ConnError (Unit {0}) × c.Conn → Outcome (Error c t) (Unit {0}) × Session c t
      go (ok _, k) = (done tt, record s { res = record s.res { inner = k } })
      go (err e, k) =
          (fail (GdbStubError.connection_read e), record s { res = record s.res { inner = k } })

  abbrev send : Bytes → Handler c t (Unit {0})
  send text = do new_reply; write_str c t text; put c t (flush c)

  -- What `run` makes of the outcome of a handler: the reason to disconnect, if there is one.
  unfoldable pub conclude :
      Outcome (Error c t) HandlerStatus × Session c t
      → Outcome (Error c t) (Option DisconnectReason) × Session c t
  conclude (done handled, s) = (done none, s)
  conclude (done needs_ok, s) = (do write_str c t (codes "OK"); pure none) s
  conclude (done (HandlerStatus.disconnect reason), s) = (done (some reason), s)
  conclude (fail (GdbStubError.non_fatal_error code), s) =
      (do write_str c t (codes "E"); put c t (write_num c 1 code); pure none) s
  conclude (fail (GdbStubError.target_error e), s) =
      (do send (codes "S05"); raise (GdbStubError.target_error e)) s
  conclude (fail e, s) = (fail e, s)
  conclude (panic, s) = (panic, s)

  -- The reply is flushed, but not for a kill.
  abbrev pub flush_unless_killed : Option DisconnectReason → Handler c t (Unit {0})
  flush_unless_killed (some DisconnectReason.kill) = pure tt
  flush_unless_killed _ = put c t (flush c)

  abbrev pub acknowledge : Handler c t (Unit {0})
  acknowledge s = go s.no_ack_mode s
    where
      go : Bool → Handler c t (Unit {0})
      go true = pure tt
      go false = write_ack

  -- The branch of `run` for a command.
  unfoldable pub serve_command : Command → Handler c t (Option DisconnectReason)
  unfolding handle_command write_ack conclude
  serve_command command = do
    acknowledge
    new_reply
    disconnect ← λ s. conclude (handle_command command s)
    flush_unless_killed disconnect
    pure disconnect

  -- One round of `run`, on the packet that was received.
  unfoldable pub serve : Packet → Handler c t (Option DisconnectReason)
  unfolding serve_command
  serve ack = pure none
  serve nack = raise GdbStubError.client_sent_nack
  serve interrupt = do send (codes "S05"); pure none
  serve (Packet.command command) = serve_command command
