-- ===== src/Tests/Stub.antt =====
-- src/gdbstub_impl: a target for the tests, and the theorems about a session at concrete inputs.
use gdbstub.Prelude.{
  Bytes, codes, replicate, ok, ℕ, ◌+◌, ◌%◌, ◌^◌, ◌<◌, ◌≡◌, refl, true, false, none, some, [], ◌∷◌,
  ◌++◌, arith,
}
use mathlib.Core.Option
use gdbstub.Stub.Run.Kill.{serve_command-kill}
use gdbstub.Stub.{DisconnectReason}
use gdbstub.Stub.Queries.{transfer}
use gdbstub.Stub.Queries.Transfer.{collect, transfer-collect}
use gdbstub.Stub.{write_str}
use gdbstub.Stub.Queries.{handle_q_start_no_ack_mode}
use gdbstub.Commands.Base.{parse_bare}
use gdbstub.Stub.Access.{access}
use gdbstub.Stub.Access.Memory.{HasMemory}
use gdbstub.Tests.Tape.{tape-IsReadable, tape, Tape, blank, tape-IsReliable}
use gdbstub.Prelude.Exec.{done, ◌>>◌, ◌>>=◌, pure}
use gdbstub.ResponseWriter
use gdbstub.ResponseWriter.{write_bytes}
use gdbstub.ResponseWriter.Rle.{encode}
use gdbstub.ResponseWriter.Texts.{hex_text}
use gdbstub.ResponseWriter.Framing.{packet}
use gdbstub.BeBytes.{from_be_bytes}
use gdbstub.Target
use gdbstub.Target.{Target, Arch, BaseOps, StopReason}
use gdbstub.Packet.{PacketBuf, into_body}
use gdbstub.Commands.Types.{Command, Base, fixed_cont, Actions}
use gdbstub.Commands.Dispatch.{Entry}
use gdbstub.ThreadId.{SpecificIdKind}
use gdbstub.ManagedVec.{borrowed}
use gdbstub.Stub.{Session, needs_ok, handled, put}
use gdbstub.Stub.Access.{handle_m}
use gdbstub.Stub.Access.Memory.{handle_m-slice, slice}
use gdbstub.Stub.Run.{serve_command, handle_command}
use gdbstub.Stub.Run.Replies.{serve_command-reply, fresh}
use gdbstub.Stub.Receive.{Serving, recv_packet}
use gdbstub.Stub.Receive.Framed.{unread}
use gdbstub.Stub.Receive.Commanded.{recv_packet-command, received}

-- An architecture with one register of a byte, and words of two bytes.
abbrev tiny_arch : Arch
tiny_arch = record {
  Registers = ℕ;
  RegId = Unit {0};
  BreakpointKind = Unit {0};
  usize_bytes = 2;
  default_registers = 0;
  gdb_serialize = λ r. some r ∷ [];
  gdb_deserialize = λ _. none;
  reg_id_from_raw = λ _. none;
  breakpoint_kind_from_usize = λ _. none;
  target_description_xml = none;
}

abbrev mem : ℕ → ℕ
mem a = a % 7

-- A memory that does not change; a run stops at once.
abbrev tiny_ops : Target.SingleThreadOps (Unit {0}) (Unit {0}) ℕ (Unit {0})
tiny_ops = record {
  access = record {
    read_registers = λ r s. (ok r, s);
    write_registers = λ _ s. (ok tt, s);
    read_addrs = λ start len s. (ok (slice mem start len), s);
    write_addrs = λ _ _ s. (ok tt, s);
  };
  single_register_access = none;
  resume = λ _ S poll target s. (ok StopReason.done_step, target, s);
  support_resume_range_step = none;
  support_reverse_step = none;
  support_reverse_cont = none;
}

abbrev pub tiny : Target
tiny = record {
  arch = tiny_arch;
  State = Unit {0};
  Error = Unit {0};
  overflow_checks = true;
  base_ops = BaseOps.single_thread tiny_ops;
  breakpoints = none;
  extended_mode = none;
  monitor_cmd = none;
  section_offsets = none;
  target_description_xml_override = none;
  memory_map = none;
}

abbrev pub opened : Session tape tiny
opened = record {
  res = record { inner = blank; started = false; checksum = 0; rle_char = 0; rle_repeat = 0 };
  target = tt;
  current_mem_tid = 1;
  current_resume_tid = SpecificIdKind.with_id 1;
  no_ack_mode = false;
}

abbrev continued : Actions
continued = fixed_cont (record { pid = none; tid = SpecificIdKind.with_id 1 })

tiny_memory : HasMemory tape tiny mem 1
unfolding access
tiny_memory start len target h = refl

decodes : from_be_bytes 2 (1 ∷ 0 ∷ []) ≡ some 256
unfolding from_be_bytes
decodes = refl

-- A connection that was sent the '+'.
abbrev plus : Tape
plus = record { input = []; output = b'+' ∷ [] }

abbrev quiet : Session tape tiny
quiet = record opened {
  res = record { inner = plus; started = false; checksum = 0; rle_char = 0; rle_repeat = 0 };
  no_ack_mode = true;
}

quiet_handler :
    handle_command tape tiny
      (Command.base Base.q_start_no_ack_mode)
      (fresh tape tiny tape-IsReliable opened)
    ≡ (done needs_ok, quiet)
unfolding handle_command ResponseWriter.new handle_q_start_no_ack_mode
quiet_handler = refl

quiet-new : quiet.res ≡ ResponseWriter.new plus
unfolding ResponseWriter.new
quiet-new = refl

-- A session whose client has sent a packet and an acknowledgement.
abbrev waiting : Serving tape tiny
waiting = record {
  session = record opened {
    res = record {
      inner = record { input = packet (codes "?") ++ codes "+"; output = [] };
      started = false;
      checksum = 0;
      rle_char = 0;
      rle_repeat = 0;
    };
  };
  pkt_buf = record { ownership = borrowed; buf = replicate 8 0; len = 0 };
}

abbrev question_entry : Entry
question_entry = record {
  name = codes "?";
  parse = λ p. Option.map Command.base (parse_bare Base.question_mark (into_body p));
}

handle_m-slice_example :
    handle_m tape tiny (1 ∷ 0 ∷ []) 5 2 opened
    ≡ (do put tape tiny (write_bytes tape (hex_text (slice mem 256 5))); pure handled) opened
handle_m-slice_example =
    handle_m-slice tape tiny mem (1 ∷ 0 ∷ []) 256 5 2 opened tiny_memory decodes (omega arith)
      (omega arith)

serve_command-reply_example :
    let out = serve_command tape tiny (Command.base Base.q_start_no_ack_mode) opened in
    (out.0 ≡ done none) × (out.1.res.inner.output ≡ (b'+' ∷ []) ++ packet (encode 0 0 (codes "OK")))
serve_command-reply_example =
    serve_command-reply tape tiny tape-IsReliable (Command.base Base.q_start_no_ack_mode) opened
      quiet plus (codes "OK") (done needs_ok) quiet_handler quiet-new refl

recv_packet-command_example :
    (p : PacketBuf) × (v' : Serving tape tiny) × (into_body p ≡ [])
    × (recv_packet tape tiny 9 waiting
        ≡ received tape tape-IsReadable tiny (question_entry.parse p) v')
    × (unread tape tape-IsReadable tiny v' ≡ codes "+")
recv_packet-command_example =
    recv_packet-command tape tape-IsReadable tiny 0 question_entry [] (codes "+") 9 waiting refl
      ((omega arith, omega arith), tt) refl (omega arith) (omega arith)

transfer-collect_example :
    (reply : ℕ → Bytes) × ((offset : ℕ) (s : Session tape tiny)
      → offset + 2 < 2 ^ 64
      → transfer tape tiny (codes " <a>") offset 2 s
        ≡ (do write_str tape tiny (reply offset); pure handled) s)
    × (collect 4 reply 0 ≡ codes "<a>")
transfer-collect_example =
    transfer-collect tape tiny (codes " <a>") 2 (omega arith, (omega arith, (omega arith, tt)))
      (omega arith)

-- A target that ends the session on a kill.
abbrev killable_ops : Target.ExtendedMode (Unit {0}) (Unit {0})
killable_ops = record {
  run = λ _ _ s. (ok 1, s);
  attach = λ _ s. (ok tt, s);
  query_if_attached = λ _ s. (ok true, s);
  kill = λ _ s. (ok true, s);
  restart = λ s. (ok tt, s);
  on_start = λ s. (ok tt, s);
  configure_aslr = none;
  configure_env = none;
  configure_startup_shell = none;
  configure_working_dir = none;
}

abbrev killable : Target
killable = record tiny { extended_mode = some killable_ops }

abbrev killable_session : Session tape killable
killable_session = record {
  res = record { inner = blank; started = false; checksum = 0; rle_char = 0; rle_repeat = 0 };
  target = tt;
  current_mem_tid = 1;
  current_resume_tid = SpecificIdKind.with_id 1;
  no_ack_mode = false;
}

serve_command-kill_example :
    let out = serve_command tape killable (Command.base Base.k) killable_session in
    (out.0 ≡ done (some DisconnectReason.kill)) × (out.1.res.inner.output ≡ b'+' ∷ b'$' ∷ b'O' ∷ [])
serve_command-kill_example =
    serve_command-kill tape tape-IsReliable killable killable_ops killable_session tt refl refl
