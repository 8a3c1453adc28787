-- ===== src/Tests/Console.antt =====
-- src/gdbstub_impl/ext/monitor_cmd.rs: a command that writes to its console.
use gdbstub.Prelude.{Bytes, codes, ok, ◌≡◌, refl, true, some, List, [], ◌∷◌, ◌++◌}
use gdbstub.Prelude.Exec.{done}
use gdbstub.Tests.Tape.{Tape, tape, tape-IsReliable}
use gdbstub.Tests.Stub.{tiny, opened}
use gdbstub.Target
use gdbstub.Target.{Target}
use gdbstub.ConsoleOutput.{new}
use gdbstub.ConsoleOutput.Messages.{Use, raw, flushed, texts, joined, used}
use gdbstub.Stub.{Session, needs_ok}
use gdbstub.Stub.Extensions.{handle_monitor_cmd}
use gdbstub.Stub.Extensions.Monitor.{console_packets, handle_monitor_cmd-messages}

abbrev said : List Use
said = raw (codes "pc ") ∷ raw (codes "is 8") ∷ flushed ∷ raw (codes "!") ∷ []

abbrev speak : Bytes → Target.Reporting (Unit {0}) (Unit {0}) Bytes
speak hex_cmd S callback target state = (ok tt, target, (used callback true said (new state)).state)

abbrev talking : Target
talking = record tiny { monitor_cmd = some speak }

abbrev listening : Session tape talking
listening = record {
  res = opened.res;
  target = tt;
  current_mem_tid = 1;
  current_resume_tid = opened.current_resume_tid;
  no_ack_mode = opened.no_ack_mode;
}

handle_monitor_cmd-messages_example :
    (ms : List Bytes) × (conn : Tape) × (handle_monitor_cmd tape talking (codes "70") listening ≡ (
      done needs_ok,
      record listening { target = tt; res = record listening.res { inner = conn } },
    ))
    × (conn.output ≡ [] ++ console_packets ms)
    × (joined ms ≡ texts said)
handle_monitor_cmd-messages_example =
    handle_monitor_cmd-messages tape tape-IsReliable talking true said (codes "70") tt listening
      speak refl (λ state. refl)
