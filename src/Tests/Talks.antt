-- ===== src/Tests/Talks.antt =====
-- src/gdbstub_impl/mod.rs: a client that turns the acknowledgements off and selects a thread.
use gdbstub.Prelude.{codes, replicate, ◌≡◌, refl, ap, ◌∙◌, true, false, none, some, [], ◌++◌, arith}
use mathlib.Core.Option
use gdbstub.Tests.Tape.{tape, tape-IsReliable}
use gdbstub.Tests.Stub.{tiny, opened}
use gdbstub.ResponseWriter.Framing.{packet}
use gdbstub.ResponseWriter
use gdbstub.ResponseWriter.{hex_char}
use gdbstub.Stub.Access.{access}
use gdbstub.Stub.Access.Blocks.{handle_g-serial_text}
use gdbstub.Stub.Run.Replies.{conclude-written}
use gdbstub.ManagedVec.{borrowed}
use gdbstub.ThreadId.{IdKind, ThreadId}
use gdbstub.Commands.Types.{Command, Base, Op}
use gdbstub.Commands.Base.{parse_bare, parse_h_upcase}
use gdbstub.Commands.Dispatch.{Entry}
use gdbstub.Packet.{into_body}
use gdbstub.Stub.{Session}
use gdbstub.Stub.Run.{handle_command, handle_base, conclude}
use gdbstub.Stub.Queries.{handle_q_start_no_ack_mode}
use gdbstub.Stub.Threads.{handle_h_upcase}
use gdbstub.Stub.Receive.{Serving}
use gdbstub.Stub.Receive.Talks.{Talk, over, exchange, Answers}

abbrev quiet : Session tape tiny
quiet = record opened { no_ack_mode = true }

abbrev selected : Session tape tiny
selected = record quiet { current_mem_tid = 2 }

abbrev quiet_entry : Entry
quiet_entry = record {
  name = codes "QStartNoAckMode";
  parse = λ p. Option.map Command.base (parse_bare Base.q_start_no_ack_mode (into_body p));
}

abbrev select_entry : Entry
select_entry = record {
  name = codes "H";
  parse = λ p. Option.map Command.base (parse_h_upcase (into_body p));
}

abbrev thread_two : Base
thread_two = Base.h_upcase Op.other (record { pid = none; tid = IdKind.with_id 2 })

parses_two : parse_h_upcase (codes "g2") ≡ some thread_two
unfolding parse_h_upcase gdbstub.ThreadId.parse_thread_id gdbstub.ThreadId.parse_id_kind
    gdbstub.Hex.decode_hex gdbstub.Hex.ascii2byte
parses_two = refl

first : Answers tape tiny opened (codes "QStartNoAckMode") (codes "OK") quiet
unfolding parse_bare handle_command handle_base handle_q_start_no_ack_mode conclude
first = record {
  place = 11;
  entry = quiet_entry;
  args = [];
  command = Command.base Base.q_start_no_ack_mode;
  enabled = refl;
  named = refl;
  parses = λ p h. ap (λ a. Option.map Command.base (parse_bare Base.q_start_no_ack_mode a)) h;
  plain = ground arith;
  concludes = λ k. refl;
}

second : Answers tape tiny quiet (codes "Hg2") (codes "OK") selected
unfolding handle_command handle_base handle_h_upcase conclude
second = record {
  place = 5;
  entry = select_entry;
  args = codes "g2";
  command = Command.base thread_two;
  enabled = refl;
  named = refl;
  parses = λ p h.
      ap (λ a. Option.map Command.base (parse_h_upcase a)) h
      ∙ ap (Option.map Command.base) parses_two;
  plain = ground arith;
  concludes = λ k. refl;
}

abbrev registers_entry : Entry
registers_entry = record {
  name = codes "g";
  parse = λ p. Option.map Command.base (parse_bare Base.g (into_body p));
}

third : Answers tape tiny selected (codes "g") (codes "00") selected
unfolding parse_bare handle_command handle_base access hex_char
third = record {
  place = 3;
  entry = registers_entry;
  args = [];
  command = Command.base Base.g;
  enabled = refl;
  named = refl;
  parses = λ p h. ap (λ a. Option.map Command.base (parse_bare Base.g a)) h;
  plain = ground arith;
  concludes = λ k.
      let s = record selected { res = ResponseWriter.new k } in
      ap (conclude tape tiny) (handle_g-serial_text tape tape-IsReliable tiny 0 tt s refl)
      ∙ conclude-written tape tiny (codes "00") s;
}

abbrev talk : Talk tape tiny selected opened
talk =
    exchange (codes "QStartNoAckMode") (codes "OK") first
      (exchange (codes "Hg2") (codes "OK") second (exchange (codes "g") (codes "00") third over))

abbrev client : Serving tape tiny
client = record {
  session = record opened {
    res = record {
      inner = record {
        input =
            packet (codes "QStartNoAckMode")
            ++ (packet (codes "Hg2") ++ (packet (codes "g") ++ codes "+"));
        output = [];
      };
      started = false;
      checksum = 0;
      rle_char = 0;
      rle_repeat = 0;
    };
  };
  pkt_buf = record { ownership = borrowed; buf = replicate 20 0; len = 0 };
}
