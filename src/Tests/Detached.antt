-- ===== src/Tests/Detached.antt =====
-- src/gdbstub_impl/mod.rs: a client that detaches, with the process it detaches from.
use gdbstub.Prelude.{codes, replicate, ◌≡◌, refl, false, some, ◌++◌, arith}
use gdbstub.Stub.{DisconnectReason}
use gdbstub.Tests.Stub.{tiny, opened}
use gdbstub.Tests.Tape.{tape-IsDuplex, tape-IsReadable, tape, tape-IsReliable}
use gdbstub.Prelude.Exec.{done}
use gdbstub.ResponseWriter.Rle.{encode}
use gdbstub.ResponseWriter.Framing.{packet}
use gdbstub.ThreadId.{SpecificIdKind}
use gdbstub.ManagedVec.{borrowed}
use gdbstub.Stub.Receive.{Serving, serve_loop}
use gdbstub.Commands.Base.{parse_opt_pid}
use gdbstub.Stub.Receive.Duplex.{acknowledgement}
use gdbstub.Stub.Receive.Detached.{serve_loop-detach}

-- A client that detaches from process 1.
abbrev leaving : Serving tape tiny
leaving = record {
  session = record opened {
    res = record {
      inner = record { input = packet (codes "D;1") ++ codes "+"; output = codes "+" };
      started = false;
      checksum = 0;
      rle_char = 0;
      rle_repeat = 0;
    };
  };
  pkt_buf = record { ownership = borrowed; buf = replicate 8 0; len = 0 };
}

process_one : parse_opt_pid b';' (codes ";1") ≡ some (some 1)
unfolding parse_opt_pid gdbstub.Hex.decode_hex gdbstub.Hex.ascii2byte gdbstub.ThreadId.nonzero
process_one = refl

serve_loop-detach_example :
    let out = serve_loop tape tiny 3 9 leaving in
    (out.0 ≡ done (some DisconnectReason.disconnect))
    × (out.1.session.res.inner.output
        ≡ codes "+" ++ (acknowledgement false ++ packet (encode 0 0 (codes "OK"))))
serve_loop-detach_example =
    serve_loop-detach tape tape-IsReliable tape-IsReadable tape-IsDuplex tiny (codes ";1")
      (codes "+") (some 1) 2 9 leaving process_one
      ((omega arith, omega arith), ((omega arith, omega arith), tt)) refl (omega arith)
      (omega arith)
