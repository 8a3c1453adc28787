-- ===== src/Tests/Writer.antt =====
-- src/protocol/response_writer.rs: a writer between two calls.
use gdbstub.Prelude.{codes, ◌≡◌, refl, [], true}
use gdbstub.Prelude.Exec.{done}
use gdbstub.Tests.Tape.{Tape, tape, blank, tape-IsReliable}
use gdbstub.ResponseWriter
use gdbstub.ResponseWriter.{ResponseWriter, write_bytes, write_hex}
use gdbstub.ResponseWriter.Steps.{here, next, str, hex}
use gdbstub.ResponseWriter.Steps.Framed.{IsFramed, Reach-IsFramed}

abbrev with_run : ResponseWriter Tape
with_run = record {
  inner = record { input = []; output = codes "$O" };
  started = true;
  checksum = 79;
  rle_char = b'a';
  rle_repeat = 5;
}

abbrev with_digits : ResponseWriter Tape
with_digits = record {
  inner = record { input = []; output = codes "$Oa*!1" };
  started = true;
  checksum = 44;
  rle_char = b'f';
  rle_repeat = 1;
}

run_written : write_bytes tape (codes "Oaaaaa") (ResponseWriter.new blank) ≡ (done tt, with_run)
unfolding write_bytes ResponseWriter.new gdbstub.ResponseWriter.write
    gdbstub.ResponseWriter.write_run gdbstub.ResponseWriter.inner_write
    gdbstub.ResponseWriter.conn_write
run_written = refl

digits_written : write_hex tape 0x1f with_run ≡ (done tt, with_digits)
unfolding write_hex gdbstub.ResponseWriter.write gdbstub.ResponseWriter.write_run
    gdbstub.ResponseWriter.inner_write gdbstub.ResponseWriter.conn_write
    gdbstub.ResponseWriter.hex_char
digits_written = refl

Reach-IsFramed_example : IsFramed tape tape-IsReliable blank with_digits
Reach-IsFramed_example =
    Reach-IsFramed tape tape-IsReliable blank with_digits
      (next (next here (str (codes "Oaaaaa") run_written)) (hex 0x1f digits_written))
