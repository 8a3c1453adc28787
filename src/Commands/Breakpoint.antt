-- ===== src/Commands/Breakpoint.antt =====
-- src/protocol/commands/breakpoint.rs: the part of a breakpoint packet that is parsed.
use gdbstub.Prelude.Slices.{nth, splitn}
use gdbstub.Hex.{decode_hex_buf, decoded_buf, decode_hex}
use gdbstub.Prelude.{usize_max, u8_max, Bytes, ◌==◌, to_option, ◌||◌, Option, some}
use gdbstub.Prelude.OptionDo.{◌>>=◌}
use gdbstub.Commands.Types.{BasicBreakpoint}

-- `BasicBreakpoint::from_slice`.
unfoldable pub parse_basic_breakpoint : Bytes → Option BasicBreakpoint
parse_basic_breakpoint body = do
  let parts = splitn 4 (λ b. b == b',' || b == b';') body
  type_text ← nth 0 parts
  type_ ← to_option (decode_hex u8_max type_text)
  addr_text ← nth 1 parts
  addr ← decoded_buf (decode_hex_buf addr_text)
  kind_text ← nth 2 parts
  kind ← to_option (decode_hex usize_max kind_text)
  some (record { type_ = type_; addr = addr; kind = kind })
