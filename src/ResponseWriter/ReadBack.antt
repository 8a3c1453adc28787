-- ===== src/ResponseWriter/ReadBack.antt =====
-- src/protocol/response_writer.rs against src/protocol/common: the numbers, buffers and thread ids
-- that the writer prints, read back by the stub's own parsers.
use gdbstub.Prelude.{Bytes, All, IsByte, ok, ℕ, ◌^◌, ◌≤◌, ◌<◌, ◌≡◌, some}
use gdbstub.Prelude.OptionDo.{◌>>=◌}
use gdbstub.Connection.{Connection}
use gdbstub.Hex.{decode_hex, decode_hex_buf, decoded}
use gdbstub.ThreadId.{SpecificThreadId, parse_thread_id, specific_thread_id}
use gdbstub.ThreadId.RoundTrip.{IsPid, IsId, specific_thread_id-thread_id_text}
use gdbstub.ResponseWriter.{ResponseWriter, write_bytes, write_num, write_hex_buf}
use gdbstub.ResponseWriter.Texts.{num_text, hex_text, write_num-text, write_hex_buf-text}
use gdbstub.ResponseWriter.Decoding.{decode_hex_buf-hex_text, decode_hex-num_text}
use gdbstub.ResponseWriter.Ids.{
  write_specific_thread_id, thread_id_text, write_specific_thread_id-text,
}

-- `write_num` of a number that fits its type of at most 16 bytes does not panic; it writes a text
-- from which `decode_hex` reads the number back, into every integer type that holds it.
pub write_num-decode_hex :
    (c : Connection) (size n : ℕ)
    → size ≤ 16
    → n < 256 ^ size
    → (text : Bytes) × ((w : ResponseWriter c.Conn) → write_num c size n w ≡ write_bytes c text w)
      × ((max : ℕ) → n ≤ max → 16 ≤ max → decode_hex max text ≡ ok n)
write_num-decode_hex c size n small fits = (
  num_text size n,
  λ w. write_num-text c size n w small,
  λ max h wide. decode_hex-num_text max size n fits h wide,
)

-- `write_hex_buf` writes a text that `decode_hex_buf` decodes in place to the same bytes.
pub write_hex_buf-decode_hex_buf :
    (c : Connection) (bs : Bytes)
    → All IsByte bs
    → (text : Bytes) × ((w : ResponseWriter c.Conn) → write_hex_buf c bs w ≡ write_bytes c text w)
      × (decode_hex_buf text ≡ decoded bs)
write_hex_buf-decode_hex_buf c bs h =
    (hex_text bs, write_hex_buf-text c bs, decode_hex_buf-hex_text bs h)

-- `write_specific_thread_id` writes a text that parses to the same thread id, with or without a
-- process, for all threads as well as for one; an id is a nonzero number that `usize` holds.
pub write_specific_thread_id-parse :
    (c : Connection) (id : SpecificThreadId)
    → IsPid id.pid
    → IsId id.tid
    → (text : Bytes) × ((w : ResponseWriter c.Conn)
        → write_specific_thread_id c id w ≡ write_bytes c text w)
      × ((parse_thread_id text >>= specific_thread_id) ≡ some id)
write_specific_thread_id-parse c id hp ht = (
  thread_id_text id,
  write_specific_thread_id-text c id,
  specific_thread_id-thread_id_text id hp ht,
)
