-- ===== src/Tests/Protocol.antt =====
-- src/protocol: runs of the parsers and the writer, and their theorems at concrete inputs.
use gdbstub.Commands.VCont.{parse_v_cont}
use gdbstub.BeBytes.{from_be_bytes}
use gdbstub.BeBytes.Decoding.{from_be_bytes-fitting, fitting}
use mathlib.Core.Option.{IsSome}
use gdbstub.ResponseWriter.Binary.{IsHarmless, unescape}
use gdbstub.ResponseWriter.ReadBack.{
  write_hex_buf-decode_hex_buf, write_num-decode_hex, write_specific_thread_id-parse,
}
use gdbstub.Prelude.{
  Bytes, codes, All, ok, ℕ, ◌≤◌, ◌≡◌, refl, ◌≢◌, ◌↔◌, false, some, [], ◌∷◌, ◌++◌, arith,
}
use gdbstub.Tests.Tape.{Tape, tape}
use mathlib.Core.Option
use gdbstub.ResponseWriter.Texts.{hex_text, num_text}
use gdbstub.Commands.Base.{parse_m_upcase}
use gdbstub.Commands.Base.RoundTrip.{parse_m_upcase-hex_text}
use gdbstub.ResponseWriter.Binary.{write_binary-unescape}
use gdbstub.Prelude.Exec.{◌>>◌}
use gdbstub.Prelude.OptionDo.{◌>>=◌}
use gdbstub.Hex.{ascii2byte, is_hex, decode_hex, decode_hex_buf, decoded, failed, DecodeHexBufError}
use gdbstub.Hex.Number.{decode_hex_iff, hex_value}
use gdbstub.Hex.Buffer.{decode_hex_buf-hex_bytes, hex_bytes, answer}
use gdbstub.ResponseWriter.{write_hex_buf, write_binary, write_num, ResponseWriter, write_bytes}
use gdbstub.ResponseWriter
use gdbstub.ResponseWriter.Rle.{IsBody}
use gdbstub.ResponseWriter.Framing.{packet}
use gdbstub.ResponseWriter.Ids.{write_specific_thread_id}
use gdbstub.ThreadId.{SpecificThreadId, SpecificIdKind, parse_thread_id, specific_thread_id}
use gdbstub.Packet.{PacketBuf, into_body}
use gdbstub.Packet
use gdbstub.Packet.Accepts.{new-packet, new-IsChecked, IsChecked}
use gdbstub.Packet.Received.{from_buf-packet, from_buf, parsed}
use gdbstub.Commands.Dispatch.{Extensions, Entry, from_packet}
use gdbstub.Commands.Dispatch.PrefixFree.{from_packet_miss, behind, from_packet_hit}
use gdbstub.Commands.Types.{Base, Command}
use gdbstub.ManagedVec.{ManagedVec, borrowed, owned, as_slice}
use gdbstub.ManagedVec.Pushes.{push_full-lost, pushed}

-- A number as the client sends it.
decode_hex_at : decode_hex 255 (codes "7f") ≡ ok 127
unfolding decode_hex gdbstub.Hex.ascii2byte
decode_hex_at = refl

decode_hex_iff_example :
    (decode_hex 255 (codes "7f") ≡ ok 127)
    ↔ ((codes "7f" ≢ []) × (hex_value 0 (codes "7f") ≡ some 127) × (127 ≤ 255))
decode_hex_iff_example = decode_hex_iff 255 (codes "7f") 127 (omega arith)

decode_hex_buf-hex_bytes_example : decode_hex_buf (codes "abc") ≡ answer (hex_bytes (codes "abc"))
decode_hex_buf-hex_bytes_example = decode_hex_buf-hex_bytes (codes "abc")

abbrev a_thread : SpecificThreadId
a_thread = record { pid = some (SpecificIdKind.with_id 1); tid = SpecificIdKind.with_id 26 }

abbrev query : Bytes
query = codes "vCont?"

query-IsBody : All IsBody query
query-IsBody = (
  (omega arith, omega arith),
  (
    (omega arith, omega arith),
    (
      (omega arith, omega arith),
      ((omega arith, omega arith), ((omega arith, omega arith), ((omega arith, omega arith), tt))),
    ),
  ),
)

new-packet_example :
    (p : PacketBuf) × (Packet.new (packet query ++ codes "tail") ≡ ok p) × (into_body p ≡ query)
new-packet_example = new-packet query (codes "tail") query-IsBody

abbrev query_buf : PacketBuf
query_buf = record { buf = codes "$vCont?#49"; start = 1; end = 7 }

new-query : Packet.new (codes "$vCont?#49") ≡ ok query_buf
unfolding Packet.new Packet.validate decode_hex gdbstub.Hex.ascii2byte
new-query = refl

new-IsChecked_example : IsChecked (codes "$vCont?#49") query_buf
new-IsChecked_example = new-IsChecked (codes "$vCont?#49") new-query

abbrev no_extensions : Extensions
no_extensions = record {
  single_register_access = false;
  extended_mode = false;
  monitor_cmd = false;
  section_offsets = false;
  reverse_cont = false;
  reverse_step = false;
  memory_map = false;
  breakpoints = false;
}

abbrev v_cont_entry : Entry
v_cont_entry = record {
  name = codes "vCont";
  parse = λ p. Option.map (λ a. Command.base (Base.v_cont a)) (parse_v_cont (into_body p));
}

from_packet_hit_example :
    from_packet no_extensions query_buf ≡ v_cont_entry.parse (behind v_cont_entry query_buf)
from_packet_hit_example = from_packet_hit no_extensions query_buf 17 v_cont_entry refl refl

from_buf-packet_example :
    (p : PacketBuf) × (into_body p ≡ codes "?")
    × (from_buf no_extensions (packet (codes "vCont" ++ codes "?") ++ [])
        ≡ parsed (v_cont_entry.parse p))
from_buf-packet_example =
    from_buf-packet no_extensions 17 v_cont_entry (codes "?") [] refl query-IsBody

abbrev three_bytes : ManagedVec
three_bytes = record { ownership = borrowed; buf = 0 ∷ 0 ∷ 0 ∷ []; len = 0 }

abbrev one_owned : ManagedVec
one_owned = record { ownership = owned; buf = 5 ∷ []; len = 1 }

push_full-lost_example : as_slice (pushed (7 ∷ 8 ∷ []) one_owned) ≡ 5 ∷ 8 ∷ []
push_full-lost_example = push_full-lost one_owned 7 8 refl refl

write_binary-unescape_example :
    (text : Bytes) × ((w : ResponseWriter Tape)
      → write_binary tape (codes "a#}") w ≡ write_bytes tape text w)
    × (unescape text ≡ codes "a#}")
    × All IsHarmless text
write_binary-unescape_example =
    write_binary-unescape tape (codes "a#}") (omega arith, (omega arith, (omega arith, tt)))

abbrev odd_buf : PacketBuf
odd_buf = record { buf = codes "$x#78"; start = 1; end = 2 }

from_packet_miss_example :
    from_packet no_extensions odd_buf ≡ some (Command.unknown (into_body odd_buf))
from_packet_miss_example = from_packet_miss no_extensions odd_buf refl

from_be_bytes-fitting_example : from_be_bytes 2 (0 ∷ 18 ∷ 52 ∷ []) ≡ fitting 2 0x1234
from_be_bytes-fitting_example =
    from_be_bytes-fitting 2 (0 ∷ 18 ∷ 52 ∷ []) (omega arith, (omega arith, (omega arith, tt)))

write_num-decode_hex_example :
    (text : Bytes) × ((w : ResponseWriter Tape)
      → write_num tape 4 0x1234 w ≡ write_bytes tape text w)
    × ((max : ℕ) → 0x1234 ≤ max → 16 ≤ max → decode_hex max text ≡ ok 0x1234)
write_num-decode_hex_example = write_num-decode_hex tape 4 0x1234 (omega arith) (omega arith)

write_hex_buf-decode_hex_buf_example :
    (text : Bytes) × ((w : ResponseWriter Tape)
      → write_hex_buf tape (18 ∷ 255 ∷ []) w ≡ write_bytes tape text w)
    × (decode_hex_buf text ≡ decoded (18 ∷ 255 ∷ []))
write_hex_buf-decode_hex_buf_example =
    write_hex_buf-decode_hex_buf tape (18 ∷ 255 ∷ []) (omega arith, (omega arith, tt))

write_specific_thread_id-parse_example :
    (text : Bytes) × ((w : ResponseWriter Tape)
      → write_specific_thread_id tape a_thread w ≡ write_bytes tape text w)
    × ((parse_thread_id text >>= specific_thread_id) ≡ some a_thread)
write_specific_thread_id-parse_example =
    write_specific_thread_id-parse tape a_thread (omega arith, omega arith)
      (omega arith, omega arith)

parse_m_upcase-hex_text_example :
    parse_m_upcase
      (hex_text (16 ∷ 0 ∷ []) ++ (b',' ∷ (num_text 8 2 ++ (b':' ∷ hex_text (1 ∷ 2 ∷ [])))))
    ≡ some (Base.m_upcase (16 ∷ 0 ∷ []) 2 (1 ∷ 2 ∷ []))
parse_m_upcase-hex_text_example =
    parse_m_upcase-hex_text (16 ∷ 0 ∷ []) (1 ∷ 2 ∷ []) 2 (omega arith, (omega arith, tt))
      (omega arith, (omega arith, tt)) (omega arith)
