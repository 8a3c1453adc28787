-- ===== src/Tests/Encode.antt =====
-- src/protocol/common/hex.rs: `encode_hex_buf` at concrete inputs.
use gdbstub.Prelude.{replicate, codes, refl, ◌≡◌, ◌++◌, [], ◌∷◌, true, false, arith, Bytes}
use gdbstub.Hex.{decode_hex_buf, decoded}
use gdbstub.Hex.Encode.{encode_hex_buf, encoded, small_buffer, panic, encode_len, encode_loop}
use gdbstub.Hex.Encode.InPlace.{encode_hex_buf-upper_text}
use gdbstub.Hex.Encode.ReadBack.{encode_hex_buf-decode_hex_buf}

abbrev payload : Bytes
payload = 0xde ∷ 0xad ∷ 0xbe ∷ 0xef ∷ []

-- The test `encode_hex_simple` of the source.
encode_simple : encode_hex_buf true (replicate 12 0 ++ payload) 12 ≡ encoded (codes "DEADBEEF")
unfolding encode_hex_buf encode_len encode_loop
encode_simple = refl

-- An index behind the end.
encode_behind : encode_hex_buf true payload 5 ≡ panic
unfolding encode_hex_buf encode_len
encode_behind = refl

encode_wrapped : encode_hex_buf false payload 5 ≡ small_buffer
unfolding encode_hex_buf encode_len
encode_wrapped = refl

encode_hex_buf-upper_text_example :
    encode_hex_buf true (replicate 4 0 ++ payload) 4 ≡ encoded (codes "DEADBEEF")
encode_hex_buf-upper_text_example =
    encode_hex_buf-upper_text true (replicate 4 0) payload
      (omega arith, (omega arith, (omega arith, (omega arith, tt)))) (omega arith)

encode_hex_buf-decode_hex_buf_example :
    (text : Bytes) × (encode_hex_buf false (replicate 4 0 ++ payload) 4 ≡ encoded text)
    × (decode_hex_buf text ≡ decoded payload)
encode_hex_buf-decode_hex_buf_example =
    encode_hex_buf-decode_hex_buf false (replicate 4 0) payload
      (omega arith, (omega arith, (omega arith, (omega arith, tt)))) (omega arith) (omega arith)
