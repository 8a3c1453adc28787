-- ===== src/Packet/Received.antt =====
-- src/protocol/packet.rs: `Packet::from_buf`, which tells the kinds of packets apart.
use gdbstub.Prelude.{
  Bytes, ◌==◌, if◌then◌else◌, length, get_elem?, take, drop, drop-length-append, All, Result, ok,
  err, ok_or, ℕ, zero, suc, ◌+◌, ◌-◌, ◌≡◌, refl, ap, ◌∙◌, true, Option, none, some, [], ◌∷◌, ◌++◌,
  arith,
}
use native.Mathlib.Numerals.{unary_clauses}
use gdbstub.Prelude.ResultDo.{◌>>=◌}
use gdbstub.Prelude.Slices.{starts_with-append}
use gdbstub.Packet.{PacketBuf, PacketParseError, into_body, new, empty_buf, malformed_command}
use gdbstub.Packet.Accepts.{new-packet}
use gdbstub.ResponseWriter.Rle.{IsBody}
use gdbstub.ResponseWriter.Framing.{packet}
use gdbstub.Commands.Types.{Command}
use gdbstub.Commands.Dispatch.{Extensions, Entry, from_packet}
use gdbstub.Commands.Dispatch.PrefixFree.{table, matches, behind, from_packet_hit}

pub data Packet : Type 0 where
  ack : Packet
  nack : Packet
  interrupt : Packet
  command : Command → Packet

-- The branch of `from_buf` for a packet with a body.
unfoldable pub command_from_buf : Extensions → Bytes → Result PacketParseError Packet
command_from_buf ext buf = do
  packet_buf ← new buf
  cmd ← ok_or (from_packet ext packet_buf) malformed_command
  ok (command cmd)

unfoldable pub from_buf : Extensions → Bytes → Result PacketParseError Packet
unfolding command_from_buf
from_buf ext [] = err empty_buf
from_buf ext (b ∷ bs) =
    if b == b'$'
    then command_from_buf ext (b ∷ bs)
    else if b == b'+'
    then ok ack
    else if b == b'-'
    then ok nack
    else if b == 0x03
    then ok interrupt
    else err (PacketParseError.unexpected_header b)

pub drop_more : (m k : ℕ) (xs : Bytes) → drop (m + k) xs ≡ drop k (drop m xs)
drop_more zero k xs = let none_more : 0 + k ≡ k = omega arith in ap (λ n. drop n xs) none_more
drop_more (suc m) zero [] = simp unary_clauses refl
drop_more (suc m) (suc k) [] = simp unary_clauses refl
drop_more (suc m) k (x ∷ xs) =
    let one_more : suc m + k ≡ suc (m + k) = omega arith in
    ap (λ n. drop n (x ∷ xs)) one_more ∙ drop_more m k xs

drop_nil : (k : ℕ) → drop {A = ℕ} k [] ≡ []
drop_nil zero = refl
drop_nil (suc k) = refl

take_nil : (k : ℕ) → take {A = ℕ} k [] ≡ []
take_nil zero = refl
take_nil (suc k) = refl

drop-take : (k n : ℕ) (xs : Bytes) → take (n - k) (drop k xs) ≡ drop k (take n xs)
drop-take zero n xs = simp unary_clauses refl
drop-take (suc k) zero xs =
    let none_left : 0 - suc k ≡ 0 = omega arith in ap (λ n. take n (drop (suc k) xs)) none_left
drop-take (suc k) (suc n) [] = take_nil (suc n - suc k)
drop-take (suc k) (suc n) (x ∷ xs) = simp unary_clauses (drop-take k n xs)

-- Cutting off a name that the body begins with.
into_body-behind :
    (e : Entry) (p : PacketBuf) (args : Bytes)
    → into_body p ≡ e.name ++ args
    → into_body (behind e p) ≡ args
into_body-behind e p args h =
    let less : p.end - (p.start + length e.name) ≡ p.end - p.start - length e.name = omega arith in
    ap (λ n. take n (drop (p.start + length e.name) p.buf)) less
    ∙ ap (take _) (drop_more p.start (length e.name) p.buf)
    ∙ drop-take (length e.name) (p.end - p.start) (drop p.start p.buf)
    ∙ ap (drop (length e.name)) h
    ∙ drop-length-append e.name args

-- The result of a command's parser, as `from_buf` gives it.
abbrev pub parsed : Option Command → Result PacketParseError Packet
parsed none = err malformed_command
parsed (some cmd) = ok (command cmd)

parsed-eq : (o : Option Command) → (do cmd ← ok_or o malformed_command; ok (command cmd)) ≡ parsed o
parsed-eq none = refl
parsed-eq (some cmd) = refl

-- A framed packet whose body is the name of an enabled command and its arguments is received as
-- what the command's parser gives on the arguments, whatever the buffer holds behind it.
pub from_buf-packet :
    (ext : Extensions) (i : ℕ) (e : Entry) (args rest : Bytes)
    → get_elem? (table ext) i ≡ some (true, e)
    → All IsBody (e.name ++ args)
    → (p : PacketBuf) × (into_body p ≡ args)
      × (from_buf ext (packet (e.name ++ args) ++ rest) ≡ parsed (e.parse p))
unfolding from_buf command_from_buf
from_buf-packet ext i e args rest g h =
    let (p, accepted, body) = new-packet (e.name ++ args) rest h in
    let hit : matches e p ≡ true = rw body (starts_with-append e.name args) in
    (
      behind e p,
      into_body-behind e p args body,
      rw accepted (rw (from_packet_hit ext p i e g hit) (parsed-eq (e.parse (behind e p)))),
    )
