-- ===== src/Stub/Receive/Commanded.antt =====
-- src/gdbstub_impl/mod.rs: what `recv_packet` gives for a packet that a client frames.
use gdbstub.Prelude.{
  Bytes, length, get_elem?, take, drop, length-append, All, ℕ, zero, suc, ◌+◌, ◌≤◌, ◌<◌, ◌≡◌, refl,
  sym, ap, ◌∙◌, ◌≢◌, true, Option, none, some, [], ◌∷◌, ◌++◌, append_assoc, arith,
}
use gdbstub.Prelude.Exec.{done, fail, Outcome, bind-done}
use gdbstub.Connection.{Connection}
use gdbstub.ManagedVec
use gdbstub.ManagedVec.{ManagedVec, as_slice}
use gdbstub.ManagedVec.Pushes.{pushed, as_slice-pushed}
use gdbstub.Target.{Target}
use gdbstub.ResponseWriter.Rle.{IsBody}
use gdbstub.ResponseWriter.Texts.{hex_chars}
use gdbstub.ResponseWriter.Framing.{packet}
use gdbstub.Checksum.{wrapping_sum}
use gdbstub.Packet.{PacketBuf, PacketParseError, into_body}
use gdbstub.Packet.Received.{parsed as parsed_command, Packet, from_buf, from_buf-packet}
use gdbstub.Commands.Types.{Command}
use gdbstub.Commands.Dispatch.{Entry}
use gdbstub.Commands.Dispatch.PrefixFree.{table}
use gdbstub.Stub.{GdbStubError, Error}
use gdbstub.Stub.Receive.{Serving, recv_packet, parsed, extensions, with_conn}
use gdbstub.Stub.Receive.Framed.{IsReadable, unread, cleared, read_packet-take, Reads}

take-drop : (n : ℕ) (xs : Bytes) → take n xs ++ drop n xs ≡ xs
take-drop zero xs = refl
take-drop (suc n) [] = refl
take-drop (suc n) (x ∷ xs) = ap (◌∷◌ x) (take-drop n xs)

-- Pushes into an empty vector fill the front of its buffer.
pushed-front :
    (xs : Bytes) (v : ManagedVec)
    → v.len ≡ 0
    → length xs ≤ length v.buf
    → (extra : Bytes) × ((pushed xs v).buf ≡ xs ++ extra)
pushed-front xs v z room =
    let (slice, len, cap) = as_slice-pushed xs v (omega arith) in
    let none_yet : as_slice v ≡ [] = ap (λ n. take n v.buf) z in
    let front : as_slice (pushed xs v) ≡ xs = slice ∙ ap (λ ys. ys ++ xs) none_yet in
    (
      drop (pushed xs v).len (pushed xs v).buf,
      sym (take-drop (pushed xs v).len (pushed xs v).buf)
          ∙ ap (λ ys. ys ++ drop (pushed xs v).len (pushed xs v).buf) front,
    )

no_hash : (bs : Bytes) → All IsBody bs → All (λ b. b ≢ b'#') bs
no_hash [] h = tt
no_hash (b ∷ bs) (hb, h) = (hb.1, no_hash bs h)

module _ (c : Connection) (readable : IsReadable c) (t : Target) where
  -- The result of a command's parser, as `recv_packet` gives it.
  abbrev pub received :
      Option Command → Serving c t → Outcome (Error c t) (Option Packet) × Serving c t
  received none v = (fail (GdbStubError.packet_parse PacketParseError.malformed_command), v)
  received (some cmd) v = (done (some (Packet.command cmd)), v)

  parsed-packet :
      (v : Serving c t) (r : Option Command)
      → from_buf (extensions c t) v.pkt_buf.buf ≡ parsed_command r
      → parsed c t (some tt) v ≡ received r v
  parsed-packet v none h = rw h refl
  parsed-packet v (some cmd) h = rw h refl

  -- What is read and what is left of the session.
  pub recv_packet-taken :
      (i : ℕ) (e : Entry) (args tail : Bytes) (rounds : ℕ) (v : Serving c t)
      → get_elem? (table (extensions c t)) i ≡ some (true, e)
      → All IsBody (e.name ++ args)
      → unread c readable t v ≡ packet (e.name ++ args) ++ tail
      → length (e.name ++ args) + 4 ≤ length v.pkt_buf.buf
      → length (e.name ++ args) < rounds
      → (p : PacketBuf) × (v' : Serving c t) × (into_body p ≡ args)
        × (recv_packet c t rounds v ≡ received (e.parse p) v')
        × (unread c readable t v' ≡ tail)
        × Reads c readable t v'.session.res.inner v.session.res.inner
        × (v'.session ≡ (with_conn c t v v'.session.res.inner).session)
        × (length v'.pkt_buf.buf ≡ length v.pkt_buf.buf)
  unfolding recv_packet
  recv_packet-taken i e args tail rounds v enabled h feed room enough =
      let body = e.name ++ args in
      let sum = wrapping_sum 0 body in
      let layout : packet body ++ tail ≡ b'$' ∷ (body ++ (b'#' ∷ (hex_chars sum ++ tail))) =
        ap (◌∷◌ b'$') (append_assoc body (b'#' ∷ hex_chars sum) tail) in
      let (v', runs, takes) =
        read_packet-take c readable t body tail _ _ rounds v (no_hash body h) (feed ∙ layout) room
          enough in
      let text_len : length (packet body) ≡ length body + 4 =
        omega (arith, length-append body (b'#' ∷ hex_chars sum)) in
      let (extra, front) =
        pushed-front (packet body) (cleared c readable t v).pkt_buf
          (unfold ManagedVec.clear in refl) (unfold ManagedVec.clear in omega (arith, text_len)) in
      let capacity : length (pushed (packet body) (cleared c readable t v).pkt_buf).buf
          ≡ length v.pkt_buf.buf =
        unfold ManagedVec.clear in
        (as_slice-pushed (packet body) (cleared c readable t v).pkt_buf
          (omega (arith, text_len))).2 in
      let stored : v'.pkt_buf.buf ≡ packet body ++ extra = ap (λ b. b.buf) takes.stored ∙ front in
      let (p, is_args, parses) = from_buf-packet (extensions c t) i e args extra enabled h in
      (
        p,
        v',
        is_args,
        bind-done (parsed c t) runs
            ∙ parsed-packet v' (e.parse p) (ap (from_buf (extensions c t)) stored ∙ parses),
        takes.left,
        takes.reads,
        takes.same,
        ap (λ b. length b.buf) takes.stored ∙ capacity,
      )

  -- From a connection that holds a framed packet whose body is the name of an enabled command and
  -- its arguments, `recv_packet` receives what the command's parser gives on the arguments, and
  -- leaves exactly the bytes behind the packet unread. The packet must fit the buffer; whatever the
  -- buffer held before does not matter; one round for each byte of the body and one for the '#' are
  -- enough.
  pub recv_packet-command :
      (i : ℕ) (e : Entry) (args tail : Bytes) (rounds : ℕ) (v : Serving c t)
      → get_elem? (table (extensions c t)) i ≡ some (true, e)
      → All IsBody (e.name ++ args)
      → unread c readable t v ≡ packet (e.name ++ args) ++ tail
      → length (e.name ++ args) + 4 ≤ length v.pkt_buf.buf
      → length (e.name ++ args) < rounds
      → (p : PacketBuf) × (v' : Serving c t) × (into_body p ≡ args)
        × (recv_packet c t rounds v ≡ received (e.parse p) v')
        × (unread c readable t v' ≡ tail)
  recv_packet-command i e args tail rounds v enabled h feed room enough =
      let (p, v', is_args, runs, left, _, _, _) =
        recv_packet-taken i e args tail rounds v enabled h feed room enough in
      (p, v', is_args, runs, left)
