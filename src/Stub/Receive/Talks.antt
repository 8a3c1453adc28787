-- ===== src/Stub/Receive/Talks.antt =====
-- src/gdbstub_impl/mod.rs: the loop of `run` over the packets of a client.
use gdbstub.Prelude.{
  ◌≢◌, All, Bytes, length, get_elem?, ℕ, suc, ◌+◌, ◌≤◌, ◌≡◌, true, none, some, [], ◌++◌,
}
use gdbstub.Prelude.Exec.{◌>>◌, pure}
use gdbstub.Connection.{Connection, IsReliable}
use gdbstub.ResponseWriter
use gdbstub.ResponseWriter.{write_bytes, flush}
use gdbstub.ResponseWriter.Rle.{encode, IsBody}
use gdbstub.ResponseWriter.Framing.{packet}
use gdbstub.Target.{Target}
use gdbstub.Commands.Types.{Command}
use gdbstub.Commands.Dispatch.{Entry}
use gdbstub.Commands.Dispatch.PrefixFree.{table}
use gdbstub.Packet.{PacketBuf, into_body}
use gdbstub.Packet.Received.{Packet}
use gdbstub.Stub.{Session, write_str}
use gdbstub.Stub.Run.{handle_command, conclude}
use gdbstub.Stub.Receive.{Serving, extensions}
use gdbstub.Stub.Receive.Framed.{IsReadable, unread}
use gdbstub.Stub.Receive.Duplex.{IsDuplex, acknowledgement}

module _ (c : Connection) (t : Target) where
  -- A packet with this body is an enabled command, whose handler leads from `s` to `s'`, and writes
  -- the reply `text` or leaves it to `run`.
  pub record Answers (s : Session c t) (body text : Bytes) (s' : Session c t) : Type 0 where
    pub place : ℕ
    pub entry : Entry
    pub args : Bytes
    pub command : Command
    pub enabled : get_elem? (table (extensions c t)) place ≡ some (true, entry)
    pub named : body ≡ entry.name ++ args
    pub parses : (p : PacketBuf) → into_body p ≡ args → entry.parse p ≡ some command
    pub plain : All (λ b. b ≢ b'#') text
    pub concludes :
        (k : c.Conn)
        → conclude c t (handle_command c t command (record s { res = ResponseWriter.new k }))
          ≡ (do write_str c t text; pure none) (record s' { res = ResponseWriter.new k })

  -- A sequence of such packets.
  pub data Talk (last : Session c t) : Session c t → Type 0 where
    over : Talk last last
    exchange :
        {s s' : Session c t} (body text : Bytes)
        → Answers s body text s'
        → Talk last s'
        → Talk last s

  abbrev pub requests : {s' s : Session c t} → Talk s' s → Bytes
  requests over = []
  requests (exchange body text _ talk) = packet body ++ requests talk

  abbrev pub count : {s' s : Session c t} → Talk s' s → ℕ
  count over = 0
  count (exchange _ _ _ talk) = suc (count talk)

  -- What is sent: the acknowledgements and the replies.
  abbrev pub answers : {s' s : Session c t} → Talk s' s → Bytes
  answers over = []
  answers (exchange {s = s} body text _ talk) =
      (acknowledgement s.no_ack_mode ++ packet (encode 0 0 text)) ++ answers talk

  -- Every packet is made of characters of a body, and fits a buffer of `room` bytes.
  abbrev pub Fitting : {s' s : Session c t} → ℕ → Talk s' s → Type 0
  Fitting room over = Unit
  Fitting room (exchange body _ _ talk) =
      (All IsBody body × (length body + 4 ≤ room)) × Fitting room talk

  -- The session is `s`, but for the writer.
  abbrev pub At : Session c t → Serving c t → Type 0
  At s v = v.session ≡ record s { res = v.session.res }

module _ (c : Connection) (reliable : IsReliable c) (readable : IsReadable c)
    (duplex : IsDuplex c reliable readable) (t : Target) where
  -- What a round makes of the state.
  pub record Round (s' : Session c t) (tail out : Bytes) (v v' : Serving c t) : Type 0 where
    pub at : At c t s' v'
    pub left : unread c readable t v' ≡ tail
    pub sends : reliable.sent v'.session.res.inner ≡ reliable.sent v.session.res.inner ++ out
    pub capacity : length v'.pkt_buf.buf ≡ length v.pkt_buf.buf

  abbrev renewed : c.Conn → Session c t → Session c t
  renewed k x = record x { res = ResponseWriter.new k }
