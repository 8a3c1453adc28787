-- ===== src/Stub/Receive/Detached.antt =====
-- src/gdbstub_impl/mod.rs: a client that detaches ends the loop of `run`.
use gdbstub.Prelude.{
  All, Bytes, codes, length, ℕ, suc, ◌+◌, ◌≤◌, ◌<◌, ◌≡◌, refl, ap, ◌∙◌, Option, some, ◌∷◌, ◌++◌,
  append_assoc, arith,
}
use gdbstub.Prelude.Exec.{◌>>◌, done, fail, panic, Outcome, pure, continue, bind-done}
use gdbstub.Connection.{Connection, IsReliable}
use gdbstub.ResponseWriter
use gdbstub.ResponseWriter.{ResponseWriter, write_bytes, flush}
use gdbstub.ResponseWriter.Rle.{encode, IsBody}
use gdbstub.ResponseWriter.Framing.{packet, flush-write_bytes}
use gdbstub.ResponseWriter.Sent.{write_bytes-put_all}
use gdbstub.Target.{Target}
use gdbstub.Commands.Types.{Command, Base}
use gdbstub.Commands.Dispatch.{Entry}
use gdbstub.Stub.{Session, DisconnectReason, HandlerStatus, wrote}
use gdbstub.Stub.Access.Memory.{wrote_over}
use gdbstub.Stub.Run.{
  serve, serve_command, handle_command, handle_base, conclude, flush_unless_killed,
}
use gdbstub.Stub.Run.Replies.{acked, fresh, serve_command-fresh}
use gdbstub.Packet.{into_body}
use mathlib.Core.Option
use gdbstub.Packet.Received.{Packet}
use gdbstub.Commands.Base.{parse_opt_pid}
use gdbstub.Stub.Receive.{Serving, serve_loop, recv_packet}
use gdbstub.Stub.Receive.Framed.{IsReadable, unread}
use gdbstub.Stub.Receive.Duplex.{IsDuplex, acknowledgement, Reads-sent, sent-acked}
use gdbstub.Stub.Receive.Commanded.{recv_packet-taken, received}

module _ (c : Connection) (reliable : IsReliable c) (readable : IsReadable c)
    (duplex : IsDuplex c reliable readable) (t : Target) where
  abbrev leaves : Option DisconnectReason
  leaves = some DisconnectReason.disconnect

  -- The reply is flushed before the session ends.
  concluded :
      (s : Session c t) (r : Outcome c.ConnError (Unit {0}) × ResponseWriter c.Conn)
      → r.0 ≡ done tt
      → continue
          (λ d. (do flush_unless_killed c t d; pure d))
          (conclude c t (
            continue
              (λ _. pure (HandlerStatus.disconnect DisconnectReason.disconnect))
              (wrote c t s r)))
        ≡ continue (λ _. pure leaves) (wrote c t s (continue (λ _. flush c) r))
  unfolding conclude
  concluded s (done u, w) h = ap (continue (λ _. pure leaves)) (wrote_over c t s w (flush c w))
  concluded s (fail e, w) h = cc
  concluded s (panic, w) h = cc

  flushed_leaves :
      (s : Session c t) (r : Outcome c.ConnError (Unit {0}) × ResponseWriter c.Conn)
      → r.0 ≡ done tt
      → continue (λ _. pure leaves) (wrote c t s r) ≡ (done leaves, record s { res = r.1 })
  flushed_leaves s (done a, w) h = refl
  flushed_leaves s (fail e, w) h = cc
  flushed_leaves s (panic, w) h = cc

  abbrev detach : Option ℕ → Command
  detach pid = Command.base (Base.d_upcase pid)

  serve_command-detach :
      (pid : Option ℕ) (s : Session c t)
      → (w : ResponseWriter c.Conn) × (serve_command c t (detach pid) s
          ≡ (done leaves, record (fresh c t reliable s) { res = w }))
        × (reliable.sent w.inner
            ≡ reliable.sent (acked c t reliable s) ++ packet (encode 0 0 (codes "OK")))
  unfolding handle_command handle_base
  serve_command-detach pid s =
      let k = acked c t reliable s in
      let (flushed, sends) =
        flush-write_bytes c reliable k (codes "OK") (omega arith, (omega arith, tt)) in
      let W = (do write_bytes c (codes "OK"); flush c) (ResponseWriter.new k) in
      let s' = fresh c t reliable s in
      let wrote_ok =
        ap (λ o. o.0) (write_bytes-put_all c reliable (codes "OK") (ResponseWriter.new k)) in
      (
        W.1,
        serve_command-fresh c t reliable (detach pid) s
            ∙ concluded s' (write_bytes c (codes "OK") (ResponseWriter.new k)) wrote_ok
            ∙ flushed_leaves s' W flushed,
        sends,
      )

  abbrev detach_entry : Entry
  detach_entry = record {
    name = codes "D";
    parse = λ p. Option.map (λ pid. detach pid) (parse_opt_pid b';' (into_body p));
  }

  -- One packet, and the loop ends.
  served_last :
      (packets rounds : ℕ) (v v' : Serving c t) (pid : Option ℕ) (s' : Session c t)
      → recv_packet c t rounds v ≡ (done (some (Packet.command (detach pid))), v')
      → serve_command c t (detach pid) v'.session ≡ (done leaves, s')
      → serve_loop c t (suc packets) rounds v ≡ (done leaves, record v' { session = s' })
  unfolding serve_loop serve
  served_last packets rounds v v' pid s' received serves = bind-done _ received ∙ rw serves refl

  -- When the client's next packet detaches, with or without a process id that parses, the loop of
  -- `run` ends with that packet, and the reason is the disconnect, whatever the state of the session
  -- and of the target is; by then the acknowledgement, unless it was turned off, and the reply OK
  -- have been sent, and nothing else. The connection takes every byte, and reading from it and
  -- writing to it do not disturb each other; the packet must fit the buffer; one packet, and one round for each byte of
  -- the body and one for the '#', are enough.
  pub serve_loop-detach :
      (args tail : Bytes) (pid : Option ℕ) (packets rounds : ℕ) (v : Serving c t)
      → parse_opt_pid b';' args ≡ some pid
      → All IsBody args
      → unread c readable t v ≡ packet (b'D' ∷ args) ++ tail
      → length args + 5 ≤ length v.pkt_buf.buf
      → length args + 1 < rounds
      → let out = serve_loop c t (suc packets) rounds v in
        (out.0 ≡ done leaves)
        × (reliable.sent out.1.session.res.inner
            ≡ reliable.sent v.session.res.inner
              ++ (acknowledgement v.session.no_ack_mode ++ packet (encode 0 0 (codes "OK"))))
  serve_loop-detach args tail pid packets rounds v parses plain feed room enough =
      let (p, v', is_args, runs, left, reads, same, _) =
        recv_packet-taken c readable t 2 detach_entry args tail rounds v refl
          ((omega arith, omega arith), plain) feed (omega arith) (omega arith) in
      let command : detach_entry.parse p ≡ some (detach pid) =
        ap (λ a. Option.map (λ i. detach i) (parse_opt_pid b';' a)) is_args
        ∙ ap (Option.map (λ i. detach i)) parses in
      let receives = runs ∙ ap (λ r. received c readable t r v') command in
      let (w, serves, sends) = serve_command-detach pid v'.session in
      let last = served_last packets rounds v v' pid _ receives serves in
      let mode : v'.session.no_ack_mode ≡ v.session.no_ack_mode = ap (λ s. s.no_ack_mode) same in
      (
        ap (λ o. o.0) last,
        ap (λ o. reliable.sent o.1.session.res.inner) last
            ∙ sends
            ∙ ap (λ xs. xs ++ packet (encode 0 0 (codes "OK")))
                (sent-acked c reliable readable duplex t v'.session
                  ∙ ap (λ m. reliable.sent v'.session.res.inner ++ acknowledgement m) mode
                  ∙ ap (λ xs. xs ++ acknowledgement v.session.no_ack_mode)
                      (Reads-sent c reliable readable duplex t _ _ reads))
            ∙ append_assoc (reliable.sent v.session.res.inner)
                (acknowledgement v.session.no_ack_mode) (packet (encode 0 0 (codes "OK"))),
      )
