-- ===== src/Stub/Run/Replies.antt =====
-- src/gdbstub_impl/mod.rs: the reply to a command whose handler has written nothing.
use gdbstub.Prelude.{
  Bool-cases, Bytes, codes, ◌==◌, if◌then◌else◌, All, ℕ, ◌/◌, ◌^◌, bit_and, ◌≡◌, refl, sym, ap, ◌∙◌,
  ◌≢◌, inl, inr, Option, none, some, [], ◌∷◌, ◌++◌, arith,
}
use mathlib.Core.Path.{subst}
use gdbstub.BeBytes.{be_bytes}
use gdbstub.ResponseWriter.{skip_zeros}
use gdbstub.Prelude.Exec.{continue_ext, ◌>>◌, done, fail, panic, Outcome, pure, continue}
use gdbstub.Connection.{Connection, IsReliable}
use gdbstub.ResponseWriter
use gdbstub.ResponseWriter.{ResponseWriter, write_bytes, write_num, flush}
use gdbstub.ResponseWriter.Rle.{encode}
use gdbstub.ResponseWriter.Framing.{packet, flush-write_bytes, hex_char-gt}
use gdbstub.ResponseWriter.Texts.{num_text, hex_text, write_num-text, write_bytes-append}
use gdbstub.Target.{Target}
use gdbstub.Commands.Types.{Command}
use gdbstub.Stub.{
  Session, HandlerStatus, handled, needs_ok, Error, put, wrote, Handler, GdbStubError,
  DisconnectReason, write_str,
}
use gdbstub.Stub.Access.Memory.{wrote_over}
use gdbstub.Stub.Run.{handle_command, conclude, serve_command, flush_unless_killed, write_ack}

module _ (c : Connection) (t : Target) where
  -- The text of the reply: an empty one says that the packet is not supported.
  abbrev pub reply_text : Outcome (Error c t) HandlerStatus → Option Bytes
  reply_text (done handled) = some []
  reply_text (done needs_ok) = some (codes "OK")
  reply_text (fail (GdbStubError.non_fatal_error code)) = some (b'E' ∷ num_text 1 code)
  reply_text _ = none

  -- Two writes, one after the other.
  two_writes :
      {A : Type 0} (s : Session c t) (xs ys : Bytes) (v : A)
      → (do write_str c t xs; write_str c t ys; pure v) s ≡ (do write_str c t (xs ++ ys); pure v) s
  two_writes s xs ys v =
      go (write_bytes c xs s.res)
      ∙ ap (λ r. continue (λ _. pure v) (wrote c t s r)) (sym (write_bytes-append c xs ys s.res))
    where
      go :
          (r : Outcome c.ConnError (Unit {0}) × ResponseWriter c.Conn)
          → continue (λ _. (do write_str c t ys; pure v)) (wrote c t s r)
            ≡ continue (λ _. pure v) (wrote c t s (continue (λ _. write_bytes c ys) r))
      go (done a, w) = ap (continue (λ _. pure v)) (wrote_over c t s w (write_bytes c ys w))
      go (fail e, w) = refl
      go (panic, w) = refl

  abbrev go_on : Handler c t (Option DisconnectReason)
  go_on = pure none

  code_text :
      (code : ℕ) (s : Session c t)
      → (do write_str c t (codes "E"); put c t (write_num c 1 code); go_on) s
        ≡ (do write_str c t (b'E' ∷ num_text 1 code); go_on) s
  code_text code s =
      continue_ext _ _ (write_str c t (codes "E") s) (λ _ v.
        ap (λ x. continue (λ _. go_on) (wrote c t v x))
          (write_num-text c 1 code v.res (omega arith)))
      ∙ two_writes s (codes "E") (num_text 1 code) none

  conclude-text :
      (r : Outcome (Error c t) HandlerStatus) (s : Session c t) (text : Bytes)
      → reply_text r ≡ some text
      → conclude c t (r, s) ≡ (do write_str c t text; pure none) s
  unfolding conclude write_bytes
  conclude-text (done handled) s text h =
      let e : [] ≡ text = cc in ap (λ x. (do write_str c t x; pure none) s) e
  conclude-text (done needs_ok) s text h =
      let e : codes "OK" ≡ text = cc in ap (λ x. (do write_str c t x; pure none) s) e
  conclude-text (done (HandlerStatus.disconnect _)) s text h = cc
  conclude-text panic s text h = cc
  conclude-text (fail (GdbStubError.non_fatal_error code)) s text h =
      let e : b'E' ∷ num_text 1 code ≡ text = cc in
      code_text code s ∙ ap (λ x. (do write_str c t x; pure none) s) e
  conclude-text (fail (GdbStubError.connection_read _)) s text h = cc
  conclude-text (fail (GdbStubError.connection_write _)) s text h = cc
  conclude-text (fail GdbStubError.client_sent_nack) s text h = cc
  conclude-text (fail GdbStubError.packet_buffer_overflow) s text h = cc
  conclude-text (fail (GdbStubError.packet_parse _)) s text h = cc
  conclude-text (fail GdbStubError.packet_unexpected) s text h = cc
  conclude-text (fail GdbStubError.target_mismatch) s text h = cc
  conclude-text (fail (GdbStubError.target_error _)) s text h = cc
  conclude-text (fail GdbStubError.unsupported_stop_reason) s text h = cc
  conclude-text (fail GdbStubError.no_active_threads) s text h = cc

  -- The reply is written and flushed.
  finish :
      (s : Session c t) (r : Outcome c.ConnError (Unit {0}) × ResponseWriter c.Conn)
      → continue
          (λ d. (do flush_unless_killed c t d; pure d))
          (continue (λ _. pure none) (wrote c t s r))
        ≡ continue (λ _. pure none) (wrote c t s (continue (λ _. flush c) r))
  finish s (done a, w) = ap (continue (λ _. pure none)) (wrote_over c t s w (flush c w))
  finish s (fail e, w) = refl
  finish s (panic, w) = refl

  flushed_done :
      (s : Session c t) (r : Outcome c.ConnError (Unit {0}) × ResponseWriter c.Conn)
      → r.0 ≡ done tt
      → continue (λ _. go_on) (wrote c t s r) ≡ (done none, record s { res = r.1 })
  flushed_done s (done a, w) h = refl
  flushed_done s (fail e, w) h = cc
  flushed_done s (panic, w) h = cc

  hex_text_no_hash : (bs : Bytes) → All (λ b. b ≢ b'#') (hex_text bs)
  hex_text_no_hash [] = tt
  hex_text_no_hash (b ∷ bs) = (
    λ e. absurd (omega (arith, hex_char-gt (bit_and b 0xf0 / 2 ^ 4))),
    (λ e. absurd (omega (arith, hex_char-gt (bit_and b 0x0f))), hex_text_no_hash bs),
  )

  num_text_no_hash : (code : ℕ) → All (λ b. b ≢ b'#') (num_text 1 code)
  num_text_no_hash code = elim (Bool-cases (code == 0)) [
    | inl z ↦ rw z (hex_text_no_hash (0 ∷ []))
    | inr nz ↦ rw nz (hex_text_no_hash (skip_zeros (be_bytes 1 code)))
  ]

  pub reply_text_no_hash :
      (r : Outcome (Error c t) HandlerStatus) {text : Bytes}
      → reply_text r ≡ some text
      → All (λ b. b ≢ b'#') text
  reply_text_no_hash (done handled) h = let e : [] ≡ _ = cc in subst (All (λ b. b ≢ b'#')) e tt
  reply_text_no_hash (done needs_ok) h =
      let e : codes "OK" ≡ _ = cc in subst (All (λ b. b ≢ b'#')) e (omega arith, (omega arith, tt))
  reply_text_no_hash (fail (GdbStubError.non_fatal_error code)) h =
      let e : b'E' ∷ num_text 1 code ≡ _ = cc in
      subst (All (λ b. b ≢ b'#')) e (omega arith, num_text_no_hash code)
  reply_text_no_hash (fail (GdbStubError.connection_read _)) h = cc
  reply_text_no_hash (fail (GdbStubError.connection_write _)) h = cc
  reply_text_no_hash (fail GdbStubError.client_sent_nack) h = cc
  reply_text_no_hash (fail GdbStubError.packet_buffer_overflow) h = cc
  reply_text_no_hash (fail (GdbStubError.packet_parse _)) h = cc
  reply_text_no_hash (fail GdbStubError.packet_unexpected) h = cc
  reply_text_no_hash (fail GdbStubError.target_mismatch) h = cc
  reply_text_no_hash (fail (GdbStubError.target_error _)) h = cc
  reply_text_no_hash (fail GdbStubError.unsupported_stop_reason) h = cc
  reply_text_no_hash (fail GdbStubError.no_active_threads) h = cc
  reply_text_no_hash (done (HandlerStatus.disconnect _)) h = cc
  reply_text_no_hash panic h = cc

  -- The connection behind the acknowledgement.
  abbrev pub acked : IsReliable c → Session c t → c.Conn
  acked reliable s = if s.no_ack_mode then s.res.inner else reliable.after b'+' s.res.inner

  abbrev pub fresh : IsReliable c → Session c t → Session c t
  fresh reliable s = record s { res = ResponseWriter.new (acked reliable s) }

  pub serve_command-fresh :
      (reliable : IsReliable c) (cmd : Command) (s : Session c t)
      → serve_command c t cmd s
        ≡ continue
            (λ d. (do flush_unless_killed c t d; pure d))
            (conclude c t (handle_command c t cmd (fresh reliable s)))
  unfolding serve_command write_ack
  serve_command-fresh reliable cmd s = elim (Bool-cases s.no_ack_mode) [
    | inl on ↦ rw on refl
    | inr off ↦ rw (off, reliable.write_ok b'+' s.res.inner) refl
  ]

  -- The session behind a reply that is left to `run`, or is what the handler has written.
  pub serve_command-concluded :
      (reliable : IsReliable c) (cmd : Command) (s s' : Session c t) (k : c.Conn) (text : Bytes)
      → All (λ b. b ≢ b'#') text
      → s'.res ≡ ResponseWriter.new k
      → conclude c t (handle_command c t cmd (fresh reliable s))
        ≡ (do write_str c t text; pure none) s'
      → serve_command c t cmd s ≡ (
        done none,
        record s' { res = ((do write_bytes c text; flush c) (ResponseWriter.new k)).1 },
      )
  serve_command-concluded reliable cmd s s' k text plain unwritten concludes =
      let (flushed, _) = flush-write_bytes c reliable k text plain in
      let W = (do write_bytes c text; flush c) (ResponseWriter.new k) in
      serve_command-fresh reliable cmd s
      ∙ ap (continue (λ d. (do flush_unless_killed c t d; pure d))) concludes
      ∙ finish s' (write_bytes c text s'.res)
      ∙ ap
          (λ w.
            continue (λ _. pure none)
              (wrote c t s' (continue (λ _. flush c) (write_bytes c text w))))
          unwritten
      ∙ flushed_done s' W flushed

  -- What a handler writes is the reply.
  pub conclude-written :
      (text : Bytes) (s : Session c t)
      → conclude c t ((do put c t (write_bytes c text); pure handled) s)
        ≡ (do write_str c t text; pure none) s
  unfolding conclude
  conclude-written text s = go (write_bytes c text s.res)
    where
      go :
          (r : Outcome c.ConnError (Unit {0}) × ResponseWriter c.Conn)
          → conclude c t (continue (λ _. pure handled) (wrote c t s r))
            ≡ continue (λ _. pure none) (wrote c t s r)
      go (done a, w) = refl
      go (fail e, w) = refl
      go (panic, w) = refl

  -- On a reliable connection, if the handler of a command, run on a new writer behind the
  -- acknowledgement ('+', unless the client turned that off), leaves a writer that has written
  -- nothing, then what is sent behind that is one packet: an empty one if the command is not
  -- supported, "OK" if the handler asks for it, and 'E' with the code for an error that is not fatal.
  -- The session goes on.
  pub serve_command-reply :
      (reliable : IsReliable c) (cmd : Command) (s s' : Session c t) (k : c.Conn) (text : Bytes)
      (r : Outcome (Error c t) HandlerStatus)
      → handle_command c t cmd (fresh reliable s) ≡ (r, s')
      → s'.res ≡ ResponseWriter.new k
      → reply_text r ≡ some text
      → let out = serve_command c t cmd s in
        (out.0 ≡ done none)
        × (reliable.sent out.1.res.inner ≡ reliable.sent k ++ packet (encode 0 0 text))
  serve_command-reply reliable cmd s s' k text r runs unwritten replies =
      let plain = reply_text_no_hash r replies in
      let (_, sends) = flush-write_bytes c reliable k text plain in
      let last =
        serve_command-concluded reliable cmd s s' k text plain unwritten
          (ap (conclude c t) runs ∙ conclude-text r s' text replies) in
      (ap (λ o. o.0) last, ap (λ o. reliable.sent o.1.res.inner) last ∙ sends)
