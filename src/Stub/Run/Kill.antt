-- ===== src/Stub/Run/Kill.antt =====
-- src/gdbstub_impl/mod.rs and ext/base.rs: a kill that ends the session.
use gdbstub.Prelude.{codes, ok, ◌≡◌, refl, ap, ◌∙◌, true, none, some, [], ◌∷◌, ◌++◌, append_assoc}
use gdbstub.Prelude.Exec.{◌>>◌, done, pure, continue}
use gdbstub.Connection.{Connection, IsReliable}
use gdbstub.ResponseWriter
use gdbstub.ResponseWriter.{ResponseWriter, write_bytes, write, write_run, inner_write, conn_write}
use gdbstub.Target
use gdbstub.Target.{Target}
use gdbstub.Commands.Types.{Command, Base}
use gdbstub.Stub.{Session, HandlerStatus, DisconnectReason, handle_error}
use gdbstub.Stub.Extensions.{handle_kill}
use gdbstub.Stub.Run.{serve_command, handle_command, handle_base, conclude, flush_unless_killed}
use gdbstub.Stub.Run.Replies.{fresh, acked, serve_command-fresh}

module _ (c : Connection) (reliable : IsReliable c) where
  -- The writer behind "OK" on a fresh one: the last character is pending.
  abbrev pending : c.Conn → ResponseWriter c.Conn
  pending k = record {
    inner = reliable.after b'O' (reliable.after b'$' k);
    started = true;
    checksum = b'O';
    rle_char = b'K';
    rle_repeat = 1;
  }

  write_ok_text :
      (k : c.Conn) → write_bytes c (codes "OK") (ResponseWriter.new k) ≡ (done tt, pending k)
  unfolding write_bytes write write_run ResponseWriter.new inner_write conn_write
  write_ok_text k =
      rw (reliable.write_ok b'$' k, reliable.write_ok b'O' (reliable.after b'$' k)) refl

  killed_session :
      (t : Target) (ops : Target.ExtendedMode t.State t.Error) (s : Session c t) (target : t.State)
      → t.extended_mode ≡ some ops
      → ops.kill none s.target ≡ (ok true, target)
      → handle_command c t (Command.base Base.k) (fresh c t reliable s) ≡ (
        done (HandlerStatus.disconnect DisconnectReason.kill),
        record s { target = target; res = pending (acked c t reliable s) },
      )
  unfolding handle_command handle_base handle_kill handle_error
  killed_session t ops s target extended killed =
      rw extended (rw killed (rw (write_ok_text (acked c t reliable s)) refl))

  -- On a reliable connection, when a target with the extended mode asks to terminate on a kill, what
  -- is sent behind the acknowledgement is "$O", which is no packet, and the session ends: the reply
  -- is never flushed.
  pub serve_command-kill :
      (t : Target) (ops : Target.ExtendedMode t.State t.Error) (s : Session c t) (target : t.State)
      → t.extended_mode ≡ some ops
      → ops.kill none s.target ≡ (ok true, target)
      → let out = serve_command c t (Command.base Base.k) s in
        (out.0 ≡ done (some DisconnectReason.kill))
        × (reliable.sent out.1.res.inner
            ≡ reliable.sent (acked c t reliable s) ++ (b'$' ∷ b'O' ∷ []))
  serve_command-kill t ops s target extended killed =
      let k = acked c t reliable s in
      let s' : Session c t = record s { target = target; res = pending k } in
      let handles = killed_session t ops s target extended killed in
      let serves : serve_command c t (Command.base Base.k) s
          ≡ (done (some DisconnectReason.kill), s') =
        serve_command-fresh c t reliable (Command.base Base.k) s
        ∙ ap (λ x. continue (λ d. (do flush_unless_killed c t d; pure d)) (conclude c t x)) handles
        ∙ unfold conclude in refl in
      (
        ap (λ o. o.0) serves,
        ap (λ o. reliable.sent o.1.res.inner) serves
            ∙ reliable.sent-after b'O' (reliable.after b'$' k)
            ∙ ap (λ xs. xs ++ (b'O' ∷ [])) (reliable.sent-after b'$' k)
            ∙ append_assoc (reliable.sent k) (b'$' ∷ []) (b'O' ∷ []),
      )
