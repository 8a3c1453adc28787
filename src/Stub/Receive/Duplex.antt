-- ===== src/Stub/Receive/Duplex.antt =====
-- src/gdbstub_impl/mod.rs: what one round of `run` reads, and what it acknowledges.
use gdbstub.Prelude.{
  Bool-cases, Bytes, codes, ℕ, ◌≡◌, refl, sym, ◌∙◌, inl, inr, Bool, [], ◌∷◌, ◌++◌, append-nil,
  if◌then◌else◌,
}
use gdbstub.Connection.{Connection, IsReliable}
use gdbstub.Target.{Target}
use gdbstub.Stub.{Session}
use gdbstub.Stub.Run.Replies.{acked}
use gdbstub.Stub.Receive.Framed.{IsReadable, Reads, here, next}

-- What is read and what is sent have nothing to do with each other.
pub record IsDuplex (c : Connection) (reliable : IsReliable c) (readable : IsReadable c)
    : Type 0 where
  pub sent-behind :
      (k : c.Conn) (b : ℕ) (bs : Bytes)
      → readable.rest k ≡ b ∷ bs
      → reliable.sent (readable.behind k) ≡ reliable.sent k
  pub rest-after : (b : ℕ) (k : c.Conn) → readable.rest (reliable.after b k) ≡ readable.rest k
  pub rest-flushed : (k : c.Conn) → readable.rest (reliable.flushed k) ≡ readable.rest k

-- The acknowledgement of a packet.
abbrev pub acknowledgement : Bool → Bytes
acknowledgement no_ack_mode = if no_ack_mode then [] else codes "+"

module _ (c : Connection) (reliable : IsReliable c) (readable : IsReadable c)
    (duplex : IsDuplex c reliable readable) (t : Target) where
  pub Reads-sent : (k' k : c.Conn) → Reads c readable t k' k → reliable.sent k' ≡ reliable.sent k
  Reads-sent k' k here = refl
  Reads-sent k' k (next b bs e r) = Reads-sent k' _ r ∙ duplex.sent-behind k b bs e

  pub sent-acked :
      (s : Session c t)
      → reliable.sent (acked c t reliable s)
        ≡ reliable.sent s.res.inner ++ acknowledgement s.no_ack_mode
  sent-acked s = elim (Bool-cases s.no_ack_mode) [
    | inl on ↦ rw on (sym (append-nil (reliable.sent s.res.inner)))
    | inr off ↦ rw off (reliable.sent-after b'+' s.res.inner)
  ]

  pub rest-acked :
      (s : Session c t) → readable.rest (acked c t reliable s) ≡ readable.rest s.res.inner
  rest-acked s = elim (Bool-cases s.no_ack_mode) [
    | inl on ↦ rw on refl
    | inr off ↦ rw off (duplex.rest-after b'+' s.res.inner)
  ]
