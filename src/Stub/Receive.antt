-- ===== src/Stub/Receive.antt =====
-- src/gdbstub_impl/mod.rs: `recv_packet` and the loop of `run`. A connection may go on forever, so
-- both loops run for at most so many rounds, and `none` says that the rounds ran out.
pub mod Framed
pub mod Commanded
pub mod Duplex
pub mod Detached
pub mod Talks
use gdbstub.Prelude.{
  usize_max, u8_max, all_below, all_below_sound, eq_below, Bool-cases, Option-cases, Bytes, codes,
  equal, equal_iff, ltb, leb, ◌==◌, if◌then◌else◌, length, get_elem?, set, take, drop, replicate,
  length-append, length-drop, take-length-append, drop-length-append, get_elem?-append_here,
  set-append_here, All, All-append, IsByte, Result, ok, err, to_option, ok_or, map_err, ℕ, zero,
  suc, ◌+◌, ◌-◌, ◌*◌, ◌/◌, ◌%◌, ◌^◌, ◌≤◌, ◌<◌, min, bit_or, bit_and, bit_xor, ◌≡◌, refl, sym, ap,
  ◌∙◌, ◌≢◌, ◌↔◌, ◌⊎◌, inl, inr, Bool, true, false, not, ◌&&◌, ◌||◌, Option, none, some, List, [],
  ◌∷◌, ◌++◌, map, append-nil, append_assoc, arith,
}
use gdbstub.Prelude.Exec.{◌>>=◌, ◌>>◌, done, fail, Exec, Outcome, pure}
use gdbstub.Connection.{Connection}
use gdbstub.ManagedVec
use gdbstub.ManagedVec.{ManagedVec, CapacityError}
use gdbstub.Hex.Digits.{is_some}
use gdbstub.Target.{Target, BaseOps}
use gdbstub.Commands.Dispatch.{Extensions}
use gdbstub.Packet.{PacketParseError}
use gdbstub.Packet.Received.{Packet, from_buf}
use gdbstub.Stub.{Session, GdbStubError, DisconnectReason, Error}
use gdbstub.Stub.Run.{serve}

module _ (c : Connection) (t : Target) where
  -- The session and the packet buffer.
  pub record Serving : Type 0 where
    pub session : Session c t
    pub pkt_buf : ManagedVec

  abbrev pub Server : Type 0 → Type 0
  Server A = Exec Serving (Error c t) A

  abbrev pub with_conn : Serving → c.Conn → Serving
  with_conn v k = record v {
    session = record v.session { res = record v.session.res { inner = k } };
  }

  abbrev pub has_read : Serving → Result c.ConnError ℕ × c.Conn → Outcome (Error c t) ℕ × Serving
  has_read v (ok b, k) = (done b, with_conn v k)
  has_read v (err e, k) = (fail (GdbStubError.connection_read e), with_conn v k)

  -- `conn.read().map_err(Error::ConnectionRead)?`.
  unfoldable pub read : Server ℕ
  read v = has_read v (c.read v.session.res.inner)

  abbrev pub has_pushed :
      Serving
      → Result CapacityError (Unit {0}) × ManagedVec
      → Outcome (Error c t) (Unit {0}) × Serving
  has_pushed v (ok _, buf) = (done tt, record v { pkt_buf = buf })
  has_pushed v (err _, buf) = (fail GdbStubError.packet_buffer_overflow, record v { pkt_buf = buf })

  -- `buf.push(..)?`.
  unfoldable pub push : ℕ → Server (Unit {0})
  push b v = has_pushed v (ManagedVec.push b v.pkt_buf)

  -- The loop over the body, up to and with the '#'.
  unfoldable pub read_body : ℕ → Server (Option (Unit {0}))
  unfolding read push
  read_body zero = pure none
  read_body (suc rounds) = do
    b ← read
    push b
    if b == b'#' then pure (some tt) else read_body rounds

  abbrev pub read_checksum : Option (Unit {0}) → Server (Option (Unit {0}))
  read_checksum none = pure none
  read_checksum (some _) = do first ← read; push first; second ← read; push second; pure (some tt)

  unfoldable pub read_packet : ℕ → Server (Option (Unit {0}))
  unfolding read_body read push
  read_packet rounds = do
    header_byte ← read
    (λ v. (done tt, record v { pkt_buf = ManagedVec.clear v.pkt_buf }))
    push header_byte
    if header_byte == b'$' then (do body ← read_body rounds; read_checksum body) else pure (some tt)

  abbrev has :
      {State Error Registers RegId : Type 0}
      → BaseOps State Error Registers RegId
      → Bool × Bool × Bool
  has (BaseOps.single_thread ops) = (
    is_some ops.single_register_access,
    is_some ops.support_reverse_cont,
    is_some ops.support_reverse_step,
  )
  has (BaseOps.multi_thread ops) = (
    is_some ops.single_register_access,
    is_some ops.support_reverse_cont,
    is_some ops.support_reverse_step,
  )

  -- The trait `Hack` and the optional extensions, as `Command::from_packet` asks for them.
  abbrev pub extensions : Extensions
  extensions = record {
    single_register_access = (has t.base_ops).0;
    extended_mode = is_some t.extended_mode;
    monitor_cmd = is_some t.monitor_cmd;
    section_offsets = is_some t.section_offsets;
    reverse_cont = (has t.base_ops).1;
    reverse_step = (has t.base_ops).2;
    memory_map = is_some t.memory_map;
    breakpoints = is_some t.breakpoints;
  }

  abbrev pub parsed : Option (Unit {0}) → Server (Option Packet)
  parsed none v = (done none, v)
  parsed (some _) v = go (from_buf extensions v.pkt_buf.buf)
    where
      go : Result PacketParseError Packet → Outcome (Error c t) (Option Packet) × Serving
      go (ok packet) = (done (some packet), v)
      go (err e) = (fail (GdbStubError.packet_parse e), v)

  unfoldable pub recv_packet : ℕ → Server (Option Packet)
  unfolding read_packet
  recv_packet rounds = do read_done ← read_packet rounds; parsed read_done

  abbrev serve_packet : Packet → Server (Option DisconnectReason)
  serve_packet packet v = go (serve c t packet v.session)
    where
      go :
          Outcome (Error c t) (Option DisconnectReason) × Session c t
          → Outcome (Error c t) (Option DisconnectReason) × Serving
      go (r, s) = (r, record v { session = s })

  -- The loop, for at most so many packets of at most so many bytes.
  unfoldable pub serve_loop : ℕ → ℕ → Server (Option DisconnectReason)
  unfolding recv_packet
  serve_loop zero rounds = pure none
  serve_loop (suc packets) rounds = do
    received ← recv_packet rounds
    elim received [
      | none ↦ pure none
      | some packet ↦ do
        disconnect ← serve_packet packet
        elim disconnect [ some reason ↦ pure (some reason) | none ↦ serve_loop packets rounds ]
    ]

  abbrev started :
      Serving → Result c.ConnError (Unit {0}) × c.Conn → Outcome (Error c t) (Unit {0}) × Serving
  started v (ok _, k) = (done tt, with_conn v k)
  started v (err e, k) = (fail (GdbStubError.connection_read e), with_conn v k)

  unfoldable pub run : ℕ → ℕ → Server (Option DisconnectReason)
  unfolding serve_loop
  run packets rounds = do
    (λ v. started v (c.on_session_start v.session.res.inner))
    serve_loop packets rounds
