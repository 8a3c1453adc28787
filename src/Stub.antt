-- ===== src/Stub.antt =====
-- src/gdbstub_impl/: the state of a session, the errors, and how the calls of the writer and of the
-- target enter into a handler.
pub mod Queries
pub mod Threads
pub mod Access
pub mod Resume
pub mod Stop
pub mod Extensions
pub mod Run
pub mod Receive
pub mod Builder
use gdbstub.Prelude.{
  usize_max, u8_max, all_below, all_below_sound, eq_below, Bool-cases, Option-cases, Bytes, codes,
  equal, equal_iff, ltb, leb, ◌==◌, if◌then◌else◌, length, get_elem?, set, take, drop, replicate,
  length-append, length-drop, take-length-append, drop-length-append, get_elem?-append_here,
  set-append_here, All, All-append, IsByte, Result, ok, err, to_option, ok_or, map_err, ℕ, zero,
  suc, ◌+◌, ◌-◌, ◌*◌, ◌/◌, ◌%◌, ◌^◌, ◌≤◌, ◌<◌, min, bit_or, bit_and, bit_xor, ◌≡◌, refl, sym, ap,
  ◌∙◌, ◌≢◌, ◌↔◌, ◌⊎◌, inl, inr, Bool, true, false, not, ◌&&◌, ◌||◌, Option, none, some, List, [],
  ◌∷◌, ◌++◌, map, append-nil, append_assoc, arith,
}
use gdbstub.Prelude.Exec.{Outcome, done, fail, panic, Exec, pure, raise, abort}
use gdbstub.Connection.{Connection}
use gdbstub.ThreadId.{SpecificIdKind}
use gdbstub.Packet.{PacketParseError}
use gdbstub.ResponseWriter
use gdbstub.ResponseWriter.{ResponseWriter, Writer, write_bytes}
use gdbstub.Target.{
  Target, TargetError, non_fatal, io, errno, fatal, Fallible, TargetResult, single_thread_tid,
}

-- error.rs
pub data GdbStubError (T C : Type 0) : Type 0 where
  connection_read : C → GdbStubError T C
  connection_write : C → GdbStubError T C
  client_sent_nack : GdbStubError T C
  packet_buffer_overflow : GdbStubError T C
  packet_parse : PacketParseError → GdbStubError T C
  packet_unexpected : GdbStubError T C
  target_mismatch : GdbStubError T C
  target_error : T → GdbStubError T C
  unsupported_stop_reason : GdbStubError T C
  no_active_threads : GdbStubError T C
  non_fatal_error : ℕ → GdbStubError T C

pub data DisconnectReason : Type 0 where
  target_exited : ℕ → DisconnectReason
  target_terminated : ℕ → DisconnectReason
  disconnect : DisconnectReason
  kill : DisconnectReason

pub data HandlerStatus : Type 0 where
  handled : HandlerStatus
  needs_ok : HandlerStatus
  disconnect : DisconnectReason → HandlerStatus

-- target_result_ext.rs: the code of a recoverable error, or the fatal one.
unfoldable pub handle_error :
    {T C V : Type 0} → Result (TargetError T) V → Result (GdbStubError T C) V
handle_error (ok v) = ok v
handle_error (err (fatal e)) = err (GdbStubError.target_error e)
handle_error (err non_fatal) = err (GdbStubError.non_fatal_error 121)
handle_error (err (errno code)) = err (GdbStubError.non_fatal_error code)
handle_error (err (io none)) = err (GdbStubError.non_fatal_error 121)
handle_error (err (io (some code))) = err (GdbStubError.non_fatal_error (code % 2 ^ 8))

module _ (c : Connection) (t : Target) where
  -- `GdbStubImpl`, the writer of the current reply, which owns the connection, and the target.
  pub record Session : Type 0 where
    pub res : ResponseWriter c.Conn
    pub target : t.State
    pub current_mem_tid : ℕ
    pub current_resume_tid : SpecificIdKind
    pub no_ack_mode : Bool

  abbrev pub Error : Type 0
  Error = GdbStubError t.Error c.ConnError

  abbrev pub Handler : Type 0 → Type 0
  Handler A = Exec Session Error A

  -- `GdbStubImpl::new`, with the connection and the target.
  unfoldable pub new : c.Conn → t.State → Session
  new conn target = record {
    res = ResponseWriter.new conn;
    target = target;
    current_mem_tid = single_thread_tid;
    current_resume_tid = SpecificIdKind.with_id single_thread_tid;
    no_ack_mode = false;
  }

  abbrev pub wrote :
      {A : Type 0}
      → Session
      → Outcome c.ConnError A × ResponseWriter c.Conn
      → Outcome Error A × Session
  wrote s (done a, w) = (done a, record s { res = w })
  wrote s (fail e, w) = (fail (GdbStubError.connection_write e), record s { res = w })
  wrote s (panic, w) = (panic, record s { res = w })

  -- A call of the writer; its error is `ConnectionWrite`.
  abbrev pub put : {A : Type 0} → Writer c A → Handler A
  put m s = wrote s (m s.res)

  -- `res.write_str`.
  abbrev pub write_str : Bytes → Handler (Unit {0})
  write_str text = put (write_bytes c text)

  -- A result as the outcome of a handler.
  abbrev pub settle : {A : Type 0} → Result Error A → Handler A
  settle (ok a) = pure a
  settle (err e) = raise e

  abbrev pub answered :
      {A : Type 0} → Session → Result (TargetError t.Error) A × t.State → Outcome Error A × Session
  answered s (r, target) = settle (handle_error r) (record s { target = target })

  -- A call of the target, with `.handle_error()?`.
  abbrev pub ask : {A : Type 0} → TargetResult t.State t.Error A → Handler A
  ask op s = answered s (op s.target)

  abbrev must : {A : Type 0} → Result t.Error A → Result Error A
  must (ok a) = ok a
  must (err e) = err (GdbStubError.target_error e)

  abbrev insisted : {A : Type 0} → Session → Result t.Error A × t.State → Outcome Error A × Session
  insisted s (r, target) = settle (must r) (record s { target = target })

  -- A call of the target, with `.map_err(Error::TargetError)?`.
  abbrev pub insist : {A : Type 0} → Fallible t.State t.Error A → Handler A
  insist op s = insisted s (op s.target)

  -- `ok_or(..)?`.
  abbrev pub expect : {A : Type 0} → Option A → Error → Handler A
  expect none e = raise e
  expect (some a) e = pure a

  abbrev pub get : Handler Session
  get s = (done s, s)

  abbrev pub modify : (Session → Session) → Handler (Unit {0})
  modify f s = (done tt, f s)

  -- An addition of integers below `bound`.
  unfoldable pub add : ℕ → ℕ → ℕ → Handler ℕ
  add bound a b =
      if ltb (a + b) bound
      then pure (a + b)
      else if t.overflow_checks
      then abort
      else pure ((a + b) % bound)
