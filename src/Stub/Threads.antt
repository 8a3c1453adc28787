-- ===== src/Stub/Threads.antt =====
-- src/gdbstub_impl/ext/base.rs: the packets that list, select and probe threads.
pub mod Listed
use gdbstub.Prelude.{
  usize_max, u8_max, all_below, all_below_sound, eq_below, Bool-cases, Option-cases, Bytes, codes,
  equal, equal_iff, ltb, leb, ◌==◌, if◌then◌else◌, length, get_elem?, set, take, drop, replicate,
  length-append, length-drop, take-length-append, drop-length-append, get_elem?-append_here,
  set-append_here, All, All-append, IsByte, Result, ok, err, to_option, ok_or, map_err, ℕ, zero,
  suc, ◌+◌, ◌-◌, ◌*◌, ◌/◌, ◌%◌, ◌^◌, ◌≤◌, ◌<◌, min, bit_or, bit_and, bit_xor, ◌≡◌, refl, sym, ap,
  ◌∙◌, ◌≢◌, ◌↔◌, ◌⊎◌, inl, inr, Bool, true, false, not, ◌&&◌, ◌||◌, Option, none, some, List, [],
  ◌∷◌, ◌++◌, map, append-nil, append_assoc, arith,
}
use gdbstub.Prelude.Exec.{◌>>=◌, ◌>>◌, done, fail, panic, Outcome, pure, raise}
use gdbstub.Connection.{Connection}
use gdbstub.ThreadId.{IdKind, SpecificIdKind, ThreadId}
use gdbstub.ResponseWriter.{ResponseWriter, Writer, write_bytes}
use gdbstub.ResponseWriter.Ids.{write_specific_thread_id}
use gdbstub.Target
use gdbstub.Target.{Target, BaseOps, single_thread_tid}
use gdbstub.Commands.Types.{Op}
use gdbstub.Stub.{
  Session, GdbStubError, Handler, HandlerStatus, handled, needs_ok, put, write_str, insist, expect,
  modify, Error,
}
use gdbstub.Stub.Queries.{thread_of}

-- `matches` of the callback in `get_sane_any_tid`.
abbrev keep_first : ℕ → Option ℕ → Option ℕ
keep_first tid none = some tid
keep_first tid (some first) = some first

module _ (c : Connection) (t : Target) where
  -- Results of a listing: of the target, and what the callback has gathered.
  abbrev pub listed :
      {S : Type 0}
      → Session c t
      → Result t.Error (Unit {0}) × t.State × S
      → Outcome (Error c t) S × Session c t
  listed s (ok _, target, gathered) = (done gathered, record s { target = target })
  listed s (err e, target, gathered) =
      (fail (GdbStubError.target_error e), record s { target = target })

  any_tid : BaseOps t.State t.Error t.arch.Registers t.arch.RegId → Handler c t ℕ
  any_tid (BaseOps.single_thread ops) = pure single_thread_tid
  any_tid (BaseOps.multi_thread ops) = do
    first ← λ s. listed s (ops.list_active_threads (Option ℕ) keep_first s.target none)
    expect c t first GdbStubError.no_active_threads

  unfoldable pub get_sane_any_tid : Handler c t ℕ
  unfolding any_tid
  get_sane_any_tid = any_tid t.base_ops

  select : Op → IdKind → Handler c t (Unit {0})
  unfolding get_sane_any_tid
  select Op.other IdKind.any = do
    tid ← get_sane_any_tid
    modify c t (λ s. record s { current_mem_tid = tid })
  select Op.other IdKind.all = raise GdbStubError.packet_unexpected
  select Op.other (IdKind.with_id tid) = modify c t (λ s. record s { current_mem_tid = tid })
  select Op.step_continue IdKind.any = do
    tid ← get_sane_any_tid
    modify c t (λ s. record s { current_resume_tid = SpecificIdKind.with_id tid })
  select Op.step_continue IdKind.all =
      modify c t (λ s. record s { current_resume_tid = SpecificIdKind.all })
  select Op.step_continue (IdKind.with_id tid) =
      modify c t (λ s. record s { current_resume_tid = SpecificIdKind.with_id tid })

  -- `H`.
  unfoldable pub handle_h_upcase : Op → ThreadId → Handler c t HandlerStatus
  unfolding select
  handle_h_upcase kind thread = do select kind thread.tid; pure needs_ok

  -- What the callback of `qfThreadInfo` works on.
  pub record Listing : Type 0 where
    pub res : ResponseWriter c.Conn
    pub first : Bool
    pub outcome : Outcome c.ConnError (Unit {0})

  abbrev pub entry : Bool → ℕ → Writer c (Unit {0})
  entry true tid = write_specific_thread_id c (thread_of tid)
  entry false tid = do write_bytes c (codes ","); write_specific_thread_id c (thread_of tid)

  abbrev pub noted : Listing → Outcome c.ConnError (Unit {0}) × ResponseWriter c.Conn → Listing
  noted l (done _, w) = record l { res = w; first = false }
  noted l (fail e, w) = record { res = w; first = false; outcome = fail e }
  noted l (panic, w) = record { res = w; first = false; outcome = panic }

  -- The callback; nothing runs behind a panic.
  abbrev pub list_thread : ℕ → Listing → Listing
  list_thread tid l = go l.outcome
    where
      go : Outcome c.ConnError (Unit {0}) → Listing
      go panic = l
      go _ = noted l (entry l.first tid l.res)

  abbrev pub list_done :
      Session c t
      → Result t.Error (Unit {0}) × t.State × Listing
      → Outcome (Error c t) Listing × Session c t
  list_done s (r, target, l) = listed (record s { res = l.res }) (r, target, l)

  abbrev pub list_all : Target.Reporting t.State t.Error ℕ → Handler c t Listing
  list_all list s =
      list_done s (
        list Listing list_thread s.target (record { res = s.res; first = true; outcome = done tt }))

  unfoldable pub thread_list :
      BaseOps t.State t.Error t.arch.Registers t.arch.RegId → Handler c t (Unit {0})
  thread_list (BaseOps.single_thread ops) =
      put c t (write_specific_thread_id c (thread_of single_thread_tid))
  thread_list (BaseOps.multi_thread ops) = do
    listing ← list_all ops.list_active_threads
    put c t (λ w. (listing.outcome, w))

  -- `qfThreadInfo`.
  unfoldable pub handle_qf_thread_info : Handler c t HandlerStatus
  unfolding thread_list
  handle_qf_thread_info = do write_str c t (codes "m"); thread_list t.base_ops; pure handled

  alive : BaseOps t.State t.Error t.arch.Registers t.arch.RegId → IdKind → Handler c t Bool
  alive (BaseOps.single_thread ops) (IdKind.with_id tid) = pure (tid == single_thread_tid)
  alive (BaseOps.multi_thread ops) (IdKind.with_id tid) = insist c t (ops.is_thread_alive tid)
  alive ops IdKind.all = raise GdbStubError.packet_unexpected
  alive ops IdKind.any = raise GdbStubError.packet_unexpected

  -- `T`.
  unfoldable pub handle_t_upcase : ThreadId → Handler c t HandlerStatus
  unfolding alive
  handle_t_upcase thread = do
    is_alive ← alive t.base_ops thread.tid
    if is_alive then pure needs_ok else raise (GdbStubError.non_fatal_error 1)
