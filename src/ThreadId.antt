-- ===== src/ThreadId.antt =====
-- src/protocol/common/thread_id.rs and src/common.rs: thread ids and their parsers.
pub mod RoundTrip
use gdbstub.Prelude.Slices.{split, nth}
use gdbstub.Hex.{decode_hex}
use gdbstub.Prelude.{
  usize_max, u8_max, all_below, all_below_sound, eq_below, Bool-cases, Option-cases, Bytes, codes,
  equal, equal_iff, ltb, leb, ◌==◌, if◌then◌else◌, length, get_elem?, set, take, drop, replicate,
  length-append, length-drop, take-length-append, drop-length-append, get_elem?-append_here,
  set-append_here, All, All-append, IsByte, Result, ok, err, to_option, ok_or, map_err, ℕ, zero,
  suc, ◌+◌, ◌-◌, ◌*◌, ◌/◌, ◌%◌, ◌^◌, ◌≤◌, ◌<◌, min, bit_or, bit_and, bit_xor, ◌≡◌, refl, sym, ap,
  ◌∙◌, ◌≢◌, ◌↔◌, ◌⊎◌, inl, inr, Bool, true, false, not, ◌&&◌, ◌||◌, Option, none, some, List, [],
  ◌∷◌, ◌++◌, map, append-nil, append_assoc, arith,
}
use gdbstub.Prelude.OptionDo.{◌>>=◌}

-- `NonZeroUsize::new`; `Tid` and `Pid` are such numbers.
unfoldable pub nonzero : ℕ → Option ℕ
nonzero n = if n == 0 then none else some n

pub data IdKind : Type 0 where
  all : IdKind
  any : IdKind
  with_id : ℕ → IdKind

pub record ThreadId : Type 0 where
  pub pid : Option IdKind
  pub tid : IdKind

-- `IdKind::try_from`.
unfoldable pub parse_id_kind : Bytes → Option IdKind
unfolding nonzero
parse_id_kind s =
    if equal s (codes "-1")
    then some all
    else if equal s (codes "0")
    then some any
    else do n ← to_option (decode_hex usize_max s); id ← nonzero n; some (with_id id)

-- The thread behind the dot; sending only `p<pid>` is valid.
unfoldable pub parse_tid : Option Bytes → Option IdKind
parse_tid none = some all
parse_tid (some s) = parse_id_kind s

parse_pid_tid : List Bytes → Option ThreadId
unfolding parse_tid
parse_pid_tid parts = do
  pid_text ← nth 0 parts
  pid ← parse_id_kind pid_text
  tid ← parse_tid (nth 1 parts)
  some (record { pid = some pid; tid = tid })

parse_bare_tid : Bytes → Option ThreadId
parse_bare_tid s = do tid ← parse_id_kind s; some (record { pid = none; tid = tid })

-- `ThreadId::try_from`.
unfoldable pub parse_thread_id : Bytes → Option ThreadId
unfolding parse_pid_tid parse_bare_tid
parse_thread_id [] = parse_bare_tid []
parse_thread_id (b ∷ s) =
    if b == b'p' then parse_pid_tid (split (λ x. x == b'.') s) else parse_bare_tid (b ∷ s)

pub data SpecificIdKind : Type 0 where
  with_id : ℕ → SpecificIdKind
  all : SpecificIdKind

pub record SpecificThreadId : Type 0 where
  pub pid : Option SpecificIdKind
  pub tid : SpecificIdKind

-- `SpecificIdKind::try_from`.
unfoldable pub specific_id_kind : IdKind → Option SpecificIdKind
specific_id_kind all = some SpecificIdKind.all
specific_id_kind (with_id id) = some (SpecificIdKind.with_id id)
specific_id_kind any = none

specific_pid : Option IdKind → Option (Option SpecificIdKind)
specific_pid none = some none
specific_pid (some kind) = do id ← specific_id_kind kind; some (some id)

-- `SpecificThreadId::try_from`.
unfoldable pub specific_thread_id : ThreadId → Option SpecificThreadId
unfolding specific_pid specific_id_kind
specific_thread_id thread = do
  pid ← specific_pid thread.pid
  tid ← specific_id_kind thread.tid
  some (record { pid = pid; tid = tid })
