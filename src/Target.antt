-- ===== src/Target.antt =====
-- src/target/mod.rs, src/target/ext/ and src/arch.rs: the traits that the user of the stub
-- implements, as records of operations. An operation gives its result and the target that it leaves;
-- an optional extension is an `Option`, which does not change during a session. A callback is passed
-- together with the state that it works on.
use gdbstub.Prelude.{Bytes, Result, ℕ, Bool, Option, List}

-- `io` holds the raw OS error, if there is one, as the 32 bits of its number.
pub data TargetError (E : Type 0) : Type 0 where
  non_fatal : TargetError E
  io : Option ℕ → TargetError E
  errno : ℕ → TargetError E
  fatal : E → TargetError E

pub data ResumeAction : Type 0 where
  continue : ResumeAction
  step : ResumeAction
  continue_with_signal : ℕ → ResumeAction
  step_with_signal : ℕ → ResumeAction

pub data ReplayLogPosition : Type 0 where
  begin : ReplayLogPosition
  end : ReplayLogPosition

pub data WatchKind : Type 0 where
  write : WatchKind
  read : WatchKind
  read_write : WatchKind

-- `ThreadStopReason`; an address is a number of the target's word size.
pub data ThreadStopReason : Type 0 where
  done_step : ThreadStopReason
  gdb_interrupt : ThreadStopReason
  exited : ℕ → ThreadStopReason
  terminated : ℕ → ThreadStopReason
  signal : ℕ → ThreadStopReason
  sw_break : ℕ → ThreadStopReason
  hw_break : ℕ → ThreadStopReason
  watch : ℕ → WatchKind → ℕ → ThreadStopReason
  replay_log : ReplayLogPosition → ThreadStopReason

-- `StopReason`, of a target with one thread.
pub data StopReason : Type 0 where
  done_step : StopReason
  gdb_interrupt : StopReason
  exited : ℕ → StopReason
  terminated : ℕ → StopReason
  signal : ℕ → StopReason
  sw_break : StopReason
  hw_break : StopReason
  watch : WatchKind → ℕ → StopReason
  replay_log : ReplayLogPosition → StopReason

abbrev pub single_thread_tid : ℕ
single_thread_tid = 1

abbrev pub fake_pid : ℕ
fake_pid = 1

-- `From<StopReason>`.
unfoldable pub thread_stop_reason : StopReason → ThreadStopReason
thread_stop_reason StopReason.done_step = ThreadStopReason.done_step
thread_stop_reason StopReason.gdb_interrupt = ThreadStopReason.gdb_interrupt
thread_stop_reason (StopReason.exited code) = ThreadStopReason.exited code
thread_stop_reason (StopReason.terminated sig) = ThreadStopReason.terminated sig
thread_stop_reason (StopReason.signal sig) = ThreadStopReason.signal sig
thread_stop_reason StopReason.sw_break = ThreadStopReason.sw_break single_thread_tid
thread_stop_reason StopReason.hw_break = ThreadStopReason.hw_break single_thread_tid
thread_stop_reason (StopReason.watch kind addr) = ThreadStopReason.watch single_thread_tid kind addr
thread_stop_reason (StopReason.replay_log pos) = ThreadStopReason.replay_log pos

-- `Offsets`.
pub data Offsets : Type 0 where
  sections : ℕ → ℕ → Option ℕ → Offsets
  segments : ℕ → Option ℕ → Offsets

-- The trait `Arch`: `usize_bytes` is the size of its word, and a register block is serialized to
-- bytes, of which the unavailable ones are `none`.
pub record Arch : Type 1 where
  pub Registers : Type 0
  pub RegId : Type 0
  pub BreakpointKind : Type 0
  pub usize_bytes : ℕ
  pub default_registers : Registers
  pub gdb_serialize : Registers → List (Option ℕ)
  pub gdb_deserialize : Bytes → Option Registers
  pub reg_id_from_raw : ℕ → Option (RegId × ℕ)
  pub breakpoint_kind_from_usize : ℕ → Option BreakpointKind
  pub target_description_xml : Option Bytes

-- Operations on a target whose states are `State` and whose fatal errors are `Error`.
module _ (State Error : Type 0) where
  abbrev pub Fallible : Type 0 → Type 0
  Fallible A = State → Result Error A × State

  abbrev pub TargetResult : Type 0 → Type 0
  TargetResult A = State → Result (TargetError Error) A × State

  -- An operation that may poll for an interrupt from the client, any number of times.
  abbrev pub Interruptible : Type 0 → Type 1
  Interruptible A = (S : Type 0) → (S → Bool × S) → State → S → Result Error A × State × S

  -- An operation that hands values to a callback.
  abbrev pub Reporting : Type 0 → Type 1
  Reporting V = (S : Type 0) → (V → S → S) → State → S → Result Error (Unit {0}) × State × S

  pub record BreakpointOps (Addr Kind : Type 0) : Type 0 where
    pub add : Addr → Kind → TargetResult Bool
    pub remove : Addr → Kind → TargetResult Bool

  pub record Breakpoints (Kind : Type 0) : Type 0 where
    pub sw_breakpoint : Option (BreakpointOps ℕ Kind)
    pub hw_breakpoint : Option (BreakpointOps ℕ Kind)
    pub hw_watchpoint : Option (BreakpointOps ℕ WatchKind)

  pub record ConfigureEnv : Type 0 where
    pub set_env : Bytes → Option Bytes → TargetResult (Unit {0})
    pub remove_env : Bytes → TargetResult (Unit {0})
    pub reset_env : TargetResult (Unit {0})

  -- `kill` answers whether to terminate, and `query_if_attached` whether it was attached.
  pub record ExtendedMode : Type 0 where
    pub run : Option Bytes → List Bytes → TargetResult ℕ
    pub attach : ℕ → TargetResult (Unit {0})
    pub query_if_attached : ℕ → TargetResult Bool
    pub kill : Option ℕ → TargetResult Bool
    pub restart : Fallible (Unit {0})
    pub on_start : Fallible (Unit {0})
    pub configure_aslr : Option (Bool → TargetResult (Unit {0}))
    pub configure_env : Option ConfigureEnv
    pub configure_startup_shell : Option (Bool → TargetResult (Unit {0}))
    pub configure_working_dir : Option (Option Bytes → TargetResult (Unit {0}))

  pub record SingleRegisterAccess (RegId : Type 0) : Type 0 where
    pub read_register : RegId → ℕ → TargetResult Bytes
    pub write_register : RegId → Bytes → TargetResult (Unit {0})

  -- The accesses that both kinds of targets have, for the thread that is selected.
  pub record Access (Registers : Type 0) : Type 0 where
    pub read_registers : Registers → TargetResult Registers
    pub write_registers : Registers → TargetResult (Unit {0})
    pub read_addrs : ℕ → ℕ → TargetResult Bytes
    pub write_addrs : ℕ → Bytes → TargetResult (Unit {0})

  pub record SingleThreadOps (Registers RegId : Type 0) : Type 1 where
    pub access : Access Registers
    pub single_register_access : Option (SingleRegisterAccess RegId)
    pub resume : ResumeAction → Interruptible StopReason
    pub support_resume_range_step : Option (ℕ → ℕ → Interruptible StopReason)
    pub support_reverse_step : Option (Interruptible StopReason)
    pub support_reverse_cont : Option (Interruptible StopReason)

  pub record MultiThreadOps (Registers RegId : Type 0) : Type 1 where
    pub access : ℕ → Access Registers
    pub single_register_access : Option (ℕ → SingleRegisterAccess RegId)
    pub resume : ResumeAction → Interruptible ThreadStopReason
    pub clear_resume_actions : Fallible (Unit {0})
    pub set_resume_action : ℕ → ResumeAction → Fallible (Unit {0})
    pub list_active_threads : Reporting ℕ
    pub is_thread_alive : ℕ → Fallible Bool
    pub support_range_step : Option (ℕ → ℕ → ℕ → Fallible (Unit {0}))
    pub support_reverse_step : Option (ℕ → Interruptible ThreadStopReason)
    pub support_reverse_cont : Option (Interruptible ThreadStopReason)

  pub data BaseOps (Registers RegId : Type 0) : Type 1 where
    single_thread : SingleThreadOps Registers RegId → BaseOps Registers RegId
    multi_thread : MultiThreadOps Registers RegId → BaseOps Registers RegId

-- The trait `Target`. `overflow_checks` is the build's setting: whether an addition that overflows
-- panics, or wraps around.
pub record Target : Type 1 where
  pub arch : Arch
  pub State : Type 0
  pub Error : Type 0
  pub overflow_checks : Bool
  pub base_ops : BaseOps State Error arch.Registers arch.RegId
  pub breakpoints : Option (Breakpoints State Error arch.BreakpointKind)
  pub extended_mode : Option (ExtendedMode State Error)
  pub monitor_cmd : Option (Bytes → Reporting State Error Bytes)
  pub section_offsets : Option (Fallible State Error Offsets)
  pub target_description_xml_override : Option Bytes
  pub memory_map : Option Bytes
