-- ===== src/Commands/Types.antt =====
-- src/protocol/commands.rs and src/protocol/commands/*.rs: the types of the commands, one data
-- type for each extension, as the macro `commands!` declares them.
use gdbstub.Prelude.{Bytes, ℕ, Bool, Option}
use gdbstub.ThreadId.{ThreadId, SpecificThreadId}

-- _vCont.rs
pub data VContKind : Type 0 where
  continue : VContKind
  continue_with_sig : ℕ → VContKind
  range_step : Bytes → Bytes → VContKind
  step : VContKind
  step_with_sig : ℕ → VContKind
  stop : VContKind

pub record VContAction : Type 0 where
  pub kind : VContKind
  pub thread : Option SpecificThreadId

pub data Actions : Type 0 where
  actions_buf : Bytes → Actions
  fixed_step : SpecificThreadId → Actions
  fixed_cont : SpecificThreadId → Actions

pub data VCont : Type 0 where
  query : VCont
  actions : Actions → VCont

-- _h_upcase.rs
pub data Op : Type 0 where
  step_continue : Op
  other : Op

-- The packets without an extension, named after their modules. `m` keeps the number of buffer
-- bytes behind the decoded address, which it lends to the target; what they hold is overwritten.
pub data Base : Type 0 where
  question_mark : Base
  c : Option Bytes → Base
  d_upcase : Option ℕ → Base
  g : Base
  g_upcase : Bytes → Base
  h_upcase : Op → ThreadId → Base
  k : Base
  m : Bytes → ℕ → ℕ → Base
  m_upcase : Bytes → ℕ → Bytes → Base
  q_attached : Option ℕ → Base
  qf_thread_info : Base
  q_start_no_ack_mode : Base
  qs_thread_info : Base
  q_supported : ℕ → Bytes → Base
  q_xfer_features_read : ℕ → ℕ → Base
  s : Option Bytes → Base
  t_upcase : ThreadId → Base
  v_cont : VCont → Base
  v_kill : ℕ → Base

pub data SingleRegisterAccess : Type 0 where
  p : ℕ → SingleRegisterAccess
  p_upcase : ℕ → Bytes → SingleRegisterAccess

pub data ExtendedMode : Type 0 where
  exclamation_mark : ExtendedMode
  q_disable_randomization : Bool → ExtendedMode
  q_environment_hex_encoded : Bytes → Option Bytes → ExtendedMode
  q_environment_reset : ExtendedMode
  q_environment_unset : Bytes → ExtendedMode
  q_set_working_dir : Option Bytes → ExtendedMode
  q_startup_with_shell : Bool → ExtendedMode
  r_upcase : ExtendedMode
  v_attach : ℕ → ExtendedMode
  v_run : Option Bytes → Bytes → ExtendedMode

pub data MonitorCmd : Type 0 where
  q_rcmd : Bytes → MonitorCmd

pub data SectionOffsets : Type 0 where
  q_offsets : SectionOffsets

pub data ReverseCont : Type 0 where
  bc : ReverseCont

pub data ReverseStep : Type 0 where
  bs : ReverseStep

pub data MemoryMap : Type 0 where
  q_xfer_memory_map_read : ℕ → ℕ → MemoryMap

-- breakpoint.rs
pub record BasicBreakpoint : Type 0 where
  pub type_ : ℕ
  pub addr : Bytes
  pub kind : ℕ

pub data Breakpoints : Type 0 where
  z : BasicBreakpoint → Breakpoints
  z_upcase : BasicBreakpoint → Breakpoints

pub data Command : Type 0 where
  base : Base → Command
  single_register_access : SingleRegisterAccess → Command
  extended_mode : ExtendedMode → Command
  monitor_cmd : MonitorCmd → Command
  section_offsets : SectionOffsets → Command
  reverse_cont : ReverseCont → Command
  reverse_step : ReverseStep → Command
  memory_map : MemoryMap → Command
  breakpoints : Breakpoints → Command
  unknown : Bytes → Command
