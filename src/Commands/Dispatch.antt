-- ===== src/Commands/Dispatch.antt =====
-- src/protocol/commands.rs: the macro `commands!` and `Command::from_packet`, which tries the names
-- of the enabled extensions in their order.
pub mod PrefixFree
use gdbstub.Commands.Breakpoint.{parse_basic_breakpoint}
use gdbstub.Commands.Extended.{
  parse_v_run, parse_r_upcase, parse_q_set_working_dir, parse_q_environment_unset,
  parse_q_environment_hex_encoded, parse_flag, parse_q_rcmd,
}
use gdbstub.Commands.Base.{
  parse_q_supported, parse_m_upcase, parse_m, parse_req_pid, parse_h_upcase, parse_opt_pid,
  parse_p_upcase, parse_xfer, parse_resume_addr, parse_p, parse_bare,
}
use gdbstub.Hex.{decode_hex_buf, decoded_buf}
use gdbstub.ThreadId.{parse_thread_id}
use gdbstub.Prelude.{
  usize_max, u8_max, all_below, all_below_sound, eq_below, Bool-cases, Option-cases, Bytes, codes,
  equal, equal_iff, ltb, leb, ◌==◌, if◌then◌else◌, length, get_elem?, set, take, drop, replicate,
  length-append, length-drop, take-length-append, drop-length-append, get_elem?-append_here,
  set-append_here, All, All-append, IsByte, Result, ok, err, to_option, ok_or, map_err, ℕ, zero,
  suc, ◌+◌, ◌-◌, ◌*◌, ◌/◌, ◌%◌, ◌^◌, ◌≤◌, ◌<◌, min, bit_or, bit_and, bit_xor, ◌≡◌, refl, sym, ap,
  ◌∙◌, ◌≢◌, ◌↔◌, ◌⊎◌, inl, inr, Bool, true, false, not, ◌&&◌, ◌||◌, Option, none, some, List, [],
  ◌∷◌, ◌++◌, map, append-nil, append_assoc, arith,
}
use mathlib.Core.Option
use gdbstub.Packet.{into_body, strip_prefix, PacketBuf}
use gdbstub.Commands.VCont.{parse_v_cont}
use gdbstub.Commands.Types.{
  Command, Base, SingleRegisterAccess, ExtendedMode, MonitorCmd, SectionOffsets, ReverseCont,
  ReverseStep, MemoryMap, Breakpoints,
}

-- Which extensions the target has, `target.$ext().is_some()`; `base` is always there.
pub record Extensions : Type 0 where
  pub single_register_access : Bool
  pub extended_mode : Bool
  pub monitor_cmd : Bool
  pub section_offsets : Bool
  pub reverse_cont : Bool
  pub reverse_step : Bool
  pub memory_map : Bool
  pub breakpoints : Bool

pub record Entry : Type 0 where
  pub name : Bytes
  pub parse : PacketBuf → Option Command

-- A parser that reads the body alone.
abbrev on_body : {A : Type 0} → (A → Command) → (Bytes → Option A) → PacketBuf → Option Command
on_body wrap parse p = Option.map wrap (parse (into_body p))

abbrev xfer : (ℕ → ℕ → Command) → ℕ × ℕ → Command
xfer cmd (offset, len) = cmd offset len

abbrev entry : Bytes → (PacketBuf → Option Command) → Entry
entry name parse = record { name = name; parse = parse }

-- The lists of `commands!`, in their order.
abbrev base_entries : List Entry
base_entries =
    entry (codes "?") (on_body Command.base (parse_bare Base.question_mark))
    ∷ entry (codes "c") (on_body (λ a. Command.base (Base.c a)) parse_resume_addr)
    ∷ entry (codes "D") (on_body (λ a. Command.base (Base.d_upcase a)) (parse_opt_pid b';'))
    ∷ entry (codes "g") (on_body Command.base (parse_bare Base.g))
    ∷ entry (codes "G")
        (on_body (λ a. Command.base (Base.g_upcase a)) (λ b. decoded_buf (decode_hex_buf b)))
    ∷ entry (codes "H") (on_body Command.base parse_h_upcase)
    ∷ entry (codes "k") (on_body Command.base (parse_bare Base.k))
    ∷ entry (codes "m") (λ p. Option.map Command.base (parse_m p))
    ∷ entry (codes "M") (on_body Command.base parse_m_upcase)
    ∷ entry (codes "qAttached")
        (on_body (λ a. Command.base (Base.q_attached a)) (parse_opt_pid b':'))
    ∷ entry (codes "qfThreadInfo") (on_body Command.base (parse_bare Base.qf_thread_info))
    ∷ entry (codes "QStartNoAckMode") (on_body Command.base (parse_bare Base.q_start_no_ack_mode))
    ∷ entry (codes "qsThreadInfo") (on_body Command.base (parse_bare Base.qs_thread_info))
    ∷ entry (codes "qSupported") (λ p. Option.map Command.base (parse_q_supported p))
    ∷ entry (codes "qXfer:features:read") (
        on_body (xfer (λ o l. Command.base (Base.q_xfer_features_read o l)))
          (parse_xfer (codes "target.xml")))
    ∷ entry (codes "s") (on_body (λ a. Command.base (Base.s a)) parse_resume_addr)
    ∷ entry (codes "T") (on_body (λ a. Command.base (Base.t_upcase a)) parse_thread_id)
    ∷ entry (codes "vCont") (on_body (λ a. Command.base (Base.v_cont a)) parse_v_cont)
    ∷ entry (codes "vKill") (on_body (λ a. Command.base (Base.v_kill a)) parse_req_pid)
    ∷ []

abbrev single_register_access_entries : List Entry
single_register_access_entries =
    entry (codes "p") (on_body Command.single_register_access parse_p)
    ∷ entry (codes "P") (on_body Command.single_register_access parse_p_upcase)
    ∷ []

abbrev extended_mode_entries : List Entry
extended_mode_entries =
    entry (codes "!") (on_body Command.extended_mode (parse_bare ExtendedMode.exclamation_mark))
    ∷ entry (codes "QDisableRandomization")
        (on_body (λ a. Command.extended_mode (ExtendedMode.q_disable_randomization a)) parse_flag)
    ∷ entry (codes "QEnvironmentHexEncoded")
        (on_body Command.extended_mode parse_q_environment_hex_encoded)
    ∷ entry (codes "QEnvironmentReset")
        (on_body Command.extended_mode (parse_bare ExtendedMode.q_environment_reset))
    ∷ entry (codes "QEnvironmentUnset") (on_body Command.extended_mode parse_q_environment_unset)
    ∷ entry (codes "QSetWorkingDir") (on_body Command.extended_mode parse_q_set_working_dir)
    ∷ entry (codes "QStartupWithShell")
        (on_body (λ a. Command.extended_mode (ExtendedMode.q_startup_with_shell a)) parse_flag)
    ∷ entry (codes "R") (on_body Command.extended_mode parse_r_upcase)
    ∷ entry (codes "vAttach")
        (on_body (λ a. Command.extended_mode (ExtendedMode.v_attach a)) parse_req_pid)
    ∷ entry (codes "vRun") (on_body Command.extended_mode parse_v_run)
    ∷ []

abbrev pub groups : Extensions → List (Bool × List Entry)
groups ext =
    (true, base_entries)
    ∷ (ext.single_register_access, single_register_access_entries)
    ∷ (ext.extended_mode, extended_mode_entries)
    ∷ (ext.monitor_cmd, entry (codes "qRcmd") (on_body Command.monitor_cmd parse_q_rcmd) ∷ [])
    ∷ (
      ext.section_offsets,
      entry (codes "qOffsets")
            (on_body Command.section_offsets (parse_bare SectionOffsets.q_offsets))
          ∷ [],
    )
    ∷ (
      ext.reverse_cont,
      entry (codes "bc") (on_body Command.reverse_cont (parse_bare ReverseCont.bc)) ∷ [],
    )
    ∷ (
      ext.reverse_step,
      entry (codes "bs") (on_body Command.reverse_step (parse_bare ReverseStep.bs)) ∷ [],
    )
    ∷ (
      ext.memory_map,
      entry (codes "qXfer:memory-map:read") (
            on_body (xfer (λ o l. Command.memory_map (MemoryMap.q_xfer_memory_map_read o l)))
              (parse_xfer []))
          ∷ [],
    )
    ∷ []

-- The `if`s of one extension; `none` goes on to the next.
unfoldable pub try_entries : List Entry → PacketBuf → Option (Option Command)
unfolding strip_prefix
try_entries [] p = none
try_entries (e ∷ es) p =
    let (hit, stripped) = strip_prefix e.name p in
    let rest = try_entries es p in if hit then some (e.parse stripped) else rest

-- An early return, or what comes after it.
abbrev pub or_else : Option (Option Command) → Option (Option Command) → Option (Option Command)
or_else none b = b
or_else (some a) b = some a

unfoldable pub try_groups : List (Bool × List Entry) → PacketBuf → Option (Option Command)
unfolding try_entries
try_groups [] p = none
try_groups ((enabled, es) ∷ gs) p =
    let rest = try_groups gs p in if enabled then or_else (try_entries es p) rest else rest

abbrev pub or_unknown : PacketBuf → Option (Option Command) → Option Command
or_unknown p none = some (Command.unknown (into_body p))
or_unknown p (some r) = r

-- `z` and `Z`; the bytecode form of `Z` is behind a constant condition and never chosen.
abbrev pub breakpoint_entries : List Entry
breakpoint_entries =
    entry (codes "z") (on_body (λ b. Command.breakpoints (Breakpoints.z b)) parse_basic_breakpoint)
    ∷ entry (codes "Z")
        (on_body (λ b. Command.breakpoints (Breakpoints.z_upcase b)) parse_basic_breakpoint)
    ∷ []

unfoldable pub from_packet : Extensions → PacketBuf → Option Command
unfolding try_groups
from_packet ext p =
    let breakpoints = if ext.breakpoints then try_entries breakpoint_entries p else none in
    or_unknown p (or_else (try_groups (groups ext) p) breakpoints)
