-- ===== src/Tests/Blocks.antt =====
-- src/gdbstub_impl/ext/base.rs: `g` on an ARM whose state is its registers.
use gdbstub.Prelude.{ok, ◌≡◌, refl, true, false, none, replicate}
use gdbstub.Prelude.Exec.{◌>>◌, pure}
use gdbstub.Tests.Tape.{tape, blank, tape-IsReliable}
use gdbstub.ResponseWriter.{write_bytes}
use gdbstub.Target
use gdbstub.Target.{Target, BaseOps, StopReason}
use gdbstub.ThreadId.{SpecificIdKind}
use gdbstub.Registers.Arm
use gdbstub.Registers.Arm.{ArmCoreRegs, ArmCoreRegId, armv4t}
use gdbstub.Stub.{Session, handled, put}
use gdbstub.Stub.Access.{access, handle_g}
use gdbstub.Stub.Access.Blocks.{serial_text, handle_g-serial_text}

abbrev arm_ops : Target.SingleThreadOps ArmCoreRegs (Unit {0}) ArmCoreRegs ArmCoreRegId
arm_ops = record {
  access = record {
    read_registers = λ _ s. (ok s, s);
    write_registers = λ regs _. (ok tt, regs);
    read_addrs = λ _ len s. (ok (replicate len 0), s);
    write_addrs = λ _ _ s. (ok tt, s);
  };
  single_register_access = none;
  resume = λ _ S poll target s. (ok StopReason.done_step, target, s);
  support_resume_range_step = none;
  support_reverse_step = none;
  support_reverse_cont = none;
}

abbrev board : Target
board = record {
  arch = armv4t;
  State = ArmCoreRegs;
  Error = Unit {0};
  overflow_checks = true;
  base_ops = BaseOps.single_thread arm_ops;
  breakpoints = none;
  extended_mode = none;
  monitor_cmd = none;
  section_offsets = none;
  target_description_xml_override = none;
  memory_map = none;
}

abbrev regs : ArmCoreRegs
regs = record { r = replicate 13 7; sp = 0x20001000; lr = 0x8000101; pc = 0x8000200; cpsr = 0xd3 }

abbrev halted : Session tape board
halted = record {
  res = record { inner = blank; started = false; checksum = 0; rle_char = 0; rle_repeat = 0 };
  target = regs;
  current_mem_tid = 1;
  current_resume_tid = SpecificIdKind.with_id 1;
  no_ack_mode = false;
}

reads :
    (access tape board 1 board.base_ops).read_registers armv4t.default_registers regs
    ≡ (ok regs, regs)
unfolding access
reads = refl

handle_g-serial_text_example :
    handle_g tape board halted
    ≡ (do put tape board (write_bytes tape (serial_text (Arm.gdb_serialize regs))); pure handled)
        halted
handle_g-serial_text_example =
    handle_g-serial_text tape tape-IsReliable board regs regs halted reads
