-- ===== src/Registers/Safety/Iterators.antt =====
-- gdbstub_arch/src/: `gdb_deserialize` of each architecture on arbitrary bytes.
use gdbstub.Prelude.{Bytes, length, ltb, ◌==◌, ℕ, ◌+◌, ◌*◌, ◌%◌, ◌≤◌, Bool-cases, inl, inr, arith}
use gdbstub.LeBytes.Value.{le_value}
use gdbstub.Registers.{chunks_exact}
use gdbstub.Registers.Reader.{next}
use gdbstub.Registers.Safety.{
  NoPanic, Safe, bind-Safe, pure-Safe, give_up-Safe, next-Safe, next_n-Safe, at_end-Safe,
  read-NoPanic, bind-NoPanic, words_by-IsSome, checked_words-IsSome, slice-NoPanic, if-NoPanic,
  unless-NoPanic,
}
use gdbstub.Registers.Arm
use gdbstub.Registers.Riscv
use gdbstub.Registers.Msp430
use gdbstub.Registers.Mips
use gdbstub.Registers.Mips.Dsp

arm_regs-Safe : Safe Arm.arm_regs
unfolding Arm.arm_regs
arm_regs-Safe = bind-Safe (next_n-Safe 13) λ r. bind-Safe next-Safe λ sp. bind-Safe next-Safe λ lr.
    bind-Safe next-Safe λ pc.
      bind-Safe (next_n-Safe 25)
        λ floating. bind-Safe next-Safe λ cpsr. bind-Safe at_end-Safe λ ended. pure-Safe _

pub arm-NoPanic : (bytes : Bytes) → NoPanic (Arm.gdb_deserialize bytes)
unfolding Arm.gdb_deserialize
arm-NoPanic bytes =
    unless-NoPanic (length bytes % 4 == 0) _
      (read-NoPanic Arm.arm_regs _ arm_regs-Safe (words_by-IsSome le_value (chunks_exact 4 bytes)))

riscv_regs-Safe : Safe Riscv.riscv_regs
unfolding Riscv.riscv_regs
riscv_regs-Safe =
    bind-Safe (next_n-Safe 32)
      λ x. bind-Safe next-Safe λ pc. bind-Safe at_end-Safe λ ended. pure-Safe _

pub riscv-NoPanic : (size : ℕ) (bytes : Bytes) → NoPanic (Riscv.gdb_deserialize size bytes)
unfolding Riscv.gdb_deserialize
riscv-NoPanic size bytes =
    unless-NoPanic (length bytes % size == 0) _
      (read-NoPanic Riscv.riscv_regs _ riscv_regs-Safe (checked_words-IsSome size bytes))

msp430_regs-Safe : Safe Msp430.msp430_regs
unfolding Msp430.msp430_regs
msp430_regs-Safe = bind-Safe next-Safe λ pc. bind-Safe next-Safe λ sp. bind-Safe next-Safe λ sr.
    bind-Safe next-Safe λ cg. elim (Bool-cases (cg == 0)) [
      | inl zero_cg ↦
          rw zero_cg (bind-Safe (next_n-Safe 11) λ r. bind-Safe at_end-Safe λ ended. pure-Safe _)
      | inr other ↦ rw other give_up-Safe
    ]

pub msp430-NoPanic : (bytes : Bytes) → NoPanic (Msp430.gdb_deserialize bytes)
unfolding Msp430.gdb_deserialize
msp430-NoPanic bytes = unless-NoPanic (length bytes % 2 == 0) _ (
    read-NoPanic Msp430.msp430_regs _ msp430_regs-Safe
      (words_by-IsSome le_value (chunks_exact 2 bytes)))

mips_regs-Safe : Safe Mips.mips_regs
unfolding Mips.mips_regs
mips_regs-Safe = bind-Safe (next_n-Safe 32) λ r. bind-Safe next-Safe λ status.
    bind-Safe next-Safe λ lo. bind-Safe next-Safe λ hi. bind-Safe next-Safe λ badvaddr.
      bind-Safe next-Safe λ cause. bind-Safe next-Safe λ pc.
        bind-Safe (next_n-Safe 32)
          λ fpr. bind-Safe next-Safe λ fcsr. bind-Safe next-Safe λ fir. pure-Safe _

pub mips-NoPanic : (size : ℕ) (bytes : Bytes) → NoPanic (Mips.gdb_deserialize size bytes)
unfolding Mips.gdb_deserialize
mips-NoPanic size bytes =
    if-NoPanic (ltb (length bytes) (size * 72)) _
      λ enough. read-NoPanic Mips.mips_regs _ mips_regs-Safe (checked_words-IsSome size bytes)

accumulator_regs-Safe : Safe Mips.accumulator_regs
unfolding Mips.accumulator_regs
accumulator_regs-Safe = bind-Safe next-Safe λ hi1. bind-Safe next-Safe λ lo1.
    bind-Safe next-Safe λ hi2.
      bind-Safe next-Safe λ lo2. bind-Safe next-Safe λ hi3. bind-Safe next-Safe λ lo3. pure-Safe _

read_dsp-NoPanic :
    (size : ℕ) (bytes : Bytes) → size * 79 + 4 ≤ length bytes → NoPanic (Dsp.read_dsp size bytes)
unfolding Dsp.read_dsp
read_dsp-NoPanic size bytes h =
    bind-NoPanic _ _ (slice-NoPanic (size * 72) (size * 78) bytes (omega arith) (omega arith))
      λ before.
        bind-NoPanic _ _
          (read-NoPanic Mips.accumulator_regs _ accumulator_regs-Safe
            (checked_words-IsSome size before))
          λ dsp.
            bind-NoPanic _ _
              (slice-NoPanic (size * 78) (size * 78 + 4) bytes (omega arith) (omega arith))
              λ dspctl.
                bind-NoPanic _ _
                  (slice-NoPanic (size * 78 + 4) (length bytes) bytes (omega arith) (omega arith))
                  λ behind.
                    bind-NoPanic _ _
                      (read-NoPanic next _ next-Safe (checked_words-IsSome size behind))
                      λ restart. tt

pub mips_dsp-NoPanic : (size : ℕ) (bytes : Bytes) → NoPanic (Dsp.dsp_gdb_deserialize size bytes)
unfolding Dsp.dsp_gdb_deserialize
mips_dsp-NoPanic size bytes = bind-NoPanic _ _ (mips-NoPanic size bytes) λ core.
    bind-NoPanic _ _
      (if-NoPanic (ltb (length bytes) (size * 79 + 4)) _
        λ enough. read_dsp-NoPanic size bytes (ground arith))
      λ dsp. tt
