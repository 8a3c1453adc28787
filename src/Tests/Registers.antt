-- ===== src/Tests/Registers.antt =====
-- gdbstub_arch/src/, src/internal/le_bytes.rs: the register blocks at concrete contents.
mod Wide
use gdbstub.Prelude.{
  Bytes, All, codes, ◌≡◌, refl, Option, none, some, List, [], ◌∷◌, arith, replicate, ℕ, zero, suc,
  ◌≤◌, ◌<◌,
}
use gdbstub.LeBytes.{from_le_bytes, shift_back}
use gdbstub.LeBytes.Decoding.{from_le_bytes-shifted}
use gdbstub.Registers.{filled, parsed, failed, Serial, le_flat}
use gdbstub.Registers.Codec.{Fits}
use gdbstub.Registers.Arm
use gdbstub.Registers.Arm.{ArmCoreRegs, ArmCoreRegId}
use gdbstub.Registers.Arm.RoundTrip.{arm_gdb_deserialize-gdb_serialize}
use gdbstub.Registers.Riscv
use gdbstub.Registers.Riscv.{RiscvCoreRegs}
use gdbstub.Registers.Riscv.RoundTrip.{riscv_gdb_deserialize-gdb_serialize}
use gdbstub.Registers.Msp430
use gdbstub.Registers.Msp430.{Msp430Regs}
use gdbstub.Registers.Msp430.Rejected.{msp430_gdb_deserialize-gdb_serialize}
use gdbstub.Registers.Mips
use gdbstub.Registers.Mips.{MipsCoreRegs, MipsDspRegs}
use gdbstub.Registers.Mips.Ids
use gdbstub.Registers.Mips.Dsp
use gdbstub.Registers.Mips.Dsp.{MipsCoreRegsWithDsp, dsp_gdb_serialize}
use gdbstub.Registers.Mips.Dsp.RoundTrip.{mips_dsp_gdb_deserialize-gdb_serialize}
use gdbstub.Registers.Ppc
use gdbstub.Registers.X86.Core32
use gdbstub.Registers.X86.Core64

pub All-replicate : {A : Type 0} (P : A → Type 0) (n : ℕ) (x : A) → P x → All P (replicate n x)
All-replicate P zero x h = tt
All-replicate P (suc n) x h = (h, All-replicate P n x h)

-- The lowest two of four bytes are dropped.
from_le_bytes-shifted_example : from_le_bytes 2 (0 ∷ 0 ∷ 0x34 ∷ 0x12 ∷ []) ≡ some 0x1234
from_le_bytes-shifted_example =
    from_le_bytes-shifted 2 2 0x1234 (0 ∷ 0 ∷ 0x34 ∷ 0x12 ∷ [])
      (omega arith, (omega arith, (omega arith, (omega arith, tt)))) refl refl

abbrev arm_regs : ArmCoreRegs
arm_regs = record {
  r = replicate 13 0xdeadbeef;
  sp = 0x20001000;
  lr = 0x8000101;
  pc = 0x8000200;
  cpsr = 0x600000d3;
}

arm_gdb_deserialize-gdb_serialize_example :
    Arm.gdb_deserialize (filled 0 (Arm.gdb_serialize arm_regs)) ≡ parsed arm_regs
arm_gdb_deserialize-gdb_serialize_example =
    arm_gdb_deserialize-gdb_serialize 0 arm_regs (omega arith) (record {
      count = refl;
      r_fit = All-replicate (Fits 4) 13 0xdeadbeef (omega arith);
      sp_fits = omega arith;
      lr_fits = omega arith;
      pc_fits = omega arith;
      cpsr_fits = omega arith;
    })

abbrev msp430_regs : Msp430Regs
msp430_regs = record { pc = 0x4400; sp = 0x2400; sr = 8; r = replicate 11 0xbeef }

msp430_gdb_deserialize-gdb_serialize_example :
    Msp430.gdb_deserialize (filled 0 (Msp430.gdb_serialize msp430_regs)) ≡ failed
msp430_gdb_deserialize-gdb_serialize_example =
    msp430_gdb_deserialize-gdb_serialize 0 msp430_regs (omega arith) (record {
      count = refl;
      r_fit = All-replicate (Fits 2) 11 0xbeef (omega arith);
      pc_fits = omega arith;
      sp_fits = omega arith;
      sr_fits = omega arith;
    })
