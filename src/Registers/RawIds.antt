-- ===== src/Registers/RawIds.antt =====
-- gdbstub_arch/src/: the tables `from_raw_id` of the architectures.
use gdbstub.Prelude.{ℕ, ◌≤◌, ◌<◌, ◌≡◌, Option, none, some, ◌+◌}
use gdbstub.Registers.Arm
use gdbstub.Registers.Arm.{ArmCoreRegId}
use gdbstub.Registers.Riscv
use gdbstub.Registers.Riscv.{RiscvRegId}
use gdbstub.Registers.Msp430
use gdbstub.Registers.Msp430.{Msp430RegId}
use gdbstub.Registers.Mips.Ids
use gdbstub.Registers.Mips.Ids.{MipsRegId}
use gdbstub.Registers.X86.Ids.{X86CoreRegId, X86_64CoreRegId, X86SegmentRegId, X87FpuInternalRegId}

-- The ids that the client has for the registers.
abbrev pub arm_id : ArmCoreRegId → ℕ
arm_id (ArmCoreRegId.gpr n) = n
arm_id ArmCoreRegId.sp = 13
arm_id ArmCoreRegId.lr = 14
arm_id ArmCoreRegId.pc = 15
arm_id (ArmCoreRegId.fpr n) = 16 + n
arm_id ArmCoreRegId.fps = 24
arm_id ArmCoreRegId.cpsr = 25

abbrev pub riscv_id : RiscvRegId → ℕ
riscv_id (RiscvRegId.gpr n) = n
riscv_id (RiscvRegId.fpr n) = 33 + n
riscv_id RiscvRegId.pc = 32
riscv_id (RiscvRegId.csr n) = 65 + n
riscv_id RiscvRegId.priv = 4161

abbrev pub msp430_id : Msp430RegId → ℕ
msp430_id Msp430RegId.pc = 0
msp430_id Msp430RegId.sp = 1
msp430_id Msp430RegId.sr = 2
msp430_id Msp430RegId.cg = 3
msp430_id (Msp430RegId.gpr n) = 4 + n

abbrev pub mips_id : MipsRegId → ℕ
mips_id (MipsRegId.gpr n) = n
mips_id MipsRegId.status = 32
mips_id MipsRegId.lo = 33
mips_id MipsRegId.hi = 34
mips_id MipsRegId.badvaddr = 35
mips_id MipsRegId.cause = 36
mips_id MipsRegId.pc = 37
mips_id (MipsRegId.fpr n) = 38 + n
mips_id MipsRegId.fcsr = 70
mips_id MipsRegId.fir = 71
mips_id MipsRegId.hi1 = 72
mips_id MipsRegId.lo1 = 73
mips_id MipsRegId.hi2 = 74
mips_id MipsRegId.lo2 = 75
mips_id MipsRegId.hi3 = 76
mips_id MipsRegId.lo3 = 77
mips_id MipsRegId.dspctl = 78
mips_id MipsRegId.restart = 79

abbrev segment_index : X86SegmentRegId → ℕ
segment_index X86SegmentRegId.cs = 0
segment_index X86SegmentRegId.ss = 1
segment_index X86SegmentRegId.ds = 2
segment_index X86SegmentRegId.es = 3
segment_index X86SegmentRegId.fs = 4
segment_index X86SegmentRegId.gs = 5

abbrev fpu_index : X87FpuInternalRegId → ℕ
fpu_index X87FpuInternalRegId.fctrl = 0
fpu_index X87FpuInternalRegId.fstat = 1
fpu_index X87FpuInternalRegId.ftag = 2
fpu_index X87FpuInternalRegId.fiseg = 3
fpu_index X87FpuInternalRegId.fioff = 4
fpu_index X87FpuInternalRegId.foseg = 5
fpu_index X87FpuInternalRegId.fooff = 6
fpu_index X87FpuInternalRegId.fop = 7

abbrev pub x86_id : X86CoreRegId → ℕ
x86_id X86CoreRegId.eax = 0
x86_id X86CoreRegId.ecx = 1
x86_id X86CoreRegId.edx = 2
x86_id X86CoreRegId.ebx = 3
x86_id X86CoreRegId.esp = 4
x86_id X86CoreRegId.ebp = 5
x86_id X86CoreRegId.esi = 6
x86_id X86CoreRegId.edi = 7
x86_id X86CoreRegId.eip = 8
x86_id X86CoreRegId.eflags = 9
x86_id (X86CoreRegId.segment reg) = 10 + segment_index reg
x86_id (X86CoreRegId.st n) = 16 + n
x86_id (X86CoreRegId.fpu reg) = 24 + fpu_index reg
x86_id (X86CoreRegId.xmm n) = 32 + n
x86_id X86CoreRegId.mxcsr = 40

abbrev pub x86_64_id : X86_64CoreRegId → ℕ
x86_64_id (X86_64CoreRegId.gpr n) = n
x86_64_id X86_64CoreRegId.rip = 16
x86_64_id X86_64CoreRegId.eflags = 17
x86_64_id (X86_64CoreRegId.segment reg) = 18 + segment_index reg
x86_64_id (X86_64CoreRegId.st n) = 24 + n
x86_64_id (X86_64CoreRegId.fpu reg) = 32 + fpu_index reg
x86_64_id (X86_64CoreRegId.xmm n) = 40 + n
x86_64_id X86_64CoreRegId.mxcsr = 56

-- The register of an entry has the id of the entry, and a size of 1 to 16 bytes.
abbrev pub Listed : {A : Type 0} → (A → ℕ) → ℕ → Option (A × ℕ) → Type 0
Listed id_of id none = Unit
Listed id_of id (some (reg, size)) = (id_of reg ≡ id) × (0 < size) × (size ≤ 16)
