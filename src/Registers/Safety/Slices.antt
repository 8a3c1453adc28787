-- ===== src/Registers/Safety/Slices.antt =====
-- gdbstub_arch/src/: `gdb_deserialize` of PowerPC and x86, which slice at fixed places, and of all
-- architectures.
use gdbstub.Registers.Reader.{Reader}
use gdbstub.Registers.Arm
use gdbstub.Registers.Riscv
use gdbstub.Registers.Msp430
use gdbstub.Registers.Mips
use gdbstub.Registers.Mips.Dsp
use gdbstub.Registers.Ppc
use gdbstub.Registers.X86.Core32
use gdbstub.Registers.X86.Core64
