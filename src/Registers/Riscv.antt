-- ===== src/Registers/Riscv.antt =====
-- gdbstub_arch/src/riscv/: the integer registers and the architectures of RISC-V, for words of `size`
-- bytes.
pub mod RoundTrip
use gdbstub.Prelude.{
  Bytes, codes, length, ◌==◌, leb, if◌then◌else◌, ℕ, ◌-◌, ◌%◌, ◌^◌, Option, none, some, List, [],
  ◌∷◌, ◌++◌, replicate,
}
use gdbstub.Target.{Arch}
use gdbstub.Registers.{
  Serial, written, flat, Parsed, failed, parsed_option, chunks_exact, checked_words, buffered,
}
use gdbstub.Registers.Reader.{Reader, ◌>>=◌, ◌>>◌, pure, next, next_n, at_end, read}

pub record RiscvCoreRegs : Type 0 where
  pub x : List ℕ
  pub pc : ℕ

unfoldable pub gdb_serialize : ℕ → RiscvCoreRegs → Serial
gdb_serialize size regs =
    written (flat (buffered size) regs.x) ++ written (flat (buffered size) (regs.pc ∷ []))

unfoldable pub riscv_regs : Reader RiscvCoreRegs
riscv_regs = do x ← next_n 32; pc ← next; at_end; pure (record { x = x; pc = pc })

unfoldable pub gdb_deserialize : ℕ → Bytes → Parsed RiscvCoreRegs
gdb_deserialize size bytes =
    if length bytes % size == 0
    then read riscv_regs (checked_words size (chunks_exact size bytes))
    else failed

-- `RiscvRegId`, without the markers.
pub data RiscvRegId : Type 0 where
  gpr : ℕ → RiscvRegId
  fpr : ℕ → RiscvRegId
  pc : RiscvRegId
  csr : ℕ → RiscvRegId
  priv : RiscvRegId

unfoldable pub from_raw_id : ℕ → ℕ → Option (RiscvRegId × ℕ)
from_raw_id size id =
    if leb id 31
    then some (RiscvRegId.gpr id, size)
    else if id == 32
    then some (RiscvRegId.pc, size)
    else if leb id 64
    then some (RiscvRegId.fpr (id - 33), size)
    else if leb id 4160
    then some (RiscvRegId.csr (id - 65), size)
    else if id == 4161
    then some (RiscvRegId.priv, 1)
    else none

-- `Riscv32` and `Riscv64`; the kind of a breakpoint is the number itself.
abbrev riscv : ℕ → Bytes → Arch
riscv size name = record {
  Registers = RiscvCoreRegs;
  RegId = RiscvRegId;
  BreakpointKind = ℕ;
  usize_bytes = size;
  default_registers = record { x = replicate 32 0; pc = 0 };
  gdb_serialize = gdb_serialize size;
  gdb_deserialize = λ bytes. parsed_option (gdb_deserialize size bytes);
  reg_id_from_raw = from_raw_id size;
  breakpoint_kind_from_usize = λ kind. some kind;
  target_description_xml = some (
      codes "<target version=\"1.0\"><architecture>" ++ (name ++ codes "</architecture></target>"));
}

abbrev pub riscv32 : Arch
riscv32 = riscv 4 (codes "riscv")

abbrev pub riscv64 : Arch
riscv64 = riscv 8 (codes "riscv64")
