-- ===== src/Registers/Arm.antt =====
-- gdbstub_arch/src/arm/: the registers and the architecture of ARMv4T.
pub mod RoundTrip
use gdbstub.Prelude.{
  Bytes, codes, length, ◌==◌, leb, if◌then◌else◌, ℕ, ◌-◌, ◌*◌, ◌%◌, Option, none, some, List, [],
  ◌∷◌, ◌++◌, replicate,
}
use gdbstub.Target.{Arch}
use gdbstub.Registers.{
  Serial, written, unavailable, le_flat, Parsed, parsed, failed, parsed_option, chunks_exact, Words,
  le_words,
}
use gdbstub.Registers.Reader.{Reader, ◌>>=◌, ◌>>◌, pure, next, next_n, at_end, read}

pub record ArmCoreRegs : Type 0 where
  pub r : List ℕ
  pub sp : ℕ
  pub lr : ℕ
  pub pc : ℕ
  pub cpsr : ℕ

-- The floating point registers are not available.
unfoldable pub gdb_serialize : ArmCoreRegs → Serial
gdb_serialize regs =
    written (le_flat 4 regs.r)
    ++ (written (le_flat 4 (regs.sp ∷ regs.lr ∷ regs.pc ∷ []))
        ++ (unavailable (25 * 4) ++ written (le_flat 4 (regs.cpsr ∷ []))))

unfoldable pub arm_regs : Reader ArmCoreRegs
arm_regs = do
  r ← next_n 13
  sp ← next
  lr ← next
  pc ← next
  next_n 25
  cpsr ← next
  at_end
  pure (record { r = r; sp = sp; lr = lr; pc = pc; cpsr = cpsr })

unfoldable pub gdb_deserialize : Bytes → Parsed ArmCoreRegs
gdb_deserialize bytes =
    if length bytes % 4 == 0 then read arm_regs (le_words (chunks_exact 4 bytes)) else failed

-- `ArmCoreRegId`.
pub data ArmCoreRegId : Type 0 where
  gpr : ℕ → ArmCoreRegId
  sp : ArmCoreRegId
  lr : ArmCoreRegId
  pc : ArmCoreRegId
  fpr : ℕ → ArmCoreRegId
  fps : ArmCoreRegId
  cpsr : ArmCoreRegId

abbrev sized : ArmCoreRegId → Option (ArmCoreRegId × ℕ)
sized reg = some (reg, 4)

unfoldable pub from_raw_id : ℕ → Option (ArmCoreRegId × ℕ)
from_raw_id id =
    if leb id 12
    then sized (ArmCoreRegId.gpr id)
    else if id == 13
    then sized ArmCoreRegId.sp
    else if id == 14
    then sized ArmCoreRegId.lr
    else if id == 15
    then sized ArmCoreRegId.pc
    else if leb id 23
    then sized (ArmCoreRegId.fpr (id - 16))
    else if id == 25
    then sized ArmCoreRegId.cpsr
    else none

pub data ArmBreakpointKind : Type 0 where
  thumb16 : ArmBreakpointKind
  thumb32 : ArmBreakpointKind
  arm32 : ArmBreakpointKind

unfoldable pub from_usize : ℕ → Option ArmBreakpointKind
from_usize kind =
    if kind == 2
    then some thumb16
    else if kind == 3
    then some thumb32
    else if kind == 4
    then some arm32
    else none

abbrev pub armv4t : Arch
armv4t = record {
  Registers = ArmCoreRegs;
  RegId = ArmCoreRegId;
  BreakpointKind = ArmBreakpointKind;
  usize_bytes = 4;
  default_registers = record { r = replicate 13 0; sp = 0; lr = 0; pc = 0; cpsr = 0 };
  gdb_serialize = gdb_serialize;
  gdb_deserialize = λ bytes. parsed_option (gdb_deserialize bytes);
  reg_id_from_raw = from_raw_id;
  breakpoint_kind_from_usize = from_usize;
  target_description_xml =
      some (codes "<target version=\"1.0\"><architecture>armv4t</architecture></target>");
}
