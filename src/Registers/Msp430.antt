-- ===== src/Registers/Msp430.antt =====
-- gdbstub_arch/src/msp430/: the registers and the architecture of the TI-MSP430.
pub mod Rejected
use gdbstub.Prelude.{
  Bytes, codes, length, ◌==◌, leb, if◌then◌else◌, ℕ, ◌-◌, ◌%◌, ◌^◌, Option, none, some, List, [],
  ◌∷◌, ◌++◌, replicate,
}
use gdbstub.Target.{Arch}
use gdbstub.Registers.{
  Serial, written, unavailable, le_flat, Parsed, failed, parsed_option, chunks_exact, le_words,
}
use gdbstub.Registers.Reader.{Reader, ◌>>=◌, ◌>>◌, pure, next, next_n, at_end, read, give_up}

-- `r` has 11 elements.
pub record Msp430Regs : Type 0 where
  pub pc : ℕ
  pub sp : ℕ
  pub sr : ℕ
  pub r : List ℕ

-- The constant generator is written as four unavailable bytes.
unfoldable pub gdb_serialize : Msp430Regs → Serial
gdb_serialize regs =
    written (le_flat 2 (regs.pc ∷ regs.sp ∷ regs.sr ∷ []))
    ++ (unavailable 4 ++ written (le_flat 2 regs.r))

unfoldable pub msp430_regs : Reader Msp430Regs
msp430_regs = do
  pc ← next
  sp ← next
  sr ← next
  cg ← next
  if cg == 0
      then (do r ← next_n 11; at_end; pure (record { pc = pc; sp = sp; sr = sr; r = r }))
      else give_up

unfoldable pub gdb_deserialize : Bytes → Parsed Msp430Regs
gdb_deserialize bytes =
    if length bytes % 2 == 0 then read msp430_regs (le_words (chunks_exact 2 bytes)) else failed

pub data Msp430RegId : Type 0 where
  pc : Msp430RegId
  sp : Msp430RegId
  sr : Msp430RegId
  cg : Msp430RegId
  gpr : ℕ → Msp430RegId

abbrev sized : Msp430RegId → Option (Msp430RegId × ℕ)
sized reg = some (reg, 2)

unfoldable pub from_raw_id : ℕ → Option (Msp430RegId × ℕ)
from_raw_id id =
    if id == 0
    then sized Msp430RegId.pc
    else if id == 1
    then sized Msp430RegId.sp
    else if id == 2
    then sized Msp430RegId.sr
    else if id == 3
    then sized Msp430RegId.cg
    else if leb id 15
    then sized (Msp430RegId.gpr (id - 4))
    else none

-- `Msp430<RegIdImpl>`.
abbrev pub msp430 : (RegId : Type 0) → (ℕ → Option (RegId × ℕ)) → Arch
msp430 RegId reg_id_from_raw = record {
  Registers = Msp430Regs;
  RegId = RegId;
  BreakpointKind = ℕ;
  usize_bytes = 2;
  default_registers = record { pc = 0; sp = 0; sr = 0; r = replicate 11 0 };
  gdb_serialize = gdb_serialize;
  gdb_deserialize = λ bytes. parsed_option (gdb_deserialize bytes);
  reg_id_from_raw = reg_id_from_raw;
  breakpoint_kind_from_usize = λ kind. some kind;
  target_description_xml =
      some (codes "<target version=\"1.0\"><architecture>msp430</architecture></target>");
}
