-- ===== src/Registers/Mips/Ids.antt =====
-- gdbstub_arch/src/mips/reg/id.rs and mips/mod.rs: the ids of the registers, and the architectures.
use gdbstub.Prelude.{
  Bytes, codes, ◌==◌, leb, if◌then◌else◌, ℕ, ◌-◌, Option, none, some, ◌++◌, replicate,
}
use gdbstub.Target.{Arch}
use gdbstub.Registers.{parsed_option}
use gdbstub.Registers.Mips.{MipsCoreRegs, gdb_serialize, gdb_deserialize}
use gdbstub.Registers.Mips.Dsp.{MipsCoreRegsWithDsp, dsp_gdb_serialize, dsp_gdb_deserialize}

-- `MipsRegId`, without the marker of the size.
pub data MipsRegId : Type 0 where
  gpr : ℕ → MipsRegId
  status lo hi badvaddr cause pc : MipsRegId
  fpr : ℕ → MipsRegId
  fcsr fir hi1 lo1 hi2 lo2 hi3 lo3 dspctl restart : MipsRegId

-- The registers 70 to 77.
abbrev single : ℕ → MipsRegId
single id =
    if id == 70
    then MipsRegId.fcsr
    else if id == 71
    then MipsRegId.fir
    else if id == 72
    then MipsRegId.hi1
    else if id == 73
    then MipsRegId.lo1
    else if id == 74
    then MipsRegId.hi2
    else if id == 75
    then MipsRegId.lo2
    else if id == 76
    then MipsRegId.hi3
    else MipsRegId.lo3

unfoldable pub from_raw_id : ℕ → ℕ → Option (MipsRegId × ℕ)
from_raw_id size id =
    if leb id 31
    then some (MipsRegId.gpr id, size)
    else if id == 32
    then some (MipsRegId.status, size)
    else if id == 33
    then some (MipsRegId.lo, size)
    else if id == 34
    then some (MipsRegId.hi, size)
    else if id == 35
    then some (MipsRegId.badvaddr, size)
    else if id == 36
    then some (MipsRegId.cause, size)
    else if id == 37
    then some (MipsRegId.pc, size)
    else if leb id 69
    then some (MipsRegId.fpr (id - 38), size)
    else if leb id 77
    then some (single id, size)
    else if id == 78
    then some (MipsRegId.dspctl, 4)
    else if id == 79
    then some (MipsRegId.restart, size)
    else none

pub data MipsBreakpointKind : Type 0 where
  mips16 micro_mips16 mips32 micro_mips32 : MipsBreakpointKind

unfoldable pub from_usize : ℕ → Option MipsBreakpointKind
from_usize kind =
    if kind == 2
    then some MipsBreakpointKind.mips16
    else if kind == 3
    then some MipsBreakpointKind.micro_mips16
    else if kind == 4
    then some MipsBreakpointKind.mips32
    else if kind == 5
    then some MipsBreakpointKind.micro_mips32
    else none

-- `Default`.
abbrev default_core : MipsCoreRegs
default_core = record {
  r = replicate 32 0;
  lo = 0;
  hi = 0;
  pc = 0;
  cp0 = record { status = 0; badvaddr = 0; cause = 0 };
  fpu = record { r = replicate 32 0; fcsr = 0; fir = 0 };
}

abbrev default_with_dsp : MipsCoreRegsWithDsp
default_with_dsp = record {
  core = default_core;
  dsp = record { hi1 = 0; lo1 = 0; hi2 = 0; lo2 = 0; hi3 = 0; lo3 = 0; dspctl = 0; restart = 0 };
}

-- `Mips<RegIdImpl>` and `Mips64<RegIdImpl>`.
abbrev pub mips : ℕ → Bytes → (RegId : Type 0) → (ℕ → Option (RegId × ℕ)) → Arch
mips size xml RegId reg_id_from_raw = record {
  Registers = MipsCoreRegs;
  RegId = RegId;
  BreakpointKind = MipsBreakpointKind;
  usize_bytes = size;
  default_registers = default_core;
  gdb_serialize = gdb_serialize size;
  gdb_deserialize = λ bytes. parsed_option (gdb_deserialize size bytes);
  reg_id_from_raw = reg_id_from_raw;
  breakpoint_kind_from_usize = from_usize;
  target_description_xml = some xml;
}

-- `MipsWithDsp` and `Mips64WithDsp`.
abbrev pub mips_with_dsp : ℕ → Bytes → Arch
mips_with_dsp size xml = record {
  Registers = MipsCoreRegsWithDsp;
  RegId = MipsRegId;
  BreakpointKind = MipsBreakpointKind;
  usize_bytes = size;
  default_registers = default_with_dsp;
  gdb_serialize = dsp_gdb_serialize size;
  gdb_deserialize = λ bytes. parsed_option (dsp_gdb_deserialize size bytes);
  reg_id_from_raw = from_raw_id size;
  breakpoint_kind_from_usize = from_usize;
  target_description_xml = some xml;
}

abbrev mips_xml : Bytes → Bytes
mips_xml name =
    codes "<target version=\"1.0\"><architecture>" ++ (name ++ codes "</architecture></target>")

abbrev dsp_xml : Bytes → Bytes
dsp_xml name =
    codes "<target version=\"1.0\"><architecture>"
    ++ (name ++ codes "</architecture><feature name=\"org.gnu.gdb.mips.dsp\"></feature></target>")

abbrev pub mips32_arch : (RegId : Type 0) → (ℕ → Option (RegId × ℕ)) → Arch
mips32_arch = mips 4 (mips_xml (codes "mips"))

abbrev pub mips64_arch : (RegId : Type 0) → (ℕ → Option (RegId × ℕ)) → Arch
mips64_arch = mips 8 (mips_xml (codes "mips64"))

abbrev pub mips32_with_dsp : Arch
mips32_with_dsp = mips_with_dsp 4 (dsp_xml (codes "mips"))

abbrev pub mips64_with_dsp : Arch
mips64_with_dsp = mips_with_dsp 8 (dsp_xml (codes "mips64"))
