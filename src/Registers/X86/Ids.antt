-- ===== src/Registers/X86/Ids.antt =====
-- gdbstub_arch/src/x86/reg/id.rs and x86/mod.rs: the ids of the registers, and the architectures.
use gdbstub.Prelude.{codes, ◌==◌, leb, if◌then◌else◌, ℕ, ◌-◌, Option, none, some, replicate}
use gdbstub.Prelude.OptionDo.{◌>>=◌}
use gdbstub.Target.{Arch}
use gdbstub.Registers.{parsed_option}
use gdbstub.Registers.X86.{X86SegmentRegs, X87FpuInternalRegs}
use gdbstub.Registers.X86.Core32
use gdbstub.Registers.X86.Core64
use gdbstub.Registers.X86.Core32.Fields.{X86CoreRegs}
use gdbstub.Registers.X86.Core64.{X86_64CoreRegs}

pub data X87FpuInternalRegId : Type 0 where
  fctrl fstat ftag fiseg fioff foseg fooff fop : X87FpuInternalRegId

unfoldable pub fpu_from_u8 : ℕ → Option X87FpuInternalRegId
fpu_from_u8 val =
    if val == 0
    then some X87FpuInternalRegId.fctrl
    else if val == 1
    then some X87FpuInternalRegId.fstat
    else if val == 2
    then some X87FpuInternalRegId.ftag
    else if val == 3
    then some X87FpuInternalRegId.fiseg
    else if val == 4
    then some X87FpuInternalRegId.fioff
    else if val == 5
    then some X87FpuInternalRegId.foseg
    else if val == 6
    then some X87FpuInternalRegId.fooff
    else if val == 7
    then some X87FpuInternalRegId.fop
    else none

pub data X86SegmentRegId : Type 0 where
  cs ss ds es fs gs : X86SegmentRegId

unfoldable pub segment_from_u8 : ℕ → Option X86SegmentRegId
segment_from_u8 val =
    if val == 0
    then some X86SegmentRegId.cs
    else if val == 1
    then some X86SegmentRegId.ss
    else if val == 2
    then some X86SegmentRegId.ds
    else if val == 3
    then some X86SegmentRegId.es
    else if val == 4
    then some X86SegmentRegId.fs
    else if val == 5
    then some X86SegmentRegId.gs
    else none

pub data X86CoreRegId : Type 0 where
  eax ecx edx ebx esp ebp esi edi eip eflags : X86CoreRegId
  segment : X86SegmentRegId → X86CoreRegId
  st : ℕ → X86CoreRegId
  fpu : X87FpuInternalRegId → X86CoreRegId
  xmm : ℕ → X86CoreRegId
  mxcsr : X86CoreRegId

-- The registers 0 to 9.
abbrev general : ℕ → X86CoreRegId
general id =
    if id == 0
    then X86CoreRegId.eax
    else if id == 1
    then X86CoreRegId.ecx
    else if id == 2
    then X86CoreRegId.edx
    else if id == 3
    then X86CoreRegId.ebx
    else if id == 4
    then X86CoreRegId.esp
    else if id == 5
    then X86CoreRegId.ebp
    else if id == 6
    then X86CoreRegId.esi
    else if id == 7
    then X86CoreRegId.edi
    else if id == 8
    then X86CoreRegId.eip
    else X86CoreRegId.eflags

unfoldable pub from_raw_id : ℕ → Option (X86CoreRegId × ℕ)
unfolding segment_from_u8 fpu_from_u8
from_raw_id id =
    if leb id 9
    then some (general id, 4)
    else if leb id 15
    then (segment_from_u8 (id - 10) >>= λ reg. some (X86CoreRegId.segment reg, 4))
    else if leb id 23
    then some (X86CoreRegId.st (id - 16), 10)
    else if leb id 31
    then (fpu_from_u8 (id - 24) >>= λ reg. some (X86CoreRegId.fpu reg, 4))
    else if leb id 39
    then some (X86CoreRegId.xmm (id - 32), 16)
    else if id == 40
    then some (X86CoreRegId.mxcsr, 4)
    else none

pub data X86_64CoreRegId : Type 0 where
  gpr : ℕ → X86_64CoreRegId
  rip eflags : X86_64CoreRegId
  segment : X86SegmentRegId → X86_64CoreRegId
  st : ℕ → X86_64CoreRegId
  fpu : X87FpuInternalRegId → X86_64CoreRegId
  xmm : ℕ → X86_64CoreRegId
  mxcsr : X86_64CoreRegId

unfoldable pub from_raw_id_64 : ℕ → Option (X86_64CoreRegId × ℕ)
unfolding segment_from_u8 fpu_from_u8
from_raw_id_64 id =
    if leb id 15
    then some (X86_64CoreRegId.gpr id, 8)
    else if id == 16
    then some (X86_64CoreRegId.rip, 4)
    else if id == 17
    then some (X86_64CoreRegId.eflags, 8)
    else if leb id 23
    then (segment_from_u8 (id - 18) >>= λ reg. some (X86_64CoreRegId.segment reg, 4))
    else if leb id 31
    then some (X86_64CoreRegId.st (id - 24), 10)
    else if leb id 39
    then (fpu_from_u8 (id - 32) >>= λ reg. some (X86_64CoreRegId.fpu reg, 4))
    else if leb id 55
    then some (X86_64CoreRegId.xmm (id - 40), 16)
    else if id == 56
    then some (X86_64CoreRegId.mxcsr, 4)
    else none

-- `Default`.
abbrev no_segments : X86SegmentRegs
no_segments = record { cs = 0; ss = 0; ds = 0; es = 0; fs = 0; gs = 0 }

abbrev no_fpu : X87FpuInternalRegs
no_fpu = record {
  fctrl = 0;
  fstat = 0;
  ftag = 0;
  fiseg = 0;
  fioff = 0;
  foseg = 0;
  fooff = 0;
  fop = 0;
}

-- `X86_64_SSE<RegIdImpl>`.
abbrev pub x86_64_sse : (RegId : Type 0) → (ℕ → Option (RegId × ℕ)) → Arch
x86_64_sse RegId reg_id_from_raw = record {
  Registers = X86_64CoreRegs;
  RegId = RegId;
  BreakpointKind = ℕ;
  usize_bytes = 8;
  default_registers = record {
    regs = replicate 16 0;
    eflags = 0;
    rip = 0;
    segments = no_segments;
    st = replicate 8 (replicate 10 0);
    fpu = no_fpu;
    xmm = replicate 16 0;
    mxcsr = 0;
  };
  gdb_serialize = Core64.gdb_serialize;
  gdb_deserialize = λ bytes. parsed_option (Core64.gdb_deserialize bytes);
  reg_id_from_raw = reg_id_from_raw;
  breakpoint_kind_from_usize = λ kind. some kind;
  target_description_xml = some (
      codes
        "<target version=\"1.0\"><architecture>i386:x86-64</architecture><feature name=\"org.gnu.gdb.i386.sse\"></feature></target>");
}

-- `X86_SSE<RegIdImpl>`.
abbrev pub x86_sse : (RegId : Type 0) → (ℕ → Option (RegId × ℕ)) → Arch
x86_sse RegId reg_id_from_raw = record {
  Registers = X86CoreRegs;
  RegId = RegId;
  BreakpointKind = ℕ;
  usize_bytes = 4;
  default_registers = record {
    eax = 0;
    ecx = 0;
    edx = 0;
    ebx = 0;
    esp = 0;
    ebp = 0;
    esi = 0;
    edi = 0;
    eip = 0;
    eflags = 0;
    segments = no_segments;
    st = replicate 8 (replicate 10 0);
    fpu = no_fpu;
    xmm = replicate 8 0;
    mxcsr = 0;
  };
  gdb_serialize = Core32.gdb_serialize;
  gdb_deserialize = λ bytes. parsed_option (Core32.gdb_deserialize bytes);
  reg_id_from_raw = reg_id_from_raw;
  breakpoint_kind_from_usize = λ kind. some kind;
  target_description_xml = some (
      codes
        "<target version=\"1.0\"><architecture>i386:intel</architecture><feature name=\"org.gnu.gdb.i386.sse\"></feature></target>");
}
