-- ===== src/Registers/Ppc.antt =====
-- gdbstub_arch/src/ppc/: the registers and the architecture of 32-bit PowerPC. A floating point
-- register is its 64 bits.
pub mod Fields
pub mod RoundTrip
use gdbstub.Prelude.{
  Bytes, codes, length, ltb, if◌then◌else◌, ℕ, Option, none, some, List, [], ◌∷◌, ◌++◌, replicate,
}
use gdbstub.Target.{Arch}
use gdbstub.BeBytes.{be_bytes}
use gdbstub.Registers.{
  Serial, written, flat, in_order, Parsed, failed, ◌>>=◌, slice, chunks_exact, parsed_option,
}
use gdbstub.Registers.Reader.{read, next_n}
use gdbstub.Registers.Ppc.Fields.{PowerPcCommonRegs, be_words, control_regs, vector_control_regs}

unfoldable pub gdb_serialize : PowerPcCommonRegs → Serial
gdb_serialize regs = in_order (
    written (flat (be_bytes 4) regs.r)
    ∷ written (flat (be_bytes 8) regs.f)
    ∷ written (
        flat (be_bytes 4)
          (regs.pc ∷ regs.msr ∷ regs.cr ∷ regs.lr ∷ regs.ctr ∷ regs.xer ∷ regs.fpscr ∷ []))
    ∷ written (flat (be_bytes 16) regs.vr)
    ∷ written (flat (be_bytes 4) (regs.vscr ∷ regs.vrsave ∷ []))
    ∷ [])

unfoldable pub read_sections : Bytes → Parsed PowerPcCommonRegs
read_sections bytes = do
  general ← slice 0x0 0x80 bytes
  r ← read (next_n 32) (be_words (chunks_exact 4 general))
  floating ← slice 0x80 0x180 bytes
  f ← read (next_n 32) (be_words (chunks_exact 8 floating))
  control ← slice 0x180 0x19c bytes
  build ← read control_regs (be_words (chunks_exact 4 control))
  vectors ← slice 0x19c 0x39c bytes
  vr ← read (next_n 32) (be_words (chunks_exact 16 vectors))
  vector_control ← slice 0x39c 0x3a4 bytes
  read (vector_control_regs (build r f vr)) (be_words (chunks_exact 4 vector_control))

unfoldable pub gdb_deserialize : Bytes → Parsed PowerPcCommonRegs
unfolding read_sections
gdb_deserialize bytes = if ltb (length bytes) 0x3a4 then failed else read_sections bytes

-- `PowerPcAltivec32<RegIdImpl>`.
abbrev pub power_pc_altivec32 : (RegId : Type 0) → (ℕ → Option (RegId × ℕ)) → Arch
power_pc_altivec32 RegId reg_id_from_raw = record {
  Registers = PowerPcCommonRegs;
  RegId = RegId;
  BreakpointKind = ℕ;
  usize_bytes = 4;
  default_registers = record {
    r = replicate 32 0;
    f = replicate 32 0;
    pc = 0;
    msr = 0;
    cr = 0;
    lr = 0;
    ctr = 0;
    xer = 0;
    fpscr = 0;
    vr = replicate 32 0;
    vscr = 0;
    vrsave = 0;
  };
  gdb_serialize = gdb_serialize;
  gdb_deserialize = λ bytes. parsed_option (gdb_deserialize bytes);
  reg_id_from_raw = reg_id_from_raw;
  breakpoint_kind_from_usize = λ kind. some kind;
  target_description_xml = some (
      codes
        "<target version=\"1.0\"><architecture>powerpc:common</architecture><feature name=\"org.gnu.gdb.power.core\"></feature><feature name=\"org.gnu.gdb.power.fpu\"></feature><feature name=\"org.gnu.gdb.power.altivec\"></feature></target>");
}
