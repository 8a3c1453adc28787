-- ===== src/Registers/X86.antt =====
-- gdbstub_arch/src/x86/reg/mod.rs: the segment registers and the FPU's internal registers of x86. An
-- 80-bit floating point value is its ten bytes.
pub mod Blocks
pub mod Core32
pub mod Core64
pub mod Ids
use gdbstub.Prelude.{Bytes, length, ◌==◌, if◌then◌else◌, ℕ, List, [], ◌∷◌}
use gdbstub.Registers.{Serial, written, le_flat, Parsed, failed, chunks_exact, le_words}
use gdbstub.Registers.Reader.{Reader, ◌>>=◌, pure, next, read}

pub record X87FpuInternalRegs : Type 0 where
  pub fctrl : ℕ
  pub fstat : ℕ
  pub ftag : ℕ
  pub fiseg : ℕ
  pub fioff : ℕ
  pub foseg : ℕ
  pub fooff : ℕ
  pub fop : ℕ

abbrev pub fpu_fields : X87FpuInternalRegs → List ℕ
fpu_fields fpu =
    fpu.fctrl ∷ fpu.fstat ∷ fpu.ftag ∷ fpu.fiseg ∷ fpu.fioff ∷ fpu.foseg ∷ fpu.fooff ∷ fpu.fop ∷ []

abbrev pub fpu_gdb_serialize : X87FpuInternalRegs → Serial
fpu_gdb_serialize fpu = written (le_flat 4 (fpu_fields fpu))

unfoldable pub fpu_regs : Reader X87FpuInternalRegs
fpu_regs = do
  fctrl ← next
  fstat ← next
  ftag ← next
  fiseg ← next
  fioff ← next
  foseg ← next
  fooff ← next
  fop ← next
  pure (record {
    fctrl = fctrl;
    fstat = fstat;
    ftag = ftag;
    fiseg = fiseg;
    fioff = fioff;
    foseg = foseg;
    fooff = fooff;
    fop = fop;
  })

unfoldable pub fpu_gdb_deserialize : Bytes → Parsed X87FpuInternalRegs
fpu_gdb_deserialize bytes =
    if length bytes == 0x20 then read fpu_regs (le_words (chunks_exact 4 bytes)) else failed

pub record X86SegmentRegs : Type 0 where
  pub cs : ℕ
  pub ss : ℕ
  pub ds : ℕ
  pub es : ℕ
  pub fs : ℕ
  pub gs : ℕ

abbrev pub segment_fields : X86SegmentRegs → List ℕ
segment_fields s = s.cs ∷ s.ss ∷ s.ds ∷ s.es ∷ s.fs ∷ s.gs ∷ []

abbrev pub segments_gdb_serialize : X86SegmentRegs → Serial
segments_gdb_serialize s = written (le_flat 4 (segment_fields s))

unfoldable pub segment_regs : Reader X86SegmentRegs
segment_regs = do
  cs ← next
  ss ← next
  ds ← next
  es ← next
  fs ← next
  gs ← next
  pure (record { cs = cs; ss = ss; ds = ds; es = es; fs = fs; gs = gs })

unfoldable pub segments_gdb_deserialize : Bytes → Parsed X86SegmentRegs
segments_gdb_deserialize bytes =
    if length bytes == 24 then read segment_regs (le_words (chunks_exact 4 bytes)) else failed
