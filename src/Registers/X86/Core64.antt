-- ===== src/Registers/X86/Core64.antt =====
-- gdbstub_arch/src/x86/reg/core64.rs: the 64-bit registers.
pub mod RoundTrip
use gdbstub.Prelude.{Bytes, length, ltb, if◌then◌else◌, ℕ, List, [], ◌∷◌}
use gdbstub.LeBytes.{le_bytes}
use gdbstub.LeBytes.Value.{le_value}
use gdbstub.Registers.{
  Serial, written, unavailable, le_flat, flat, in_order, Parsed, parsed, failed, ◌>>=◌, slice,
  arrays, chunks_exact, le_words,
}
use gdbstub.Registers.Reader.{read, next_n}
use gdbstub.Registers.X86.{
  X86SegmentRegs, X87FpuInternalRegs, segments_gdb_serialize, segments_gdb_deserialize,
  fpu_gdb_serialize, fpu_gdb_deserialize,
}

pub record X86_64CoreRegs : Type 0 where
  pub regs : List ℕ
  pub eflags : ℕ
  pub rip : ℕ
  pub segments : X86SegmentRegs
  pub st : List Bytes
  pub fpu : X87FpuInternalRegs
  pub xmm : List ℕ
  pub mxcsr : ℕ

unfoldable pub gdb_serialize : X86_64CoreRegs → Serial
gdb_serialize block = in_order (
    written (le_flat 8 block.regs)
    ∷ written (le_bytes 8 block.rip)
    ∷ written (le_bytes 4 block.eflags)
    ∷ segments_gdb_serialize block.segments
    ∷ written (flat (λ st_reg. st_reg) block.st)
    ∷ fpu_gdb_serialize block.fpu
    ∷ written (le_flat 16 block.xmm)
    ∷ written (le_bytes 4 block.mxcsr)
    ∷ unavailable 0x18
    ∷ [])

unfoldable pub read_sections : Bytes → Parsed X86_64CoreRegs
read_sections bytes = do
  general ← slice 0x0 0x80 bytes
  regs ← read (next_n 16) (le_words (chunks_exact 8 general))
  rip ← slice 0x80 0x88 bytes
  eflags ← slice 0x88 0x8c bytes
  segment_bytes ← slice 0x8c 0xa4 bytes
  segments ← segments_gdb_deserialize segment_bytes
  st_bytes ← slice 0xa4 0xf4 bytes
  st ← arrays 10 8 (chunks_exact 10 st_bytes)
  fpu_bytes ← slice 0xf4 0x114 bytes
  fpu ← fpu_gdb_deserialize fpu_bytes
  xmm_bytes ← slice 0x114 0x214 bytes
  xmm ← read (next_n 16) (le_words (chunks_exact 16 xmm_bytes))
  mxcsr ← slice 0x214 0x218 bytes
  parsed (record {
    regs = regs;
    eflags = le_value eflags;
    rip = le_value rip;
    segments = segments;
    st = st;
    fpu = fpu;
    xmm = xmm;
    mxcsr = le_value mxcsr;
  })

unfoldable pub gdb_deserialize : Bytes → Parsed X86_64CoreRegs
unfolding read_sections
gdb_deserialize bytes = if ltb (length bytes) 0x218 then failed else read_sections bytes
