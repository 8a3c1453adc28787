-- ===== src/Registers/X86/Core32.antt =====
-- gdbstub_arch/src/x86/reg/core32.rs: the 32-bit registers.
pub mod Fields
pub mod RoundTrip
use gdbstub.Prelude.{Bytes, length, ltb, if◌then◌else◌, ℕ, List, [], ◌∷◌}
use gdbstub.LeBytes.{le_bytes}
use gdbstub.LeBytes.Value.{le_value}
use gdbstub.Registers.{
  Serial, written, unavailable, le_flat, flat, in_order, Parsed, parsed, failed, ◌>>=◌, slice,
  arrays, chunks_exact, le_words,
}
use gdbstub.Registers.Reader.{read, next_n}
use gdbstub.Registers.X86.{
  segments_gdb_serialize, segments_gdb_deserialize, fpu_gdb_serialize, fpu_gdb_deserialize,
}
use gdbstub.Registers.X86.Core32.Fields.{X86CoreRegs, general_fields, general_regs}

unfoldable pub gdb_serialize : X86CoreRegs → Serial
gdb_serialize regs = in_order (
    written (le_flat 4 (general_fields regs))
    ∷ segments_gdb_serialize regs.segments
    ∷ written (flat (λ st_reg. st_reg) regs.st)
    ∷ fpu_gdb_serialize regs.fpu
    ∷ written (le_flat 16 regs.xmm)
    ∷ written (le_bytes 4 regs.mxcsr)
    ∷ unavailable 4
    ∷ [])

unfoldable pub read_sections : Bytes → Parsed X86CoreRegs
read_sections bytes = do
  general ← slice 0x0 0x28 bytes
  build ← read general_regs (le_words (chunks_exact 4 general))
  segment_bytes ← slice 0x28 0x40 bytes
  segments ← segments_gdb_deserialize segment_bytes
  st_bytes ← slice 0x40 0x90 bytes
  st ← arrays 10 8 (chunks_exact 10 st_bytes)
  fpu_bytes ← slice 0x90 0xb0 bytes
  fpu ← fpu_gdb_deserialize fpu_bytes
  xmm_bytes ← slice 0xb0 0x130 bytes
  xmm ← read (next_n 8) (le_words (chunks_exact 16 xmm_bytes))
  mxcsr ← slice 0x130 0x134 bytes
  parsed (build segments st fpu xmm (le_value mxcsr))

unfoldable pub gdb_deserialize : Bytes → Parsed X86CoreRegs
unfolding read_sections
gdb_deserialize bytes = if ltb (length bytes) 0x138 then failed else read_sections bytes
