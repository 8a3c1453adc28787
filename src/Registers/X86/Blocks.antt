-- ===== src/Registers/X86/Blocks.antt =====
-- gdbstub_arch/src/x86/reg/mod.rs: reading back the segment registers and the FPU's.
use gdbstub.Prelude.{
  length, ℕ, ◌<◌, ◌*◌, ◌≡◌, sym, ap, ◌∙◌, List, [], All, arith, map, some, append-nil,
}
use gdbstub.LeBytes.{le_bytes}
use gdbstub.LeBytes.Value.{length-le_bytes}
use gdbstub.Registers.{le_flat, parsed, chunks_exact, le_words}
use gdbstub.Registers.Reader.{read, next_n, result}
use gdbstub.Registers.Codec.{Fits, le_codec, words_by-flat, length-flat, next_n-some}
use gdbstub.Registers.X86.{
  X87FpuInternalRegs, fpu_fields, fpu_regs, fpu_gdb_deserialize, X86SegmentRegs, segment_fields,
  segment_regs, segments_gdb_deserialize,
}

pub length-le_flat : (size : ℕ) (ws : List ℕ) → length (le_flat size ws) ≡ length ws * size
length-le_flat size ws = length-flat (le_bytes size) size (length-le_bytes size) ws

pub fpu_reads :
    (fpu : X87FpuInternalRegs)
    → All (Fits 4) (fpu_fields fpu)
    → fpu_gdb_deserialize (le_flat 4 (fpu_fields fpu)) ≡ parsed fpu
unfolding fpu_gdb_deserialize fpu_regs
fpu_reads fpu fit =
    ap (read fpu_regs) (words_by-flat (le_codec 4 (omega arith)) (fpu_fields fpu) fit)

pub segments_read :
    (s : X86SegmentRegs)
    → All (Fits 4) (segment_fields s)
    → segments_gdb_deserialize (le_flat 4 (segment_fields s)) ≡ parsed s
unfolding segments_gdb_deserialize segment_regs
segments_read s fit =
    ap (read segment_regs) (words_by-flat (le_codec 4 (omega arith)) (segment_fields s) fit)

-- A section that is an array of words.
pub array_reads :
    (size n : ℕ) (h : 0 < size) (ws : List ℕ)
    → length ws ≡ n
    → All (Fits size) ws
    → read (next_n n) (le_words (chunks_exact size (le_flat size ws))) ≡ parsed ws
array_reads size n h ws count fit =
    ap (read (next_n n)) (words_by-flat (le_codec size h) ws fit)
    ∙ ap (read (next_n n)) (sym (append-nil (map some ws)))
    ∙ ap result (next_n-some n ws [] count)
