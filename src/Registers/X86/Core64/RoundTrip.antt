-- ===== src/Registers/X86/Core64/RoundTrip.antt =====
-- gdbstub_arch/src/x86/reg/core64.rs: reading back what is written.
use gdbstub.Prelude.{
  ℕ, ◌≡◌, refl, ap, ◌∙◌, All, length, ltb, false, arith, List, [], ◌∷◌, ◌++◌, ◌*◌, Bytes, replicate,
}
use gdbstub.LeBytes.{le_bytes}
use gdbstub.LeBytes.Value.{le_value, le_value-le_bytes}
use gdbstub.Registers.{filled, le_flat, parsed, slice}
use gdbstub.Registers.Codec.{Fits}
use gdbstub.Registers.Sections.{
  joined, length-joined, slice_section, filled-padded_sections, arrays-joined, lengths-same,
}
use gdbstub.Registers.X86.{segment_fields, fpu_fields}
use gdbstub.Registers.X86.Blocks.{length-le_flat, fpu_reads, segments_read, array_reads}
use gdbstub.Registers.X86.Core64.{X86_64CoreRegs, gdb_serialize, read_sections, gdb_deserialize}

-- What the types of the fields say.
pub record IsBlock (block : X86_64CoreRegs) : Type 0 where
  pub regs_count : length block.regs ≡ 16
  pub regs_fit : All (Fits 8) block.regs
  pub rip_fits : Fits 8 block.rip
  pub eflags_fits : Fits 4 block.eflags
  pub segments_fit : All (Fits 4) (segment_fields block.segments)
  pub st_count : length block.st ≡ 8
  pub st_arrays : All (λ x. length x ≡ 10) block.st
  pub fpu_fit : All (Fits 4) (fpu_fields block.fpu)
  pub xmm_count : length block.xmm ≡ 16
  pub xmm_fit : All (Fits 16) block.xmm
  pub mxcsr_fits : Fits 4 block.mxcsr

module _ (pad : ℕ) (block : X86_64CoreRegs) (h : IsBlock block) where
  abbrev general : Bytes
  general = le_flat 8 block.regs

  abbrev rip : Bytes
  rip = le_bytes 8 block.rip

  abbrev eflags : Bytes
  eflags = le_bytes 4 block.eflags

  abbrev segments : Bytes
  segments = le_flat 4 (segment_fields block.segments)

  abbrev st : Bytes
  st = joined block.st

  abbrev fpu : Bytes
  fpu = le_flat 4 (fpu_fields block.fpu)

  abbrev xmm : Bytes
  xmm = le_flat 16 block.xmm

  abbrev mxcsr : Bytes
  mxcsr = le_bytes 4 block.mxcsr

  abbrev padding : Bytes
  padding = replicate 0x18 pad

  -- The sections in front of the padding: up to the segment registers, and behind them.
  abbrev first : List Bytes
  first = general ∷ rip ∷ eflags ∷ []

  abbrev sections : List Bytes
  sections = general ∷ rip ∷ eflags ∷ segments ∷ st ∷ fpu ∷ xmm ∷ mxcsr ∷ padding ∷ []

  serialized : filled pad (gdb_serialize block) ≡ joined sections
  unfolding gdb_serialize
  serialized =
      filled-padded_sections pad (general ∷ rip ∷ eflags ∷ segments ∷ st ∷ fpu ∷ xmm ∷ mxcsr ∷ [])
        0x18

  -- The lengths that are not plain to see.
  general_len : length general ≡ 128
  general_len = length-le_flat 8 block.regs ∙ ap (λ n. n * 8) h.regs_count

  st_len : length st ≡ 80
  st_len =
      length-joined block.st ∙ lengths-same 10 block.st h.st_arrays ∙ ap (λ n. n * 10) h.st_count

  xmm_len : length xmm ≡ 256
  xmm_len = length-le_flat 16 block.xmm ∙ ap (λ n. n * 16) h.xmm_count

  slice-general : slice 0x0 0x80 (joined sections) ≡ parsed general
  slice-general =
      slice_section 0x0 0x80 [] general
        (rip ∷ eflags ∷ segments ∷ st ∷ fpu ∷ xmm ∷ mxcsr ∷ padding ∷ []) refl
        (omega (arith, general_len))

  slice_rip : slice 0x80 0x88 (joined sections) ≡ parsed rip
  slice_rip =
      slice_section 0x80 0x88 (general ∷ []) rip
        (eflags ∷ segments ∷ st ∷ fpu ∷ xmm ∷ mxcsr ∷ padding ∷ []) (omega (arith, general_len))
        refl

  slice_eflags : slice 0x88 0x8c (joined sections) ≡ parsed eflags
  slice_eflags =
      slice_section 0x88 0x8c (general ∷ rip ∷ []) eflags
        (segments ∷ st ∷ fpu ∷ xmm ∷ mxcsr ∷ padding ∷ []) (omega (arith, general_len)) refl

  slice_segments : slice 0x8c 0xa4 (joined sections) ≡ parsed segments
  slice_segments =
      slice_section 0x8c 0xa4 first segments (st ∷ fpu ∷ xmm ∷ mxcsr ∷ padding ∷ [])
        (omega (arith, general_len)) refl

  slice_st : slice 0xa4 0xf4 (joined sections) ≡ parsed st
  slice_st =
      slice_section 0xa4 0xf4 (first ++ (segments ∷ [])) st (fpu ∷ xmm ∷ mxcsr ∷ padding ∷ [])
        (omega (arith, general_len)) (omega (arith, st_len))

  slice_fpu : slice 0xf4 0x114 (joined sections) ≡ parsed fpu
  slice_fpu =
      slice_section 0xf4 0x114 (first ++ (segments ∷ st ∷ [])) fpu (xmm ∷ mxcsr ∷ padding ∷ [])
        (omega (arith, general_len, st_len)) refl

  slice_xmm : slice 0x114 0x214 (joined sections) ≡ parsed xmm
  slice_xmm =
      slice_section 0x114 0x214 (first ++ (segments ∷ st ∷ fpu ∷ [])) xmm (mxcsr ∷ padding ∷ [])
        (omega (arith, general_len, st_len)) (omega (arith, xmm_len))

  slice_mxcsr : slice 0x214 0x218 (joined sections) ≡ parsed mxcsr
  slice_mxcsr =
      slice_section 0x214 0x218 (first ++ (segments ∷ st ∷ fpu ∷ xmm ∷ [])) mxcsr (padding ∷ [])
        (omega (arith, general_len, st_len, xmm_len)) refl

  words_read :
      (le_value rip ≡ block.rip) × (le_value eflags ≡ block.eflags) × (le_value mxcsr ≡ block.mxcsr)
  words_read = (
    le_value-le_bytes 8 block.rip h.rip_fits,
    le_value-le_bytes 4 block.eflags h.eflags_fits,
    le_value-le_bytes 4 block.mxcsr h.mxcsr_fits,
  )

  reads_all : read_sections (joined sections) ≡ parsed block
  unfolding read_sections
  reads_all = rw slice-general (
      rw (array_reads 8 16 (omega arith) block.regs h.regs_count h.regs_fit) (
        rw slice_rip (
          rw slice_eflags (
            rw slice_segments (
              rw (segments_read block.segments h.segments_fit) (
                rw slice_st (
                  rw (arrays-joined 10 8 block.st (omega arith) h.st_arrays h.st_count) (
                    rw slice_fpu (
                      rw (fpu_reads block.fpu h.fpu_fit) (
                        rw slice_xmm (
                          rw (array_reads 16 16 (omega arith) block.xmm h.xmm_count h.xmm_fit) (
                            rw slice_mxcsr
                              (rw (words_read.0, words_read.1, words_read.2) refl)))))))))))))

  enough : ltb (length (joined sections)) 0x218 ≡ false
  enough = ground (arith, length-joined sections, general_len, st_len, xmm_len)

-- The 64-bit registers of x86, written and with any byte in place of the padding, read back as they
-- were: every slice is the one that was written for it.
pub x86_64_gdb_deserialize-gdb_serialize :
    (pad : ℕ) (block : X86_64CoreRegs)
    → IsBlock block
    → gdb_deserialize (filled pad (gdb_serialize block)) ≡ parsed block
unfolding gdb_deserialize
x86_64_gdb_deserialize-gdb_serialize pad block h =
    ap gdb_deserialize (serialized pad block h) ∙ rw (enough pad block h) (reads_all pad block h)
