-- ===== src/Registers/X86/Core32/RoundTrip.antt =====
-- gdbstub_arch/src/x86/reg/core32.rs: reading back what is written.
use gdbstub.Prelude.{
  ℕ, ◌≡◌, refl, ap, ◌∙◌, All, length, ltb, false, arith, List, [], ◌∷◌, ◌*◌, Bytes, replicate,
}
use gdbstub.LeBytes.{le_bytes}
use gdbstub.LeBytes.Value.{le_value-le_bytes}
use gdbstub.Registers.{filled, le_flat, parsed, slice, chunks_exact, le_words}
use gdbstub.Registers.Reader.{read}
use gdbstub.Registers.Codec.{Fits, le_codec, words_by-flat}
use gdbstub.Registers.Sections.{
  joined, length-joined, slice_section, filled-padded_sections, arrays-joined, lengths-same,
}
use gdbstub.Registers.X86.{segment_fields, fpu_fields}
use gdbstub.Registers.X86.Blocks.{length-le_flat, fpu_reads, segments_read, array_reads}
use gdbstub.Registers.X86.Core32.Fields.{X86CoreRegs, general_fields, general_regs}
use gdbstub.Registers.X86.Core32.{gdb_serialize, read_sections, gdb_deserialize}

-- What the types of the fields say.
pub record IsBlock (regs : X86CoreRegs) : Type 0 where
  pub general_fit : All (Fits 4) (general_fields regs)
  pub segments_fit : All (Fits 4) (segment_fields regs.segments)
  pub st_count : length regs.st ≡ 8
  pub st_arrays : All (λ x. length x ≡ 10) regs.st
  pub fpu_fit : All (Fits 4) (fpu_fields regs.fpu)
  pub xmm_count : length regs.xmm ≡ 8
  pub xmm_fit : All (Fits 16) regs.xmm
  pub mxcsr_fits : Fits 4 regs.mxcsr

module _ (pad : ℕ) (regs : X86CoreRegs) (block : IsBlock regs) where
  abbrev general : Bytes
  general = le_flat 4 (general_fields regs)

  abbrev segments : Bytes
  segments = le_flat 4 (segment_fields regs.segments)

  abbrev st : Bytes
  st = joined regs.st

  abbrev fpu : Bytes
  fpu = le_flat 4 (fpu_fields regs.fpu)

  abbrev xmm : Bytes
  xmm = le_flat 16 regs.xmm

  abbrev mxcsr : Bytes
  mxcsr = le_bytes 4 regs.mxcsr

  abbrev padding : Bytes
  padding = replicate 4 pad

  abbrev sections : List Bytes
  sections = general ∷ segments ∷ st ∷ fpu ∷ xmm ∷ mxcsr ∷ padding ∷ []

  serialized : filled pad (gdb_serialize regs) ≡ joined sections
  unfolding gdb_serialize
  serialized = filled-padded_sections pad (general ∷ segments ∷ st ∷ fpu ∷ xmm ∷ mxcsr ∷ []) 4

  -- The lengths that are not plain to see.
  st_len : length st ≡ 80
  st_len =
      length-joined regs.st
      ∙ lengths-same 10 regs.st block.st_arrays
      ∙ ap (λ n. n * 10) block.st_count

  xmm_len : length xmm ≡ 128
  xmm_len = length-le_flat 16 regs.xmm ∙ ap (λ n. n * 16) block.xmm_count

  slice-general : slice 0x0 0x28 (joined sections) ≡ parsed general
  slice-general =
      slice_section 0x0 0x28 [] general (segments ∷ st ∷ fpu ∷ xmm ∷ mxcsr ∷ padding ∷ []) refl refl

  slice_segments : slice 0x28 0x40 (joined sections) ≡ parsed segments
  slice_segments =
      slice_section 0x28 0x40 (general ∷ []) segments (st ∷ fpu ∷ xmm ∷ mxcsr ∷ padding ∷ []) refl
        refl

  slice_st : slice 0x40 0x90 (joined sections) ≡ parsed st
  slice_st =
      slice_section 0x40 0x90 (general ∷ segments ∷ []) st (fpu ∷ xmm ∷ mxcsr ∷ padding ∷ []) refl
        (omega (arith, st_len))

  slice_fpu : slice 0x90 0xb0 (joined sections) ≡ parsed fpu
  slice_fpu =
      slice_section 0x90 0xb0 (general ∷ segments ∷ st ∷ []) fpu (xmm ∷ mxcsr ∷ padding ∷ [])
        (omega (arith, st_len)) refl

  slice_xmm : slice 0xb0 0x130 (joined sections) ≡ parsed xmm
  slice_xmm =
      slice_section 0xb0 0x130 (general ∷ segments ∷ st ∷ fpu ∷ []) xmm (mxcsr ∷ padding ∷ [])
        (omega (arith, st_len)) (omega (arith, xmm_len))

  slice_mxcsr : slice 0x130 0x134 (joined sections) ≡ parsed mxcsr
  slice_mxcsr =
      slice_section 0x130 0x134 (general ∷ segments ∷ st ∷ fpu ∷ xmm ∷ []) mxcsr (padding ∷ [])
        (omega (arith, st_len, xmm_len)) refl

  reads_general :
      read general_regs (le_words (chunks_exact 4 general))
      ≡ parsed (λ segments st fpu xmm mxcsr. record regs {
        segments = segments;
        st = st;
        fpu = fpu;
        xmm = xmm;
        mxcsr = mxcsr;
      })
  unfolding general_regs
  reads_general =
      ap (read general_regs)
        (words_by-flat (le_codec 4 (omega arith)) (general_fields regs) block.general_fit)

  reads_all : read_sections (joined sections) ≡ parsed regs
  unfolding read_sections
  reads_all = rw slice-general (
      rw reads_general (
        rw slice_segments (
          rw (segments_read regs.segments block.segments_fit) (
            rw slice_st (
              rw (arrays-joined 10 8 regs.st (omega arith) block.st_arrays block.st_count) (
                rw slice_fpu (
                  rw (fpu_reads regs.fpu block.fpu_fit) (
                    rw slice_xmm (
                      rw (array_reads 16 8 (omega arith) regs.xmm block.xmm_count block.xmm_fit) (
                        rw slice_mxcsr
                          (rw (le_value-le_bytes 4 regs.mxcsr block.mxcsr_fits) refl)))))))))))

  enough : ltb (length (joined sections)) 0x138 ≡ false
  enough = ground (arith, length-joined sections, st_len, xmm_len)

-- The 32-bit registers of x86, written and with any byte in place of the padding, read back as they
-- were: every slice is the one that was written for it.
pub x86_gdb_deserialize-gdb_serialize :
    (pad : ℕ) (regs : X86CoreRegs)
    → IsBlock regs
    → gdb_deserialize (filled pad (gdb_serialize regs)) ≡ parsed regs
unfolding gdb_deserialize
x86_gdb_deserialize-gdb_serialize pad regs block =
    ap gdb_deserialize (serialized pad regs block)
    ∙ rw (enough pad regs block) (reads_all pad regs block)
