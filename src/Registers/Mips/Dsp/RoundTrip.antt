-- ===== src/Registers/Mips/Dsp/RoundTrip.antt =====
-- gdbstub_arch/src/mips/reg/mips.rs: reading back the registers of MIPS with the DSP feature.
use gdbstub.Prelude.{
  ℕ, ◌<◌, ◌≤◌, ◌+◌, ◌*◌, ◌≡◌, refl, sym, ap, ◌∙◌, All, length, ltb, false, arith, [], ◌∷◌, ◌++◌,
  Bytes, append_assoc, append-nil, length-append,
}
use gdbstub.LeBytes.{le_bytes}
use gdbstub.LeBytes.Value.{length-le_bytes, le_value-le_bytes}
use gdbstub.Registers.{filled, flat, parsed, buffered, checked_words, chunks_exact, slice}
use gdbstub.Registers.Reader.{read, next}
use gdbstub.Registers.Codec.{
  Fits, WordCodec, checked_codec, words_by-flat, Fills-filled, length-flat, filled-written,
  filled-written_all,
}
use gdbstub.Registers.Sections.{filled-append, slice_here}
use gdbstub.Registers.Mips.{accumulator_regs, gdb_serialize}
use gdbstub.Registers.Mips.RoundTrip.{
  IsBlock, core_words, core-Fills, length-core_words, mips_gdb_deserialize-flat,
}
use gdbstub.Registers.Mips.Dsp.{
  MipsCoreRegsWithDsp, accumulators, dsp_gdb_serialize, read_dsp, dsp_gdb_deserialize,
}

-- What the types of the fields say.
pub record IsDspBlock (size : ℕ) (regs : MipsCoreRegsWithDsp) : Type 0 where
  pub core_block : IsBlock size regs.core
  pub accumulators_fit : All (Fits size) (accumulators regs.dsp)
  pub dspctl_fits : Fits 4 regs.dsp.dspctl
  pub restart_fits : Fits size regs.dsp.restart

module _ (size : ℕ) (regs : MipsCoreRegsWithDsp) (h : 0 < size) (wide : size ≤ 16)
    (block : IsDspBlock size regs) where
  abbrev codec : WordCodec size
  codec = checked_codec size h wide

  abbrev core_bytes : Bytes
  core_bytes = flat (buffered size) (core_words regs.core)

  abbrev before : Bytes
  before = flat (buffered size) (accumulators regs.dsp)

  abbrev dspctl_bytes : Bytes
  dspctl_bytes = le_bytes 4 regs.dsp.dspctl

  abbrev behind : Bytes
  behind = flat (buffered size) (regs.dsp.restart ∷ [])

  abbrev all_bytes : Bytes
  all_bytes = core_bytes ++ (before ++ (dspctl_bytes ++ behind))

  serialized : (pad : ℕ) → filled pad (dsp_gdb_serialize size regs) ≡ all_bytes
  unfolding dsp_gdb_serialize
  serialized pad =
      filled-append pad (gdb_serialize size regs.core) _
      ∙ rw
          (
            Fills-filled pad (buffered size) (core-Fills size regs.core pad),
            filled-written pad before _,
            filled-written pad dspctl_bytes _,
            filled-written_all pad behind,
          )
          refl

  length-core : length core_bytes ≡ size * 72
  length-core = omega (
    arith,
    length-flat (buffered size) size codec.length_of (core_words regs.core),
    ap (λ k. k * size) (length-core_words size regs.core block.core_block),
  )

  length-before : length before ≡ 6 * size
  length-before = length-flat (buffered size) size codec.length_of (accumulators regs.dsp)

  length-behind : length behind ≡ 1 * size
  length-behind = length-flat (buffered size) size codec.length_of (regs.dsp.restart ∷ [])

  slice-before : slice (size * 72) (size * 78) all_bytes ≡ parsed before
  slice-before =
      slice_here (size * 72) (size * 78) core_bytes before (dspctl_bytes ++ behind) length-core
        (omega (arith, length-before))

  length-front : length (core_bytes ++ before) ≡ size * 78
  length-front = omega (arith, length-append core_bytes before, length-core, length-before)

  regrouped : all_bytes ≡ (core_bytes ++ before) ++ (dspctl_bytes ++ behind)
  regrouped = sym (append_assoc core_bytes before (dspctl_bytes ++ behind))

  slice_dspctl : slice (size * 78) (size * 78 + 4) all_bytes ≡ parsed dspctl_bytes
  slice_dspctl =
      ap (slice (size * 78) (size * 78 + 4)) regrouped
      ∙ slice_here (size * 78) (size * 78 + 4) (core_bytes ++ before) dspctl_bytes behind
          length-front (omega (arith, length-le_bytes 4 regs.dsp.dspctl))

  regrouped_behind : all_bytes ≡ ((core_bytes ++ before) ++ dspctl_bytes) ++ (behind ++ [])
  regrouped_behind =
      regrouped
      ∙ sym (append_assoc (core_bytes ++ before) dspctl_bytes behind)
      ∙ ap (◌++◌ ((core_bytes ++ before) ++ dspctl_bytes)) (sym (append-nil behind))

  length-all : length all_bytes ≡ size * 79 + 4
  length-all =
      ap length regrouped
      ∙ omega (
        arith,
        length-append (core_bytes ++ before) (dspctl_bytes ++ behind),
        length-append dspctl_bytes behind,
        length-front,
        length-le_bytes 4 regs.dsp.dspctl,
        length-behind,
      )

  slice_behind : slice (size * 78 + 4) (length all_bytes) all_bytes ≡ parsed behind
  slice_behind =
      ap (slice (size * 78 + 4) (length all_bytes)) regrouped_behind
      ∙ slice_here (size * 78 + 4) (length all_bytes) ((core_bytes ++ before) ++ dspctl_bytes)
          behind []
          (omega (
            arith,
            length-append (core_bytes ++ before) dspctl_bytes,
            length-front,
            length-le_bytes 4 regs.dsp.dspctl,
          ))
          (omega (arith, length-behind, length-all))

  reads_before :
      read accumulator_regs (checked_words size (chunks_exact size before))
      ≡ parsed (λ dspctl restart. record regs.dsp { dspctl = dspctl; restart = restart })
  unfolding accumulator_regs
  reads_before =
      ap (read accumulator_regs)
        (words_by-flat codec (accumulators regs.dsp) block.accumulators_fit)

  reads_behind : read next (checked_words size (chunks_exact size behind)) ≡ parsed regs.dsp.restart
  reads_behind =
      ap (read next) (words_by-flat codec (regs.dsp.restart ∷ []) (block.restart_fits, tt))

  reads_dsp : read_dsp size all_bytes ≡ parsed regs.dsp
  unfolding read_dsp
  reads_dsp = rw slice-before (
      rw reads_before (
        rw slice_dspctl (
          rw slice_behind
            (rw reads_behind (rw (le_value-le_bytes 4 regs.dsp.dspctl block.dspctl_fits) refl)))))

  reads_all : dsp_gdb_deserialize size all_bytes ≡ parsed regs
  unfolding dsp_gdb_deserialize
  reads_all =
      let enough : ltb (length all_bytes) (size * 79 + 4) ≡ false = ground (arith, length-all) in
      rw
        (mips_gdb_deserialize-flat size regs.core block.core_block h wide
          (before ++ (dspctl_bytes ++ behind)))
        (rw enough (rw reads_dsp refl))

-- The registers of MIPS with the DSP feature, with words of up to 16 bytes, read back as they were
-- written: every slice is the one that was written for it.
pub mips_dsp_gdb_deserialize-gdb_serialize :
    (size pad : ℕ) (regs : MipsCoreRegsWithDsp)
    → 0 < size
    → size ≤ 16
    → IsDspBlock size regs
    → dsp_gdb_deserialize size (filled pad (dsp_gdb_serialize size regs)) ≡ parsed regs
mips_dsp_gdb_deserialize-gdb_serialize size pad regs h wide block =
    ap (dsp_gdb_deserialize size) (serialized size regs h wide block pad)
    ∙ reads_all size regs h wide block
