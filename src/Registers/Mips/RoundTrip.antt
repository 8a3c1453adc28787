-- ===== src/Registers/Mips/RoundTrip.antt =====
-- gdbstub_arch/src/mips/reg/mips.rs: reading back the core registers.
use gdbstub.Prelude.{
  ℕ, ◌<◌, ◌≤◌, ◌≡◌, sym, ap, ◌∙◌, All, All-append, length, ◌*◌, ltb, false, arith, List, [], ◌∷◌,
  ◌++◌, Bytes, map, some, append_assoc, append-nil, length-append,
}
use mathlib.Core.List.{map-append}
use gdbstub.Registers.{filled, flat, parsed, buffered, checked_words, chunks_exact, Words}
use gdbstub.Registers.Reader.{continue, read, result}
use gdbstub.Registers.Codec.{
  Fits, checked_codec, words_by-flat_tail, next_n-some, Fills, words, last, Fills-filled,
  length-flat,
}
use gdbstub.Registers.Mips.{MipsCoreRegs, middle, gdb_serialize, mips_regs, gdb_deserialize}

-- What the types of the fields say.
pub record IsBlock (size : ℕ) (regs : MipsCoreRegs) : Type 0 where
  pub count : length regs.r ≡ 32
  pub fpr_count : length regs.fpu.r ≡ 32
  pub r_fit : All (Fits size) regs.r
  pub middle_fit : All (Fits size) (middle regs)
  pub fpr_fit : All (Fits size) regs.fpu.r
  pub fpu_fit : All (Fits size) (regs.fpu.fcsr ∷ regs.fpu.fir ∷ [])

abbrev pub core_words : MipsCoreRegs → List ℕ
core_words regs = regs.r ++ (middle regs ++ (regs.fpu.r ++ (regs.fpu.fcsr ∷ regs.fpu.fir ∷ [])))

module _ (size : ℕ) (regs : MipsCoreRegs) where
  pub core-Fills : (pad : ℕ) → Fills pad (buffered size) (gdb_serialize size regs) (core_words regs)
  unfolding gdb_serialize
  core-Fills pad =
      words regs.r
        (words (middle regs) (words regs.fpu.r (last (regs.fpu.fcsr ∷ regs.fpu.fir ∷ []))))

  module _ (block : IsBlock size regs) where
    pub length-core_words : length (core_words regs) ≡ 72
    length-core_words = omega (
      arith,
      block.count,
      block.fpr_count,
      length-append regs.r (middle regs ++ (regs.fpu.r ++ (regs.fpu.fcsr ∷ regs.fpu.fir ∷ []))),
      length-append regs.fpu.r (regs.fpu.fcsr ∷ regs.fpu.fir ∷ []),
    )

    core_fit : All (Fits size) (core_words regs)
    core_fit = All-append (Fits size) regs.r _ block.r_fit (
        All-append (Fits size) (middle regs) _ block.middle_fit
          (All-append (Fits size) regs.fpu.r _ block.fpr_fit block.fpu_fit))

    reads : (rest : Words) → mips_regs (map some (core_words regs) ++ rest) ≡ parsed (regs, rest)
    unfolding mips_regs
    reads rest =
        let fpu : Words = some regs.fpu.fcsr ∷ some regs.fpu.fir ∷ rest in
        let behind : Words = map some (middle regs) ++ (map some regs.fpu.r ++ fpu) in
        let opened : map some (core_words regs) ++ rest ≡ map some regs.r ++ behind =
          simp (map-append, append_assoc) in
        ap mips_regs opened
        ∙ ap (continue _) (next_n-some 32 regs.r behind block.count)
        ∙ ap (continue _) (next_n-some 32 regs.fpu.r fpu block.fpr_count)

    -- Whatever is behind them does not matter.
    pub mips_gdb_deserialize-flat :
        0 < size
        → size ≤ 16
        → (tail : Bytes)
        → gdb_deserialize size (flat (buffered size) (core_words regs) ++ tail) ≡ parsed regs
    unfolding gdb_deserialize
    mips_gdb_deserialize-flat h wide tail =
        let codec = checked_codec size h wide in
        let ws = core_words regs in
        let len : length (flat (buffered size) ws) ≡ 72 * size =
          length-flat (buffered size) size codec.length_of ws
          ∙ ap (λ k. k * size) length-core_words in
        let enough : ltb (length (flat (buffered size) ws ++ tail)) (size * 72) ≡ false =
          ground (arith, length-append (flat (buffered size) ws) tail) in
        rw enough (
          ap (read mips_regs) (words_by-flat_tail codec ws tail core_fit)
          ∙ ap result (reads (checked_words size (chunks_exact size tail))))

-- The core registers of MIPS, with words of up to 16 bytes, read back as they were written; no byte is
-- unavailable.
pub mips_gdb_deserialize-gdb_serialize :
    (size pad : ℕ) (regs : MipsCoreRegs)
    → 0 < size
    → size ≤ 16
    → IsBlock size regs
    → gdb_deserialize size (filled pad (gdb_serialize size regs)) ≡ parsed regs
mips_gdb_deserialize-gdb_serialize size pad regs h wide block =
    ap (gdb_deserialize size)
      (Fills-filled pad (buffered size) (core-Fills size regs pad) ∙ sym (append-nil _))
    ∙ mips_gdb_deserialize-flat size regs block h wide []
