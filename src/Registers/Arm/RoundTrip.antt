-- ===== src/Registers/Arm/RoundTrip.antt =====
-- gdbstub_arch/src/arm/reg/arm_core.rs: reading back what is written.
use gdbstub.Prelude.{
  ℕ, ◌<◌, ◌≡◌, ap, ◌∙◌, All, All-append, length, ◌%◌, ◌*◌, ◌==◌, true, arith, replicate, List, [],
  ◌∷◌, ◌++◌, map, some,
}
use mathlib.Core.List.{map-append}
use gdbstub.LeBytes.{le_bytes}
use gdbstub.LeBytes.Value.{length-le_bytes}
use gdbstub.Registers.{filled, le_flat, parsed}
use gdbstub.Registers.Reader.{continue, read, result}
use gdbstub.Registers.Codec.{
  Fits, le_codec, words_by-flat, next_n-some, pad_word, pad_word-Fits, All-replicate, Fills, words,
  gap, last, replicate-le_flat, Fills-filled, length-flat,
}
use gdbstub.Registers.Arm.{ArmCoreRegs, gdb_serialize, arm_regs, gdb_deserialize}

-- What the types of the fields say.
pub record IsBlock (regs : ArmCoreRegs) : Type 0 where
  pub count : length regs.r ≡ 13
  pub r_fit : All (Fits 4) regs.r
  pub sp_fits : Fits 4 regs.sp
  pub lr_fits : Fits 4 regs.lr
  pub pc_fits : Fits 4 regs.pc
  pub cpsr_fits : Fits 4 regs.cpsr

module _ (pad : ℕ) (regs : ArmCoreRegs) where
  -- The words behind the general purpose registers, and all words.
  abbrev others : List ℕ
  others = (regs.sp ∷ regs.lr ∷ regs.pc ∷ []) ++ (replicate 25 (pad_word pad 4) ++ (regs.cpsr ∷ []))

  fills : pad < 256 → Fills pad (le_bytes 4) (gdb_serialize regs) (regs.r ++ others)
  unfolding gdb_serialize
  fills h = words regs.r (
      words (regs.sp ∷ regs.lr ∷ regs.pc ∷ [])
        (gap (25 * 4) 25 (pad_word pad 4) (replicate-le_flat pad 4 25 h) (last (regs.cpsr ∷ []))))

  module _ (block : IsBlock regs) where
    reads : arm_regs (map some (regs.r ++ others)) ≡ parsed (regs, [])
    unfolding arm_regs
    reads =
        ap arm_regs (map-append some regs.r others)
        ∙ ap (continue _) (next_n-some 13 regs.r (map some others) block.count)

    fit : pad < 256 → All (Fits 4) (regs.r ++ others)
    fit h = All-append (Fits 4) regs.r others block.r_fit (
      block.sp_fits,
      (
        block.lr_fits,
        (
          block.pc_fits,
          (All-append (Fits 4) (replicate 25 (pad_word pad 4)) (regs.cpsr ∷ [])
              (All-replicate (Fits 4) 25 (pad_word pad 4) (pad_word-Fits pad 4 h))
              (block.cpsr_fits, tt)),
        ),
      ),
    )

-- The registers of ARM, written and with any byte in place of the unavailable ones, read back as they
-- were.
pub arm_gdb_deserialize-gdb_serialize :
    (pad : ℕ) (regs : ArmCoreRegs)
    → pad < 256
    → IsBlock regs
    → gdb_deserialize (filled pad (gdb_serialize regs)) ≡ parsed regs
unfolding gdb_deserialize
arm_gdb_deserialize-gdb_serialize pad regs h block =
    let ws = regs.r ++ others pad regs in
    let whole : (length (le_flat 4 ws) % 4 == 0) ≡ true =
      ground (arith, length-flat (le_bytes 4) 4 (length-le_bytes 4) ws) in
    ap gdb_deserialize (Fills-filled pad (le_bytes 4) (fills pad regs h))
    ∙ rw whole (
        ap (read arm_regs) (words_by-flat (le_codec 4 (omega arith)) ws (fit pad regs block h))
        ∙ ap result (reads pad regs block))
