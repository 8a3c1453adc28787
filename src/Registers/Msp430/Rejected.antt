-- ===== src/Registers/Msp430/Rejected.antt =====
-- gdbstub_arch/src/msp430/reg/msp430.rs: reading what is written.
use gdbstub.Prelude.{
  ℕ, ◌<◌, ◌≡◌, refl, ap, ◌∙◌, All, length, ◌%◌, ◌==◌, true, arith, replicate, List, [], ◌∷◌, ◌++◌,
  map, some, Bool-cases, inl, inr, suc, zero,
}
use gdbstub.LeBytes.{le_bytes}
use gdbstub.LeBytes.Value.{length-le_bytes}
use gdbstub.Registers.{filled, le_flat, failed, parsed}
use gdbstub.Registers.Reader.{continue, next_n, read, result, pure}
use gdbstub.Registers.Codec.{
  Fits, le_codec, words_by-flat, pad_word, pad_word-Fits, length-flat, Fills, words, gap, last,
  replicate-le_flat, Fills-filled,
}
use gdbstub.Registers.Msp430.{Msp430Regs, gdb_serialize, msp430_regs, gdb_deserialize}

-- What the types of the fields say.
pub record IsBlock (regs : Msp430Regs) : Type 0 where
  pub count : length regs.r ≡ 11
  pub r_fit : All (Fits 2) regs.r
  pub pc_fits : Fits 2 regs.pc
  pub sp_fits : Fits 2 regs.sp
  pub sr_fits : Fits 2 regs.sr

module _ (pad : ℕ) (regs : Msp430Regs) where
  abbrev all_words : List ℕ
  all_words = (regs.pc ∷ regs.sp ∷ regs.sr ∷ []) ++ (replicate 2 (pad_word pad 2) ++ regs.r)

  fills : pad < 256 → Fills pad (le_bytes 2) (gdb_serialize regs) all_words
  unfolding gdb_serialize
  fills h =
      words (regs.pc ∷ regs.sp ∷ regs.sr ∷ [])
        (gap 4 2 (pad_word pad 2) (replicate-le_flat pad 2 2 h) (last regs.r))

-- One word is left of a list that is longer by one than what is read.
next_n-leaves :
    (n : ℕ) (xs : List ℕ)
    → length xs ≡ suc n
    → (ys : List ℕ) × (x : ℕ) × (next_n n (map some xs) ≡ parsed (ys, some x ∷ []))
next_n-leaves n [] e = absurd (omega arith)
next_n-leaves zero (x ∷ []) e = ([], x, refl)
next_n-leaves zero (x ∷ y ∷ xs) e = absurd (omega arith)
next_n-leaves (suc n) (y ∷ xs) e =
    let (ys, x, reads) = next_n-leaves n xs (omega arith) in
    (y ∷ ys, x, ap (continue (λ rest. pure (y ∷ rest))) reads)

reads :
    (pad : ℕ) (regs : Msp430Regs)
    → length regs.r ≡ 11
    → msp430_regs (map some (all_words pad regs)) ≡ failed
unfolding msp430_regs
reads pad regs count =
    let (ys, x, leaves) = next_n-leaves 11 (pad_word pad 2 ∷ regs.r) (omega arith) in
    elim (Bool-cases (pad_word pad 2 == 0)) [
      | inl zeros ↦ rw zeros (ap (continue _) leaves)
      | inr other ↦ rw other refl
    ]

-- What the MSP430 registers are written as is always refused, whatever stands for the unavailable
-- bytes: it has a word more than is read.
pub msp430_gdb_deserialize-gdb_serialize :
    (pad : ℕ) (regs : Msp430Regs)
    → pad < 256
    → IsBlock regs
    → gdb_deserialize (filled pad (gdb_serialize regs)) ≡ failed
unfolding gdb_deserialize
msp430_gdb_deserialize-gdb_serialize pad regs h block =
    let ws = all_words pad regs in
    let whole : (length (le_flat 2 ws) % 2 == 0) ≡ true =
      ground (arith, length-flat (le_bytes 2) 2 (length-le_bytes 2) ws) in
    let p = pad_word-Fits pad 2 h in
    let fit : All (Fits 2) ws =
      (block.pc_fits, (block.sp_fits, (block.sr_fits, (p, (p, block.r_fit))))) in
    ap gdb_deserialize (Fills-filled pad (le_bytes 2) (fills pad regs h))
    ∙ rw whole (
        ap (read msp430_regs) (words_by-flat (le_codec 2 (omega arith)) ws fit)
        ∙ ap result (reads pad regs block.count))
