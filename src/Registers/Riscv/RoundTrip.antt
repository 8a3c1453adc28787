-- ===== src/Registers/Riscv/RoundTrip.antt =====
-- gdbstub_arch/src/riscv/reg/riscv.rs: reading back what is written.
use gdbstub.Prelude.{
  ℕ, ◌<◌, ◌≤◌, ◌≡◌, refl, ap, ◌∙◌, All, All-append, length, ◌%◌, ◌==◌, true, [], ◌∷◌, ◌++◌, map,
  some,
}
use mathlib.Core.List.{map-append}
use native.Mathlib.Nat.{mul-mod_left}
use gdbstub.Registers.{filled, flat, parsed, buffered}
use gdbstub.Registers.Reader.{continue, read, result}
use gdbstub.Registers.Codec.{
  Fits, checked_codec, words_by-flat, next_n-some, Fills, words, last, Fills-filled, length-flat,
}
use gdbstub.Registers.Riscv.{RiscvCoreRegs, gdb_serialize, riscv_regs, gdb_deserialize}

-- What the types of the fields say.
pub record IsBlock (size : ℕ) (regs : RiscvCoreRegs) : Type 0 where
  pub count : length regs.x ≡ 32
  pub x_fit : All (Fits size) regs.x
  pub pc_fits : Fits size regs.pc

reads :
    (regs : RiscvCoreRegs)
    → length regs.x ≡ 32
    → riscv_regs (map some (regs.x ++ (regs.pc ∷ []))) ≡ parsed (regs, [])
unfolding riscv_regs
reads regs count =
    ap riscv_regs (map-append some regs.x (regs.pc ∷ []))
    ∙ ap (continue _) (next_n-some 32 regs.x (some regs.pc ∷ []) count)

-- The registers of RISC-V, with words of up to 16 bytes, read back as they were written; no byte is
-- unavailable.
pub riscv_gdb_deserialize-gdb_serialize :
    (size pad : ℕ) (regs : RiscvCoreRegs)
    → 0 < size
    → size ≤ 16
    → IsBlock size regs
    → gdb_deserialize size (filled pad (gdb_serialize size regs)) ≡ parsed regs
unfolding gdb_deserialize gdb_serialize
riscv_gdb_deserialize-gdb_serialize size pad regs h wide block =
    let ws = regs.x ++ (regs.pc ∷ []) in
    let codec = checked_codec size h wide in
    let fills : Fills pad (buffered size) (gdb_serialize size regs) ws =
      words regs.x (last (regs.pc ∷ [])) in
    let whole : (length (flat (buffered size) ws) % size == 0) ≡ true =
      rw (length-flat (buffered size) size codec.length_of ws, mul-mod_left (length ws) size)
        refl in
    let fit = All-append (Fits size) regs.x (regs.pc ∷ []) block.x_fit (block.pc_fits, tt) in
    ap (gdb_deserialize size) (Fills-filled pad (buffered size) fills)
    ∙ rw whole
        (ap (read riscv_regs) (words_by-flat codec ws fit) ∙ ap result (reads regs block.count))
