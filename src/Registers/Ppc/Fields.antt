-- ===== src/Registers/Ppc/Fields.antt =====
-- gdbstub_arch/src/ppc/reg/common.rs: the fields of the registers, and reading those that have names.
use gdbstub.Prelude.{Bytes, ℕ, List, some}
use gdbstub.BeBytes.Value.{be_value}
use gdbstub.Registers.{Words, words_by}
use gdbstub.Registers.Reader.{Reader, ◌>>=◌, pure, next}

pub record PowerPcCommonRegs : Type 0 where
  pub r : List ℕ
  pub f : List ℕ
  pub pc : ℕ
  pub msr : ℕ
  pub cr : ℕ
  pub lr : ℕ
  pub ctr : ℕ
  pub xer : ℕ
  pub fpscr : ℕ
  pub vr : List ℕ
  pub vscr : ℕ
  pub vrsave : ℕ

-- `from_be_bytes` of the language.
abbrev pub be_words : List Bytes → Words
be_words = words_by (λ c. some (be_value 0 c))

-- The rest of the fields comes from other slices.
unfoldable pub control_regs : Reader (List ℕ → List ℕ → List ℕ → ℕ → ℕ → PowerPcCommonRegs)
control_regs = do
  pc ← next
  msr ← next
  cr ← next
  lr ← next
  ctr ← next
  xer ← next
  fpscr ← next
  pure λ r f vr vscr vrsave. record {
    r = r;
    f = f;
    pc = pc;
    msr = msr;
    cr = cr;
    lr = lr;
    ctr = ctr;
    xer = xer;
    fpscr = fpscr;
    vr = vr;
    vscr = vscr;
    vrsave = vrsave;
  }

unfoldable pub vector_control_regs : (ℕ → ℕ → PowerPcCommonRegs) → Reader PowerPcCommonRegs
vector_control_regs build = do vscr ← next; vrsave ← next; pure (build vscr vrsave)
