-- ===== src/Registers/Mips.antt =====
-- gdbstub_arch/src/mips/reg/mips.rs: the registers of MIPS, for words of `size` bytes.
pub mod Dsp
pub mod Ids
pub mod RoundTrip
use gdbstub.Prelude.{Bytes, length, ltb, if◌then◌else◌, ℕ, ◌*◌, List, [], ◌∷◌, ◌++◌}
use gdbstub.Registers.{Serial, written, flat, Parsed, failed, chunks_exact, checked_words, buffered}
use gdbstub.Registers.Reader.{Reader, ◌>>=◌, pure, next, next_n, read}

pub record MipsCp0Regs : Type 0 where
  pub status : ℕ
  pub badvaddr : ℕ
  pub cause : ℕ

pub record MipsFpuRegs : Type 0 where
  pub r : List ℕ
  pub fcsr : ℕ
  pub fir : ℕ

pub record MipsCoreRegs : Type 0 where
  pub r : List ℕ
  pub lo : ℕ
  pub hi : ℕ
  pub pc : ℕ
  pub cp0 : MipsCp0Regs
  pub fpu : MipsFpuRegs

-- The registers 32 to 37.
abbrev pub middle : MipsCoreRegs → List ℕ
middle regs =
    regs.cp0.status ∷ regs.lo ∷ regs.hi ∷ regs.cp0.badvaddr ∷ regs.cp0.cause ∷ regs.pc ∷ []

unfoldable pub gdb_serialize : ℕ → MipsCoreRegs → Serial
gdb_serialize size regs =
    written (flat (buffered size) regs.r)
    ++ (written (flat (buffered size) (middle regs))
        ++ (written (flat (buffered size) regs.fpu.r)
            ++ written (flat (buffered size) (regs.fpu.fcsr ∷ regs.fpu.fir ∷ []))))

unfoldable pub mips_regs : Reader MipsCoreRegs
mips_regs = do
  r ← next_n 32
  status ← next
  lo ← next
  hi ← next
  badvaddr ← next
  cause ← next
  pc ← next
  fpr ← next_n 32
  fcsr ← next
  fir ← next
  pure (record {
    r = r;
    lo = lo;
    hi = hi;
    pc = pc;
    cp0 = record { status = status; badvaddr = badvaddr; cause = cause };
    fpu = record { r = fpr; fcsr = fcsr; fir = fir };
  })

-- What is behind the 72 registers is ignored.
unfoldable pub gdb_deserialize : ℕ → Bytes → Parsed MipsCoreRegs
gdb_deserialize size bytes =
    if ltb (length bytes) (size * 72)
    then failed
    else read mips_regs (checked_words size (chunks_exact size bytes))

-- `dspctl` has 32 bits at every word size.
pub record MipsDspRegs : Type 0 where
  pub hi1 : ℕ
  pub lo1 : ℕ
  pub hi2 : ℕ
  pub lo2 : ℕ
  pub hi3 : ℕ
  pub lo3 : ℕ
  pub dspctl : ℕ
  pub restart : ℕ

-- The registers before `dspctl`; that and the one behind it come later.
unfoldable pub accumulator_regs : Reader (ℕ → ℕ → MipsDspRegs)
accumulator_regs = do
  hi1 ← next
  lo1 ← next
  hi2 ← next
  lo2 ← next
  hi3 ← next
  lo3 ← next
  pure λ dspctl restart. record {
    hi1 = hi1;
    lo1 = lo1;
    hi2 = hi2;
    lo2 = lo2;
    hi3 = hi3;
    lo3 = lo3;
    dspctl = dspctl;
    restart = restart;
  }
