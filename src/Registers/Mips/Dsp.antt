-- ===== src/Registers/Mips/Dsp.antt =====
-- gdbstub_arch/src/mips/reg/mips.rs: the registers of MIPS with the DSP feature.
pub mod RoundTrip
use gdbstub.Prelude.{Bytes, length, ltb, if◌then◌else◌, ℕ, ◌+◌, ◌*◌, List, [], ◌∷◌, ◌++◌}
use gdbstub.LeBytes.{le_bytes}
use gdbstub.LeBytes.Value.{le_value}
use gdbstub.Registers.{
  Serial, written, flat, Parsed, parsed, failed, ◌>>=◌, slice, chunks_exact, checked_words,
  buffered,
}
use gdbstub.Registers.Reader.{read, next}
use gdbstub.Registers.Mips
use gdbstub.Registers.Mips.{MipsCoreRegs, MipsDspRegs, accumulator_regs}

pub record MipsCoreRegsWithDsp : Type 0 where
  pub core : MipsCoreRegs
  pub dsp : MipsDspRegs

abbrev pub accumulators : MipsDspRegs → List ℕ
accumulators dsp = dsp.hi1 ∷ dsp.lo1 ∷ dsp.hi2 ∷ dsp.lo2 ∷ dsp.hi3 ∷ dsp.lo3 ∷ []

unfoldable pub dsp_gdb_serialize : ℕ → MipsCoreRegsWithDsp → Serial
dsp_gdb_serialize size regs =
    Mips.gdb_serialize size regs.core
    ++ (written (flat (buffered size) (accumulators regs.dsp))
        ++ (written (le_bytes 4 regs.dsp.dspctl)
            ++ written (flat (buffered size) (regs.dsp.restart ∷ []))))

unfoldable pub read_dsp : ℕ → Bytes → Parsed MipsDspRegs
unfolding accumulator_regs
read_dsp size bytes = do
  before ← slice (size * 72) (size * 78) bytes
  dsp ← read accumulator_regs (checked_words size (chunks_exact size before))
  dspctl ← slice (size * 78) (size * 78 + 4) bytes
  behind ← slice (size * 78 + 4) (length bytes) bytes
  restart ← read next (checked_words size (chunks_exact size behind))
  parsed (dsp (le_value dspctl) restart)

unfoldable pub dsp_gdb_deserialize : ℕ → Bytes → Parsed MipsCoreRegsWithDsp
unfolding read_dsp
dsp_gdb_deserialize size bytes = do
  core ← Mips.gdb_deserialize size bytes
  dsp ← if ltb (length bytes) (size * 79 + 4) then failed else read_dsp size bytes
  parsed (record { core = core; dsp = dsp })
