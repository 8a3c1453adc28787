-- ===== src/Registers/X86/Core32/Fields.antt =====
-- gdbstub_arch/src/x86/reg/core32.rs: the fields of the registers, and reading the general ones.
use gdbstub.Prelude.{Bytes, ℕ, List, [], ◌∷◌}
use gdbstub.Registers.Reader.{Reader, ◌>>=◌, pure, next}
use gdbstub.Registers.X86.{X86SegmentRegs, X87FpuInternalRegs}

pub record X86CoreRegs : Type 0 where
  pub eax : ℕ
  pub ecx : ℕ
  pub edx : ℕ
  pub ebx : ℕ
  pub esp : ℕ
  pub ebp : ℕ
  pub esi : ℕ
  pub edi : ℕ
  pub eip : ℕ
  pub eflags : ℕ
  pub segments : X86SegmentRegs
  pub st : List Bytes
  pub fpu : X87FpuInternalRegs
  pub xmm : List ℕ
  pub mxcsr : ℕ

abbrev pub general_fields : X86CoreRegs → List ℕ
general_fields regs =
    regs.eax ∷ regs.ecx ∷ regs.edx ∷ regs.ebx ∷ regs.esp ∷ regs.ebp ∷ regs.esi ∷ regs.edi ∷ regs.eip
    ∷ regs.eflags ∷ []

-- The other fields come from other slices.
unfoldable pub general_regs :
    Reader (X86SegmentRegs → List Bytes → X87FpuInternalRegs → List ℕ → ℕ → X86CoreRegs)
general_regs = do
  eax ← next
  ecx ← next
  edx ← next
  ebx ← next
  esp ← next
  ebp ← next
  esi ← next
  edi ← next
  eip ← next
  eflags ← next
  pure λ segments st fpu xmm mxcsr. record {
    eax = eax;
    ecx = ecx;
    edx = edx;
    ebx = ebx;
    esp = esp;
    ebp = ebp;
    esi = esi;
    edi = edi;
    eip = eip;
    eflags = eflags;
    segments = segments;
    st = st;
    fpu = fpu;
    xmm = xmm;
    mxcsr = mxcsr;
  }
