-- ===== src/Tests/Registers/Wide.antt =====
-- gdbstub_arch/src/: the blocks of several sections at concrete contents.
use gdbstub.Prelude.{◌≡◌, refl, [], ◌∷◌, arith, replicate, length, Bytes}
use gdbstub.Tests.Registers.{All-replicate}
use gdbstub.Registers.Codec.{Fits}
use gdbstub.Registers.{filled, parsed}
use gdbstub.Registers.Mips.Dsp.{MipsCoreRegsWithDsp, dsp_gdb_serialize, dsp_gdb_deserialize}
use gdbstub.Registers.Mips.Dsp.RoundTrip.{mips_dsp_gdb_deserialize-gdb_serialize}
use gdbstub.Registers.Ppc
use gdbstub.Registers.Ppc.Fields.{PowerPcCommonRegs}
use gdbstub.Registers.Ppc.RoundTrip.{ppc_gdb_deserialize-gdb_serialize}
use gdbstub.Registers.X86.{X86SegmentRegs, X87FpuInternalRegs}
use gdbstub.Registers.X86.Core32
use gdbstub.Registers.X86.Core32.Fields.{X86CoreRegs}
use gdbstub.Registers.X86.Core32.RoundTrip.{x86_gdb_deserialize-gdb_serialize}
use gdbstub.Registers.X86.Core64
use gdbstub.Registers.X86.Core64.{X86_64CoreRegs}
use gdbstub.Registers.X86.Core64.RoundTrip.{x86_64_gdb_deserialize-gdb_serialize}

abbrev mips_regs : MipsCoreRegsWithDsp
mips_regs = record {
  core = record {
    r = replicate 32 0xbfc00000;
    lo = 1;
    hi = 2;
    pc = 0xbfc00380;
    cp0 = record { status = 0x400004; badvaddr = 3; cause = 0x24 };
    fpu = record { r = replicate 32 0x3f800000; fcsr = 4; fir = 5 };
  };
  dsp = record {
    hi1 = 6;
    lo1 = 7;
    hi2 = 8;
    lo2 = 9;
    hi3 = 10;
    lo3 = 11;
    dspctl = 12;
    restart = 13;
  };
}

mips_dsp_gdb_deserialize-gdb_serialize_example :
    dsp_gdb_deserialize 4 (filled 0 (dsp_gdb_serialize 4 mips_regs)) ≡ parsed mips_regs
mips_dsp_gdb_deserialize-gdb_serialize_example =
    mips_dsp_gdb_deserialize-gdb_serialize 4 0 mips_regs (omega arith) (omega arith) (record {
      core_block = record {
        count = refl;
        fpr_count = refl;
        r_fit = All-replicate (Fits 4) 32 0xbfc00000 (omega arith);
        middle_fit = (
          omega arith,
          (omega arith, (omega arith, (omega arith, (omega arith, (omega arith, tt))))),
        );
        fpr_fit = All-replicate (Fits 4) 32 0x3f800000 (omega arith);
        fpu_fit = (omega arith, (omega arith, tt));
      };
      accumulators_fit = (
        omega arith,
        (omega arith, (omega arith, (omega arith, (omega arith, (omega arith, tt))))),
      );
      dspctl_fits = omega arith;
      restart_fits = omega arith;
    })

abbrev ppc_regs : PowerPcCommonRegs
ppc_regs = record {
  r = replicate 32 0x12345678;
  f = replicate 32 0x3ff0000000000000;
  pc = 0x100;
  msr = 0x8000;
  cr = 1;
  lr = 2;
  ctr = 3;
  xer = 4;
  fpscr = 5;
  vr = replicate 32 0x0123456789abcdef;
  vscr = 6;
  vrsave = 7;
}

ppc_gdb_deserialize-gdb_serialize_example :
    Ppc.gdb_deserialize (filled 0 (Ppc.gdb_serialize ppc_regs)) ≡ parsed ppc_regs
ppc_gdb_deserialize-gdb_serialize_example = ppc_gdb_deserialize-gdb_serialize 0 ppc_regs (record {
  r_count = refl;
  f_count = refl;
  vr_count = refl;
  r_fit = All-replicate (Fits 4) 32 0x12345678 (omega arith);
  f_fit = All-replicate (Fits 8) 32 0x3ff0000000000000 (omega arith);
  control_fit = (
    omega arith,
    (omega arith, (omega arith, (omega arith, (omega arith, (omega arith, (omega arith, tt)))))),
  );
  vr_fit = All-replicate (Fits 16) 32 0x0123456789abcdef (omega arith);
  vector_control_fit = (omega arith, (omega arith, tt));
})

abbrev segments : X86SegmentRegs
segments = record { cs = 0x33; ss = 0x2b; ds = 0; es = 1; fs = 2; gs = 3 }

abbrev fpu : X87FpuInternalRegs
fpu = record {
  fctrl = 0x37f;
  fstat = 0;
  ftag = 0xffff;
  fiseg = 1;
  fioff = 2;
  foseg = 3;
  fooff = 4;
  fop = 5;
}

abbrev one : Bytes
one = 0 ∷ 0 ∷ 0 ∷ 0 ∷ 0 ∷ 0 ∷ 0 ∷ 0x80 ∷ 0xff ∷ 0x3f ∷ []

abbrev x86_regs : X86CoreRegs
x86_regs = record {
  eax = 1;
  ecx = 2;
  edx = 3;
  ebx = 4;
  esp = 0xbffff000;
  ebp = 6;
  esi = 7;
  edi = 8;
  eip = 0x8048000;
  eflags = 0x246;
  segments = segments;
  st = replicate 8 one;
  fpu = fpu;
  xmm = replicate 8 0x0123456789abcdef;
  mxcsr = 0x1f80;
}

x86_gdb_deserialize-gdb_serialize_example :
    Core32.gdb_deserialize (filled 0 (Core32.gdb_serialize x86_regs)) ≡ parsed x86_regs
x86_gdb_deserialize-gdb_serialize_example = x86_gdb_deserialize-gdb_serialize 0 x86_regs (record {
  general_fit = (
    omega arith,
    (
      omega arith,
      (
        omega arith,
        (
          omega arith,
          (
            omega arith,
            (omega arith, (omega arith, (omega arith, (omega arith, (omega arith, tt))))),
          ),
        ),
      ),
    ),
  );
  segments_fit =
      (omega arith, (omega arith, (omega arith, (omega arith, (omega arith, (omega arith, tt))))));
  st_count = refl;
  st_arrays = All-replicate (λ x. length x ≡ 10) 8 one refl;
  fpu_fit = (
    omega arith,
    (
      omega arith,
      (omega arith, (omega arith, (omega arith, (omega arith, (omega arith, (omega arith, tt)))))),
    ),
  );
  xmm_count = refl;
  xmm_fit = All-replicate (Fits 16) 8 0x0123456789abcdef (omega arith);
  mxcsr_fits = omega arith;
})

abbrev x86_64_regs : X86_64CoreRegs
x86_64_regs = record {
  regs = replicate 16 0x7fffffffe000;
  eflags = 0x246;
  rip = 0x401000;
  segments = segments;
  st = replicate 8 one;
  fpu = fpu;
  xmm = replicate 16 0x0123456789abcdef;
  mxcsr = 0x1f80;
}

x86_64_gdb_deserialize-gdb_serialize_example :
    Core64.gdb_deserialize (filled 0 (Core64.gdb_serialize x86_64_regs)) ≡ parsed x86_64_regs
x86_64_gdb_deserialize-gdb_serialize_example =
    x86_64_gdb_deserialize-gdb_serialize 0 x86_64_regs (record {
      regs_count = refl;
      regs_fit = All-replicate (Fits 8) 16 0x7fffffffe000 (omega arith);
      rip_fits = omega arith;
      eflags_fits = omega arith;
      segments_fit = (
        omega arith,
        (omega arith, (omega arith, (omega arith, (omega arith, (omega arith, tt))))),
      );
      st_count = refl;
      st_arrays = All-replicate (λ x. length x ≡ 10) 8 one refl;
      fpu_fit = (
        omega arith,
        (
          omega arith,
          (
            omega arith,
            (omega arith, (omega arith, (omega arith, (omega arith, (omega arith, tt))))),
          ),
        ),
      );
      xmm_count = refl;
      xmm_fit = All-replicate (Fits 16) 16 0x0123456789abcdef (omega arith);
      mxcsr_fits = omega arith;
    })
