-- ===== src/Registers/Ppc/RoundTrip.antt =====
-- gdbstub_arch/src/ppc/reg/common.rs: reading back what is written.
use gdbstub.Prelude.{
  ℕ, ◌<◌, ◌≡◌, refl, ap, ◌∙◌, All, length, ltb, false, arith, List, [], ◌∷◌, ◌*◌, Bytes, map, some,
  append-nil, sym,
}
use gdbstub.BeBytes.{be_bytes}
use gdbstub.BeBytes.Value.{be_value, length-be_bytes, be_value-be_bytes}
use gdbstub.Registers.{filled, flat, parsed, slice, chunks_exact}
use gdbstub.Registers.Reader.{read, result, next_n}
use gdbstub.Registers.Codec.{Fits, WordCodec, words_by-flat, next_n-some, length-flat}
use gdbstub.Registers.Sections.{joined, length-joined, slice_section, filled-written_sections}
use gdbstub.Registers.Ppc.Fields.{PowerPcCommonRegs, be_words, control_regs, vector_control_regs}
use gdbstub.Registers.Ppc.{gdb_serialize, read_sections, gdb_deserialize}

abbrev be_codec : (size : ℕ) → 0 < size → WordCodec size
be_codec size h = record {
  bytes_of = be_bytes size;
  value_of = λ c. some (be_value 0 c);
  positive = h;
  length_of = length-be_bytes size;
  value_lem = λ w fits. ap some (be_value-be_bytes size w fits);
}

abbrev control : PowerPcCommonRegs → List ℕ
control regs = regs.pc ∷ regs.msr ∷ regs.cr ∷ regs.lr ∷ regs.ctr ∷ regs.xer ∷ regs.fpscr ∷ []

abbrev vector_control : PowerPcCommonRegs → List ℕ
vector_control regs = regs.vscr ∷ regs.vrsave ∷ []

-- What the types of the fields say.
pub record IsBlock (regs : PowerPcCommonRegs) : Type 0 where
  pub r_count : length regs.r ≡ 32
  pub f_count : length regs.f ≡ 32
  pub vr_count : length regs.vr ≡ 32
  pub r_fit : All (Fits 4) regs.r
  pub f_fit : All (Fits 8) regs.f
  pub control_fit : All (Fits 4) (control regs)
  pub vr_fit : All (Fits 16) regs.vr
  pub vector_control_fit : All (Fits 4) (vector_control regs)

-- A section of 32 registers.
reads_array :
    (size : ℕ) (h : 0 < size) (ws : List ℕ)
    → length ws ≡ 32
    → All (Fits size) ws
    → read (next_n 32) (be_words (chunks_exact size (flat (be_bytes size) ws))) ≡ parsed ws
reads_array size h ws count fit =
    ap (read (next_n 32)) (words_by-flat (be_codec size h) ws fit)
    ∙ ap (λ xs. read (next_n 32) xs) (sym (append-nil (map some ws)))
    ∙ ap result (next_n-some 32 ws [] count)

module _ (regs : PowerPcCommonRegs) (block : IsBlock regs) where
  abbrev r_bytes : Bytes
  r_bytes = flat (be_bytes 4) regs.r

  abbrev f_bytes : Bytes
  f_bytes = flat (be_bytes 8) regs.f

  abbrev control_bytes : Bytes
  control_bytes = flat (be_bytes 4) (control regs)

  abbrev vr_bytes : Bytes
  vr_bytes = flat (be_bytes 16) regs.vr

  abbrev vector_control_bytes : Bytes
  vector_control_bytes = flat (be_bytes 4) (vector_control regs)

  abbrev sections : List Bytes
  sections = r_bytes ∷ f_bytes ∷ control_bytes ∷ vr_bytes ∷ vector_control_bytes ∷ []

  serialized : (pad : ℕ) → filled pad (gdb_serialize regs) ≡ joined sections
  unfolding gdb_serialize
  serialized pad = filled-written_sections pad sections

  array_len :
      (size : ℕ) (ws : List ℕ) → length ws ≡ 32 → length (flat (be_bytes size) ws) ≡ 32 * size
  array_len size ws count =
      length-flat (be_bytes size) size (length-be_bytes size) ws ∙ ap (λ k. k * size) count

  -- The lengths of the sections before the last one.
  r_len : length r_bytes ≡ 128
  r_len = array_len 4 regs.r block.r_count

  f_len : length f_bytes ≡ 256
  f_len = array_len 8 regs.f block.f_count

  control_len : length control_bytes ≡ 28
  control_len = length-flat (be_bytes 4) 4 (length-be_bytes 4) (control regs)

  vr_len : length vr_bytes ≡ 512
  vr_len = array_len 16 regs.vr block.vr_count

  vector_control_len : length vector_control_bytes ≡ 8
  vector_control_len = length-flat (be_bytes 4) 4 (length-be_bytes 4) (vector_control regs)

  abbrev after_r : List Bytes
  after_r = f_bytes ∷ control_bytes ∷ vr_bytes ∷ vector_control_bytes ∷ []

  slice_r : slice 0x0 0x80 (joined sections) ≡ parsed r_bytes
  slice_r = slice_section 0x0 0x80 [] r_bytes after_r refl (omega (arith, r_len))

  slice_f : slice 0x80 0x180 (joined sections) ≡ parsed f_bytes
  slice_f =
      slice_section 0x80 0x180 (r_bytes ∷ []) f_bytes
        (control_bytes ∷ vr_bytes ∷ vector_control_bytes ∷ []) (omega (arith, r_len))
        (omega (arith, f_len))

  slice_control : slice 0x180 0x19c (joined sections) ≡ parsed control_bytes
  slice_control =
      slice_section 0x180 0x19c (r_bytes ∷ f_bytes ∷ []) control_bytes
        (vr_bytes ∷ vector_control_bytes ∷ []) (omega (arith, r_len, f_len))
        (omega (arith, control_len))

  slice_vr : slice 0x19c 0x39c (joined sections) ≡ parsed vr_bytes
  slice_vr =
      slice_section 0x19c 0x39c (r_bytes ∷ f_bytes ∷ control_bytes ∷ []) vr_bytes
        (vector_control_bytes ∷ []) (omega (arith, r_len, f_len, control_len))
        (omega (arith, vr_len))

  slice_vector_control : slice 0x39c 0x3a4 (joined sections) ≡ parsed vector_control_bytes
  slice_vector_control =
      slice_section 0x39c 0x3a4 (r_bytes ∷ f_bytes ∷ control_bytes ∷ vr_bytes ∷ [])
        vector_control_bytes [] (omega (arith, r_len, f_len, control_len, vr_len))
        (omega (arith, vector_control_len))

  reads_control :
      read control_regs (be_words (chunks_exact 4 control_bytes))
      ≡ parsed (λ r f vr vscr vrsave. record regs {
        r = r;
        f = f;
        vr = vr;
        vscr = vscr;
        vrsave = vrsave;
      })
  unfolding control_regs
  reads_control =
      ap (read control_regs)
        (words_by-flat (be_codec 4 (omega arith)) (control regs) block.control_fit)

  reads_vector_control :
      (build : ℕ → ℕ → PowerPcCommonRegs)
      → read (vector_control_regs build) (be_words (chunks_exact 4 vector_control_bytes))
        ≡ parsed (build regs.vscr regs.vrsave)
  unfolding vector_control_regs
  reads_vector_control build =
      ap (read (vector_control_regs build))
        (words_by-flat (be_codec 4 (omega arith)) (vector_control regs) block.vector_control_fit)

  reads_all : read_sections (joined sections) ≡ parsed regs
  unfolding read_sections
  reads_all = rw slice_r (
      rw (reads_array 4 (omega arith) regs.r block.r_count block.r_fit) (
        rw slice_f (
          rw (reads_array 8 (omega arith) regs.f block.f_count block.f_fit) (
            rw slice_control (
              rw reads_control (
                rw slice_vr (
                  rw (reads_array 16 (omega arith) regs.vr block.vr_count block.vr_fit)
                    (rw slice_vector_control (reads_vector_control _)))))))))

  enough : ltb (length (joined sections)) 0x3a4 ≡ false
  enough =
      ground (arith, length-joined sections, r_len, f_len, control_len, vr_len, vector_control_len)

-- The registers of PowerPC, which are big-endian, read back as they were written: every slice is the
-- one that was written for it.
pub ppc_gdb_deserialize-gdb_serialize :
    (pad : ℕ) (regs : PowerPcCommonRegs)
    → IsBlock regs
    → gdb_deserialize (filled pad (gdb_serialize regs)) ≡ parsed regs
unfolding gdb_deserialize
ppc_gdb_deserialize-gdb_serialize pad regs block =
    ap gdb_deserialize (serialized regs block pad) ∙ rw (enough regs block) (reads_all regs block)
