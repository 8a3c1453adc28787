-- ===== src/ThreadId/RoundTrip.antt =====
-- src/protocol/common/thread_id.rs against src/protocol/response_writer.rs: the parser
-- on the texts that the writer prints.
use gdbstub.ResponseWriter.Texts.{hex_text, num_text}
use gdbstub.ResponseWriter.{skip_zeros, hex_char}
use gdbstub.ResponseWriter.Ids.{pid_text, thread_id_text, id_kind_text}
use gdbstub.ResponseWriter.Decoding.{
  low_nybble, skip_zeros-IsByte, length-hex_text, high_nybble, decode_hex-num_text,
}
use gdbstub.BeBytes.{be_bytes}
use gdbstub.Prelude.Slices.{split-Plain, split_at, Plain}
use gdbstub.BeBytes.Value.{be_bytes-IsByte}
use gdbstub.Prelude.{
  usize_max, Bool-cases, Bytes, codes, equal, ◌==◌, length, All, IsByte, ℕ, ◌/◌, ◌%◌, ◌≤◌, ◌<◌, ◌≡◌,
  refl, inl, inr, false, Option, none, some, [], ◌∷◌, ◌++◌, append_assoc, arith,
}
use gdbstub.ThreadId.{
  ◌>>=◌, parse_thread_id, specific_thread_id, specific_id_kind, parse_id_kind, IdKind,
  SpecificIdKind, SpecificThreadId,
}

-- A number that `NonZeroUsize` holds.
abbrev pub IsId : SpecificIdKind → Type 0
IsId SpecificIdKind.all = Unit
IsId (SpecificIdKind.with_id n) = (0 < n) × (n ≤ usize_max)

abbrev pub IsPid : Option SpecificIdKind → Type 0
IsPid none = Unit
IsPid (some pid) = IsId pid

abbrev general : SpecificIdKind → IdKind
general SpecificIdKind.all = IdKind.all
general (SpecificIdKind.with_id n) = IdKind.with_id n

-- Neither a sign, a dot nor a 'p'.
abbrev IsDigitChar : ℕ → Type 0
IsDigitChar x = (b'0' ≤ x) × (x ≤ b'f')

hex_char-IsDigitChar : (d : ℕ) → d < 16 → IsDigitChar (hex_char d)
unfolding hex_char
hex_char-IsDigitChar d h = ground arith

hex_text-IsDigitChar : (bs : Bytes) → All IsByte bs → All IsDigitChar (hex_text bs)
hex_text-IsDigitChar [] h = tt
hex_text-IsDigitChar (b ∷ bs) (hb, h) = (
  rw (high_nybble b hb) (hex_char-IsDigitChar (b / 16) (omega arith)),
  (rw (low_nybble b hb) (hex_char-IsDigitChar (b % 16) (omega arith)), hex_text-IsDigitChar bs h),
)

num_text-IsDigitChar : (n : ℕ) → All IsDigitChar (num_text 8 n)
num_text-IsDigitChar n = elim (Bool-cases (n == 0)) [
  | inl z ↦ rw z (hex_text-IsDigitChar (0 ∷ []) (omega arith))
  | inr nz ↦ rw nz (
      hex_text-IsDigitChar (skip_zeros (be_bytes 8 n))
        (skip_zeros-IsByte (be_bytes 8 n) (be_bytes-IsByte 8 n)))
]

num_text-even : (n : ℕ) → length (num_text 8 n) % 2 ≡ 0
num_text-even n = elim (Bool-cases (n == 0)) [
  | inl z ↦ rw z
  | inr nz ↦ rw nz (omega (arith, length-hex_text (skip_zeros (be_bytes 8 n))))
]

-- A text of digits is none of the two special ids.
not-All : (t : Bytes) → All IsDigitChar t → equal t (codes "-1") ≡ false
not-All [] h = refl
not-All (x ∷ t) h = ground arith

not_any : (t : Bytes) → length t % 2 ≡ 0 → equal t (codes "0") ≡ false
not_any [] h = refl
not_any (x ∷ []) h = absurd (omega arith)
not_any (x ∷ y ∷ t) h = ground arith

parse-id_kind_text :
    (id : SpecificIdKind) → IsId id → parse_id_kind (id_kind_text id) ≡ some (general id)
unfolding parse_id_kind
parse-id_kind_text SpecificIdKind.all h = refl
parse-id_kind_text (SpecificIdKind.with_id n) h =
    rw
      (
        not-All (num_text 8 n) (num_text-IsDigitChar n),
        not_any (num_text 8 n) (num_text-even n),
        decode_hex-num_text usize_max 8 n (omega arith) h.1 (omega arith),
      )
      (ground arith)

specific-general : (id : SpecificIdKind) → specific_id_kind (general id) ≡ some id
unfolding specific_id_kind
specific-general SpecificIdKind.all = refl
specific-general (SpecificIdKind.with_id n) = refl

digits-Plain : (t : Bytes) → All IsDigitChar t → Plain (λ x. x == b'.') t
digits-Plain [] h = tt
digits-Plain (x ∷ t) (hx, h) = (ground arith, digits-Plain t h)

id_text-Plain : (id : SpecificIdKind) → Plain (λ x. x == b'.') (id_kind_text id)
id_text-Plain SpecificIdKind.all = (refl, (refl, tt))
id_text-Plain (SpecificIdKind.with_id n) = digits-Plain (num_text 8 n) (num_text-IsDigitChar n)

-- Without a pid the text does not begin with a 'p'.
parse_bare :
    (t : Bytes)
    → All (λ x. x ≤ b'f') t
    → parse_thread_id t ≡ (parse_id_kind t >>= λ tid. some (record { pid = none; tid = tid }))
unfolding parse_thread_id
parse_bare [] h = refl
parse_bare (x ∷ t) h = let e : (x == b'p') ≡ false = ground arith in rw e

id_text_low : (id : SpecificIdKind) → All (λ x. x ≤ b'f') (id_kind_text id)
id_text_low SpecificIdKind.all = omega arith
id_text_low (SpecificIdKind.with_id n) = weaken (num_text 8 n) (num_text-IsDigitChar n)
  where
    weaken : (t : Bytes) → All IsDigitChar t → All (λ x. x ≤ b'f') t
    weaken [] h = tt
    weaken (x ∷ t) (hx, h) = (hx.1, weaken t h)

parse_with_pid :
    (pid tid : SpecificIdKind)
    → IsId pid
    → IsId tid
    → parse_thread_id (pid_text (some pid) ++ id_kind_text tid)
      ≡ some (record { pid = some (general pid); tid = general tid })
unfolding parse_thread_id
parse_with_pid pid tid hp ht =
    rw
      (
        append_assoc (id_kind_text pid) (b'.' ∷ []) (id_kind_text tid),
        split_at (λ x. x == b'.') (id_kind_text pid) b'.' (id_kind_text tid) (id_text-Plain pid)
            refl,
        split-Plain (λ x. x == b'.') (id_kind_text tid) (id_text-Plain tid),
      )
      (rw (parse-id_kind_text pid hp) (rw (parse-id_kind_text tid ht)))

-- A thread id that the stub prints, it parses back: with or without a process, for one thread or
-- all.
pub specific_thread_id-thread_id_text :
    (id : SpecificThreadId)
    → IsPid id.pid
    → IsId id.tid
    → (parse_thread_id (thread_id_text id) >>= specific_thread_id) ≡ some id
specific_thread_id-thread_id_text id hp ht = go id.pid hp
  where
    go :
        (pid : Option SpecificIdKind)
        → IsPid pid
        → (parse_thread_id (pid_text pid ++ id_kind_text id.tid) >>= specific_thread_id)
          ≡ some (record { pid = pid; tid = id.tid })
    go none h =
        rw (parse_bare (id_kind_text id.tid) (id_text_low id.tid), parse-id_kind_text id.tid ht)
          (unfold specific_thread_id in rw (specific-general id.tid))
    go (some pid) h =
        rw (parse_with_pid pid id.tid h ht)
          (unfold specific_thread_id in rw (specific-general pid) (rw (specific-general id.tid)))
