-- ===== src/Commands/VCont/Texts.antt =====
-- src/protocol/commands/_vCont.rs: how a client writes the actions of `vCont`.
use gdbstub.Prelude.{
  All-append, u8_max, Bytes, codes, ◌==◌, ℕ, Option, none, some, List, [], ◌∷◌, ◌++◌, ◌≡◌, ◌≢◌,
  refl, ◌<◌, ◌≤◌, ◌/◌, ◌%◌, All, IsByte, Bool, Bool-cases, inl, inr, false, arith,
}
use gdbstub.Prelude.Slices.{Plain}
use gdbstub.BeBytes.{be_bytes}
use gdbstub.BeBytes.Value.{be_bytes-IsByte}
use gdbstub.ResponseWriter.{hex_char, skip_zeros}
use gdbstub.ResponseWriter.Texts.{hex_text, num_text}
use gdbstub.ResponseWriter.Ids.{thread_id_text, id_kind_text, pid_text}
use gdbstub.ResponseWriter.Decoding.{low_nybble, high_nybble, skip_zeros-IsByte}
use gdbstub.ThreadId.{SpecificThreadId, SpecificIdKind}
use gdbstub.ThreadId.RoundTrip.{IsId, IsPid}
use gdbstub.Commands.Types.{
  VContKind, continue, continue_with_sig, range_step, step, step_with_sig, stop, VContAction,
}
use gdbstub.Commands.VCont.{is_semicolon, is_colon, is_comma}

-- None of the separators ',', ':' and ';'.
abbrev pub IsTextChar : ℕ → Type 0
IsTextChar x = (b',' < x) × (x ≢ b':') × (x ≢ b';')

pub All-Plain :
    (sep : ℕ → Bool) (free : (x : ℕ) → IsTextChar x → sep x ≡ false) (xs : Bytes)
    → All IsTextChar xs
    → Plain sep xs
All-Plain sep free [] h = tt
All-Plain sep free (x ∷ xs) (hx, h) = (free x hx, All-Plain sep free xs h)

pub Plain-append :
    (sep : ℕ → Bool) (xs ys : Bytes) → Plain sep xs → Plain sep ys → Plain sep (xs ++ ys)
Plain-append sep [] ys h hy = hy
Plain-append sep (x ∷ xs) ys (hx, h) hy = (hx, Plain-append sep xs ys h hy)

pub no_semicolon : (x : ℕ) → IsTextChar x → is_semicolon x ≡ false
no_semicolon x h = ground arith

pub no_colon : (x : ℕ) → IsTextChar x → is_colon x ≡ false
no_colon x h = ground arith

pub no_comma : (x : ℕ) → IsTextChar x → is_comma x ≡ false
no_comma x h = ground arith

hex_char_text : (d : ℕ) → d < 16 → IsTextChar (hex_char d)
unfolding hex_char
hex_char_text d h = ground arith

hex_text_text : (bs : Bytes) → All IsByte bs → All IsTextChar (hex_text bs)
hex_text_text [] h = tt
hex_text_text (b ∷ bs) (hb, h) = (
  rw (high_nybble b hb) (hex_char_text (b / 16) (omega arith)),
  (rw (low_nybble b hb) (hex_char_text (b % 16) (omega arith)), hex_text_text bs h),
)

pub num_text_text : (size n : ℕ) → All IsTextChar (num_text size n)
num_text_text size n = elim (Bool-cases (n == 0)) [
  | inl z ↦ rw z (hex_text_text (0 ∷ []) (omega arith))
  | inr nz ↦ rw nz (
      hex_text_text (skip_zeros (be_bytes size n))
        (skip_zeros-IsByte (be_bytes size n) (be_bytes-IsByte size n)))
]

id_text : (id : SpecificIdKind) → All IsTextChar (id_kind_text id)
id_text SpecificIdKind.all = ground arith
id_text (SpecificIdKind.with_id n) = num_text_text 8 n

pub thread_text : (id : SpecificThreadId) → All IsTextChar (thread_id_text id)
thread_text id = go id.pid
  where
    go : (pid : Option SpecificIdKind) → All IsTextChar (pid_text pid ++ id_kind_text id.tid)
    go none = id_text id.tid
    go (some pid) = (
      ground arith,
      All-append _ (id_kind_text pid ++ (b'.' ∷ [])) (id_kind_text id.tid)
          (All-append _ (id_kind_text pid) (b'.' ∷ []) (id_text pid) (ground arith))
          (id_text id.tid),
    )

-- The text of an action; `range_step` has the digits of the two addresses.
abbrev pub kind_text : VContKind → Bytes
kind_text continue = codes "c"
kind_text (continue_with_sig n) = b'C' ∷ num_text 1 n
kind_text (range_step start end) = b'r' ∷ (start ++ (b',' ∷ end))
kind_text step = codes "s"
kind_text (step_with_sig n) = b'S' ∷ num_text 1 n
kind_text stop = codes "t"

abbrev pub behind_kind : Option SpecificThreadId → Bytes
behind_kind none = []
behind_kind (some id) = b':' ∷ thread_id_text id

abbrev pub action_text : VContAction → Bytes
action_text a = kind_text a.kind ++ behind_kind a.thread

abbrev pub actions_text : List VContAction → Bytes
actions_text [] = []
actions_text (a ∷ acts) = b';' ∷ (action_text a ++ actions_text acts)

-- What an action may hold.
abbrev pub IsKind : VContKind → Type 0
IsKind (continue_with_sig n) = n ≤ u8_max
IsKind (step_with_sig n) = n ≤ u8_max
IsKind (range_step start end) = All IsTextChar start × All IsTextChar end
IsKind _ = Unit

abbrev pub IsThread : Option SpecificThreadId → Type 0
IsThread none = Unit
IsThread (some id) = IsPid id.pid × IsId id.tid

abbrev pub IsAction : VContAction → Type 0
IsAction a = IsKind a.kind × IsThread a.thread

module _ (sep : ℕ → Bool) (free : (x : ℕ) → IsTextChar x → sep x ≡ false)
    (joined : sep b',' ≡ false) where
  pub kind_text-Plain : (k : VContKind) → IsKind k → Plain sep (kind_text k)
  kind_text-Plain continue h = (free b'c' (ground arith), tt)
  kind_text-Plain step h = (free b's' (ground arith), tt)
  kind_text-Plain stop h = (free b't' (ground arith), tt)
  kind_text-Plain (continue_with_sig n) h =
      (free b'C' (ground arith), All-Plain sep free (num_text 1 n) (num_text_text 1 n))
  kind_text-Plain (step_with_sig n) h =
      (free b'S' (ground arith), All-Plain sep free (num_text 1 n) (num_text_text 1 n))
  kind_text-Plain (range_step start end) (hs, he) = (
    free b'r' (ground arith),
    Plain-append sep start (b',' ∷ end) (All-Plain sep free start hs)
        (joined, All-Plain sep free end he),
  )

-- An action is one piece between semicolons.
pub action_text-Plain : (a : VContAction) → IsAction a → Plain is_semicolon (action_text a)
action_text-Plain a (hk, ht) =
    Plain-append is_semicolon (kind_text a.kind) (behind_kind a.thread)
      (kind_text-Plain is_semicolon no_semicolon refl a.kind hk) (behind a.thread)
  where
    behind : (thread : Option SpecificThreadId) → Plain is_semicolon (behind_kind thread)
    behind none = tt
    behind (some id) =
        (refl, All-Plain is_semicolon no_semicolon (thread_id_text id) (thread_text id))
