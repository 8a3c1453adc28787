-- ===== src/Registers/Sections.antt =====
-- gdbstub_arch/src/: slices of bytes that were written one section after the other.
use gdbstub.Prelude.{
  Bytes, length, leb, ℕ, ◌+◌, ◌-◌, ◌≡◌, refl, sym, ap, ◌∙◌, true, ◌&&◌, none, some, List, [], ◌∷◌,
  ◌++◌, arith, length-append, take-length-append, drop-length-append, append_assoc, map, replicate,
  All, zero, suc, ◌*◌, ◌/◌, ◌<◌, ◌==◌,
}
use gdbstub.Registers.{
  flat, Serial, filled, written, unavailable, parsed, slice, in_order, arrays, chunks, chunks_exact,
}
use gdbstub.Registers.Codec.{take_here, drop_here, filled-written, filled-unavailable}
use native.Mathlib.Nat.{mul-div_cancel}

pub filled-append : (pad : ℕ) (s t : Serial) → filled pad (s ++ t) ≡ filled pad s ++ filled pad t
filled-append pad [] t = refl
filled-append pad (none ∷ s) t = ap (◌∷◌ pad) (filled-append pad s t)
filled-append pad (some b ∷ s) t = ap (◌∷◌ b) (filled-append pad s t)

-- A slice between two sections.
pub slice_here :
    (lo hi : ℕ) (pre mid post : Bytes)
    → length pre ≡ lo
    → lo + length mid ≡ hi
    → slice lo hi (pre ++ (mid ++ post)) ≡ parsed mid
slice_here lo hi pre mid post hl hh =
    let total : length (pre ++ (mid ++ post)) ≡ lo + (length mid + length post) =
      omega (arith, length-append pre (mid ++ post), length-append mid post) in
    let inside : (leb lo hi && leb hi (length (pre ++ (mid ++ post)))) ≡ true = ground arith in
    let len : hi - lo ≡ length mid = omega arith in
    rw (inside, len, ← hl)
      (rw (drop-length-append pre (mid ++ post)) (rw (take-length-append mid post) refl))

-- Sections one after the other.
abbrev pub joined : List Bytes → Bytes
joined = flat (λ s. s)

abbrev pub lengths : List Bytes → ℕ
lengths [] = 0
lengths (s ∷ ss) = length s + lengths ss

pub length-joined : (ss : List Bytes) → length (joined ss) ≡ lengths ss
length-joined [] = refl
length-joined (s ∷ ss) = omega (arith, length-append s (joined ss), length-joined ss)

joined-append : (ss ts : List Bytes) → joined (ss ++ ts) ≡ joined ss ++ joined ts
joined-append [] ts = refl
joined-append (s ∷ ss) ts =
    ap (◌++◌ s) (joined-append ss ts) ∙ sym (append_assoc s (joined ss) (joined ts))

-- The slice of a section, with the sections in front of it and behind it.
pub slice_section :
    (lo hi : ℕ) (pre : List Bytes) (mid : Bytes) (post : List Bytes)
    → lengths pre ≡ lo
    → lo + length mid ≡ hi
    → slice lo hi (joined (pre ++ (mid ∷ post))) ≡ parsed mid
slice_section lo hi pre mid post hl hh =
    ap (slice lo hi) (joined-append pre (mid ∷ post))
    ∙ slice_here lo hi (joined pre) mid (joined post) (length-joined pre ∙ hl) hh

pub filled-written_sections :
    (pad : ℕ) (ss : List Bytes) → filled pad (in_order (map written ss)) ≡ joined ss
filled-written_sections pad [] = refl
filled-written_sections pad (s ∷ ss) =
    filled-written pad s (in_order (map written ss)) ∙ ap (◌++◌ s) (filled-written_sections pad ss)

-- With unavailable bytes at the end.
pub filled-padded_sections :
    (pad : ℕ) (ss : List Bytes) (n : ℕ)
    → filled pad (in_order (map written ss ++ (unavailable n ∷ [])))
      ≡ joined (ss ++ (replicate n pad ∷ []))
filled-padded_sections pad [] n = filled-unavailable pad n []
filled-padded_sections pad (s ∷ ss) n =
    filled-written pad s (in_order (map written ss ++ (unavailable n ∷ [])))
    ∙ ap (◌++◌ s) (filled-padded_sections pad ss n)

-- Arrays of `size` bytes are read back.
chunks-joined :
    (size : ℕ) (xs : List Bytes)
    → All (λ x. length x ≡ size) xs
    → chunks size (length xs) (joined xs) ≡ xs
chunks-joined size [] h = refl
chunks-joined size (x ∷ xs) (hx, h) =
    rw (take_here x (joined xs) hx, drop_here x (joined xs) hx)
      (ap (◌∷◌ x) (chunks-joined size xs h))

pub lengths-same :
    (size : ℕ) (xs : List Bytes) → All (λ x. length x ≡ size) xs → lengths xs ≡ length xs * size
lengths-same size [] h = omega arith
lengths-same size (x ∷ xs) (hx, h) = omega (arith, lengths-same size xs h)

arrays-whole :
    (size n : ℕ) (xs : List Bytes)
    → All (λ x. length x ≡ size) xs
    → length xs ≡ n
    → arrays size n xs ≡ parsed xs
arrays-whole size zero [] h e = refl
arrays-whole size zero (x ∷ xs) h e = absurd (omega arith)
arrays-whole size (suc n) [] h e = absurd (omega arith)
arrays-whole size (suc n) (x ∷ xs) (hx, h) e =
    let same : (length x == size) ≡ true = ground arith in
    rw same (rw (arrays-whole size n xs h (omega arith)) refl)

pub arrays-joined :
    (size n : ℕ) (xs : List Bytes)
    → 0 < size
    → All (λ x. length x ≡ size) xs
    → length xs ≡ n
    → arrays size n (chunks_exact size (joined xs)) ≡ parsed xs
arrays-joined size n xs h same e =
    let count : length (joined xs) / size ≡ length xs =
      ap (λ k. k / size) (length-joined xs ∙ lengths-same size xs same)
      ∙ mul-div_cancel (length xs) h in
    rw count (rw (chunks-joined size xs same) (arrays-whole size n xs same e))
