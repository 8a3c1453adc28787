-- ===== src/Registers/Codec.antt =====
-- gdbstub_arch/src/: what the readers make of bytes that were written.
use gdbstub.Prelude.{
  Bytes, length, take, drop, replicate, ℕ, zero, suc, ◌+◌, ◌*◌, ◌/◌, ◌%◌, ◌^◌, ◌<◌, ◌≡◌, refl, sym,
  ap, ◌∙◌, Option, some, List, [], ◌∷◌, ◌++◌, append_assoc, append-nil, arith, length-append, All,
  take-length-append, drop-length-append, ◌≤◌, map,
}
use native.Mathlib.Nat.{
  add-mul-div_right, zero-div, zero-add, suc-add, zero-mul, suc-mul, pow-suc, add_comm,
}
use gdbstub.LeBytes.{le_bytes, from_le_bytes}
use gdbstub.LeBytes.Decoding.{from_le_bytes-shifted}
use gdbstub.LeBytes.Value.{
  le_value, le_bytes-IsByte, to_le_bytes-fits, length-le_bytes, le_value-le_bytes,
}
use gdbstub.Registers.{
  Serial, written, unavailable, flat, le_flat, filled, parsed, chunks, chunks_exact, Words,
  words_by, buffered,
}
use gdbstub.Registers.Reader.{next_n, continue, pure}

-- A word of `size` bytes.
abbrev pub Fits : ℕ → ℕ → Type 0
Fits size w = w < 256 ^ size

pub filled-written :
    (pad : ℕ) (bs : Bytes) (s : Serial) → filled pad (written bs ++ s) ≡ bs ++ filled pad s
filled-written pad [] s = refl
filled-written pad (b ∷ bs) s = ap (◌∷◌ b) (filled-written pad bs s)

pub filled-written_all : (pad : ℕ) (bs : Bytes) → filled pad (written bs) ≡ bs
filled-written_all pad [] = refl
filled-written_all pad (b ∷ bs) = ap (◌∷◌ b) (filled-written_all pad bs)

pub filled-unavailable :
    (pad n : ℕ) (s : Serial) → filled pad (unavailable n ++ s) ≡ replicate n pad ++ filled pad s
filled-unavailable pad zero s = refl
filled-unavailable pad (suc n) s = ap (◌∷◌ pad) (filled-unavailable pad n s)

pub take_here : {n : ℕ} (xs ys : Bytes) → length xs ≡ n → take n (xs ++ ys) ≡ xs
take_here xs ys e = rw (← e) (take-length-append xs ys)

pub drop_here : {n : ℕ} (xs ys : Bytes) → length xs ≡ n → drop n (xs ++ ys) ≡ ys
drop_here xs ys e = rw (← e) (drop-length-append xs ys)

module _ {A : Type 0} (enc : A → Bytes) where
  pub flat-append : (xs ys : List A) → flat enc (xs ++ ys) ≡ flat enc xs ++ flat enc ys
  flat-append [] ys = refl
  flat-append (x ∷ xs) ys =
      ap (◌++◌ (enc x)) (flat-append xs ys) ∙ sym (append_assoc (enc x) (flat enc xs) (flat enc ys))

  module _ (size : ℕ) (same : (x : A) → length (enc x) ≡ size) where
    pub length-flat : (xs : List A) → length (flat enc xs) ≡ length xs * size
    length-flat [] = omega arith
    length-flat (x ∷ xs) =
        length-append (enc x) (flat enc xs) ∙ omega (arith, same x, length-flat xs)

    -- The chunks of what was written are the bytes of each element.
    chunks-flat :
        (xs : List A) (tail : Bytes) (k : ℕ)
        → chunks size (length xs + k) (flat enc xs ++ tail) ≡ map enc xs ++ chunks size k tail
    chunks-flat [] tail k = rw zero-add refl
    chunks-flat (x ∷ xs) tail k =
        let e = append_assoc (enc x) (flat enc xs) tail in
        rw suc-add (
          rw
            (
              e,
              take_here (enc x) (flat enc xs ++ tail) (same x),
              drop_here (enc x) (flat enc xs ++ tail) (same x),
            )
            (ap (◌∷◌ (enc x)) (chunks-flat xs tail k)))

    pub chunks_exact-flat :
        (xs : List A) (tail : Bytes)
        → 0 < size
        → chunks_exact size (flat enc xs ++ tail) ≡ map enc xs ++ chunks_exact size tail
    chunks_exact-flat xs tail h =
        let count : length (flat enc xs ++ tail) ≡ length tail + length xs * size =
          omega (arith, length-append (flat enc xs) tail, length-flat xs) in
        rw (count, add-mul-div_right (length tail) (length xs) h, add_comm)
          (chunks-flat xs tail (length tail / size))

-- Words in memory order: the bytes of a word, and the value that is read back.
pub record WordCodec (size : ℕ) : Type 0 where
  pub bytes_of : ℕ → Bytes
  pub value_of : Bytes → Option ℕ
  pub positive : 0 < size
  pub length_of : (w : ℕ) → length (bytes_of w) ≡ size
  pub value_lem : (w : ℕ) → Fits size w → value_of (bytes_of w) ≡ some w

module _ {size : ℕ} (codec : WordCodec size) where
  words_by-map :
      (ws : List ℕ) (cs : List Bytes)
      → All (Fits size) ws
      → words_by codec.value_of (map codec.bytes_of ws ++ cs)
        ≡ map some ws ++ words_by codec.value_of cs
  words_by-map [] cs h = refl
  words_by-map (w ∷ ws) cs (hw, h) = rw (codec.value_lem w hw, words_by-map ws cs h) refl

  -- Words that were written, and whatever is behind them.
  pub words_by-flat_tail :
      (ws : List ℕ) (tail : Bytes)
      → All (Fits size) ws
      → words_by codec.value_of (chunks_exact size (flat codec.bytes_of ws ++ tail))
        ≡ map some ws ++ words_by codec.value_of (chunks_exact size tail)
  words_by-flat_tail ws tail h =
      ap (words_by codec.value_of)
        (chunks_exact-flat codec.bytes_of size codec.length_of ws tail codec.positive)
      ∙ words_by-map ws (chunks_exact size tail) h

  pub words_by-flat :
      (ws : List ℕ)
      → All (Fits size) ws
      → words_by codec.value_of (chunks_exact size (flat codec.bytes_of ws)) ≡ map some ws
  words_by-flat ws h =
      ap (λ bytes. words_by codec.value_of (chunks_exact size bytes))
        (sym (append-nil (flat codec.bytes_of ws)))
      ∙ words_by-flat_tail ws [] h
      ∙ rw zero-div (append-nil (map some ws))

abbrev pub le_codec : (size : ℕ) → 0 < size → WordCodec size
le_codec size h = record {
  bytes_of = le_bytes size;
  value_of = λ c. some (le_value c);
  positive = h;
  length_of = length-le_bytes size;
  value_lem = λ w fits. ap some (le_value-le_bytes size w fits);
}

-- The buffer of 16 bytes holds the word.
pub buffered-le_bytes : (size : ℕ) → size ≤ 16 → (w : ℕ) → buffered size w ≡ le_bytes size w
unfolding buffered
buffered-le_bytes size h w =
    rw (to_le_bytes-fits size w (replicate 16 0) h)
      (take_here (le_bytes size w) (drop size (replicate 16 0)) (length-le_bytes size w))

pub from_le_bytes-le_bytes :
    (size w : ℕ) → Fits size w → from_le_bytes size (le_bytes size w) ≡ some w
from_le_bytes-le_bytes size w fits =
    from_le_bytes-shifted size 0 w (le_bytes size w) (le_bytes-IsByte size w)
      (omega (arith, length-le_bytes size w)) (omega (arith, le_value-le_bytes size w fits))

abbrev pub checked_codec : (size : ℕ) → 0 < size → size ≤ 16 → WordCodec size
checked_codec size h wide = record {
  bytes_of = buffered size;
  value_of = from_le_bytes size;
  positive = h;
  length_of = λ w. ap length (buffered-le_bytes size wide w) ∙ length-le_bytes size w;
  value_lem = λ w fits.
      ap (from_le_bytes size) (buffered-le_bytes size wide w) ∙ from_le_bytes-le_bytes size w fits;
}

pub next_n-some :
    (n : ℕ) (xs : List ℕ) (ws : Words)
    → length xs ≡ n
    → next_n n (map some xs ++ ws) ≡ parsed (xs, ws)
next_n-some zero [] ws e = refl
next_n-some zero (x ∷ xs) ws e = absurd (omega arith)
next_n-some (suc n) [] ws e = absurd (omega arith)
next_n-some (suc n) (x ∷ xs) ws e =
    ap (continue (λ rest. pure (x ∷ rest))) (next_n-some n xs ws (omega arith))

-- Bytes that all are `pad` are words too.
abbrev pub pad_word : ℕ → ℕ → ℕ
pad_word pad size = le_value (replicate size pad)

le_bytes-pad : (pad size : ℕ) → pad < 256 → le_bytes size (pad_word pad size) ≡ replicate size pad
le_bytes-pad pad zero h = refl
le_bytes-pad pad (suc size) h =
    let v = pad_word pad size in
    let low : (v * 256 + pad) % 256 ≡ pad = omega arith in
    let high : (v * 256 + pad) / 256 ≡ v = omega arith in
    rw (low, high) (ap (◌∷◌ pad) (le_bytes-pad pad size h))

replicate-append : (m n pad : ℕ) → replicate (m + n) pad ≡ replicate m pad ++ replicate n pad
replicate-append zero n pad = rw zero-add refl
replicate-append (suc m) n pad = rw suc-add (ap (◌∷◌ pad) (replicate-append m n pad))

pub replicate-le_flat :
    (pad size n : ℕ)
    → pad < 256
    → replicate (n * size) pad ≡ le_flat size (replicate n (pad_word pad size))
replicate-le_flat pad size zero h = rw zero-mul refl
replicate-le_flat pad size (suc n) h =
    ap (λ k. replicate k pad) (suc-mul n size ∙ add_comm (n * size) size)
    ∙ replicate-append size (n * size) pad
    ∙ rw (replicate-le_flat pad size n h, le_bytes-pad pad size h) refl

pub pad_word-Fits : (pad size : ℕ) → pad < 256 → Fits size (pad_word pad size)
pad_word-Fits pad zero h = omega arith
pad_word-Fits pad (suc size) h = omega (arith, pad_word-Fits pad size h, pow-suc 256 size)

pub All-replicate {κ} : (P : ℕ → Type κ) (n x : ℕ) → P x → All P (replicate n x)
All-replicate P zero x h = tt
All-replicate P (suc n) x h = (h, All-replicate P n x h)

-- Registers one after the other, with unavailable words between them: what stands for them when the
-- unavailable bytes are `pad`.
pub data Fills (pad : ℕ) (enc : ℕ → Bytes) : Serial → List ℕ → Type 0 where
  last : (xs : List ℕ) → Fills pad enc (written (flat enc xs)) xs
  words :
      (xs : List ℕ) {s : Serial} {ws : List ℕ}
      → Fills pad enc s ws
      → Fills pad enc (written (flat enc xs) ++ s) (xs ++ ws)
  gap :
      (n k p : ℕ) {s : Serial} {ws : List ℕ}
      → replicate n pad ≡ flat enc (replicate k p)
      → Fills pad enc s ws
      → Fills pad enc (unavailable n ++ s) (replicate k p ++ ws)

pub Fills-filled :
    (pad : ℕ) (enc : ℕ → Bytes) {s : Serial} {ws : List ℕ}
    → Fills pad enc s ws
    → filled pad s ≡ flat enc ws
Fills-filled pad enc (last xs) = filled-written_all pad (flat enc xs)
Fills-filled pad enc (words xs {s} {ws} rest) =
    filled-written pad (flat enc xs) s
    ∙ ap (◌++◌ (flat enc xs)) (Fills-filled pad enc rest)
    ∙ sym (flat-append enc xs ws)
Fills-filled pad enc (gap n k p {s} {ws} e rest) =
    filled-unavailable pad n s
    ∙ rw (e, Fills-filled pad enc rest) refl
    ∙ sym (flat-append enc (replicate k p) ws)
