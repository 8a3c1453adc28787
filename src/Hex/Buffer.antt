-- ===== src/Hex/Buffer.antt =====
-- src/protocol/common/hex.rs: the in-place loop of `decode_hex_buf` against a plain decoding.
use gdbstub.Prelude.{
  Bool-cases, Option-cases, Bytes, ◌==◌, if◌then◌else◌, length, get_elem?, set, take, length-append,
  take-length-append, get_elem?-append_here, set-append_here, ℕ, suc, ◌+◌, ◌*◌, ◌/◌, ◌%◌, ◌≡◌, refl,
  sym, ap, ◌∙◌, inl, inr, true, false, Option, none, some, [], ◌∷◌, ◌++◌, append-nil, append_assoc,
  arith,
}
use gdbstub.Prelude.OptionDo.{◌>>=◌}
use native.Mathlib.Nat.{add-zero, zero-add}
use gdbstub.Hex.{
  decoded_buf, digit_at, ascii2byte, DecodeHexBufError, DecodeHexBufResult, decoded, failed,
  join_nybbles, decode_pairs_loop, decode_hex_buf, prefix, prepend,
}
use gdbstub.Hex.Digits.{ascii2byte-lt, join_nybbles-eq}

-- What two digits each say, read from a text of even length.
abbrev pub pair_values : Bytes → Option Bytes
pair_values [] = some []
pair_values (a ∷ []) = some []
pair_values (a ∷ b ∷ r) = do
  hi ← ascii2byte a
  lo ← ascii2byte b
  rest ← pair_values r
  some ((hi * 16 + lo) ∷ rest)

-- At an odd length the first digit stands alone.
abbrev odd_values : ℕ → Bytes → Option Bytes
odd_values a r = do first ← ascii2byte a; rest ← pair_values r; some (first ∷ rest)

abbrev pub hex_bytes : Bytes → Option Bytes
hex_bytes [] = some []
hex_bytes (a ∷ r) = if length r % 2 == 0 then odd_values a r else pair_values (a ∷ r)

-- The answer of `decode_hex_buf` for such a decoding.
abbrev pub answer : Option Bytes → DecodeHexBufResult
answer none = failed DecodeHexBufError.not_ascii
answer (some ds) = decoded ds

abbrev pub half : Bytes → ℕ
half [] = 0
half (a ∷ []) = 0
half (a ∷ b ∷ r) = suc (half r)

half-eq : (xs : Bytes) → half xs ≡ length xs / 2
half-eq [] = refl
half-eq (a ∷ []) = refl
half-eq (a ∷ b ∷ r) = omega (arith, half-eq r)

-- The slot that round `i` writes: the first of the bytes that are already read, or the first digit
-- of the pair itself in round 0.
write_slot :
    (gap : Bytes) (a b : ℕ) (r : Bytes)
    → (g : ℕ) × (gap' : Bytes) × (gap ++ (a ∷ b ∷ r) ≡ g ∷ (gap' ++ r))
      × (length gap' ≡ suc (length gap))
write_slot [] a b r = (a, b ∷ [], refl, refl)
write_slot (g ∷ gap) a b r = (
  g,
  gap ++ (a ∷ b ∷ []),
  ap (◌∷◌ g) (sym (append_assoc gap (a ∷ b ∷ []) r)),
  omega (arith, length-append {0} gap (a ∷ b ∷ [])),
)

pub read_at :
    (out gap : Bytes) (c : ℕ) (r : Bytes) (i : ℕ)
    → i ≡ length out + length gap
    → get_elem? (out ++ (gap ++ (c ∷ r))) i ≡ some c
read_at out gap c r i e =
    rw (e, ← append_assoc out gap (c ∷ r), ← length-append out gap)
      (get_elem?-append_here (out ++ gap) r c)

module _ (buf : Bytes) (i : ℕ) {c : ℕ} (f : ℕ → DecodeHexBufResult)
    (e : get_elem? buf i ≡ some c) where
  digit_at-none : ascii2byte c ≡ none → digit_at buf i f ≡ failed DecodeHexBufError.not_ascii
  digit_at-none h = rw (e, digit_at) (rw h)

  digit_at-some : {x : ℕ} → ascii2byte c ≡ some x → digit_at buf i f ≡ f x
  digit_at-some h = rw (e, digit_at) (rw h)

-- Each round moves the write position one byte on, and the read position two.
written :
    (out gap : Bytes) (a b : ℕ) (r : Bytes) (v : ℕ)
    → length gap ≡ length out
    → (gap' : Bytes) × (set (out ++ (gap ++ (a ∷ b ∷ r))) (length out) v
        ≡ (out ++ (v ∷ [])) ++ (gap' ++ r))
      × (length gap' ≡ length (out ++ (v ∷ [])))
written out gap a b r v e =
    let (g, gap', slot, len) = write_slot gap a b r in
    (
      gap',
      rw (slot, set-append_here out (gap' ++ r) g v, append_assoc out (v ∷ []) (gap' ++ r)),
      omega (arith, length-append {0} out (v ∷ [])),
    )

abbrev append_answer : Bytes → Option Bytes → DecodeHexBufResult
append_answer out none = failed DecodeHexBufError.not_ascii
append_answer out (some ds) = decoded (out ++ ds)

take_whole : (xs : Bytes) (ys : Bytes) → take (length xs + 0) (xs ++ ys) ≡ xs
take_whole xs ys = rw add-zero (take-length-append xs ys)

append_answer-cons :
    (out : Bytes) (v : ℕ) (ds : Option Bytes)
    → append_answer (out ++ (v ∷ [])) ds ≡ append_answer out (ds >>= λ rest. some (v ∷ rest))
append_answer-cons out v none = refl
append_answer-cons out v (some ds) = rw (append_assoc out (v ∷ []) ds)

loop_lem :
    (todo out gap : Bytes)
    → length gap ≡ length out
    → length todo % 2 ≡ 0
    → prefix
        (length out + half todo)
        (decode_pairs_loop (half todo) (length out) (out ++ (gap ++ todo)))
      ≡ append_answer out (pair_values todo)
unfolding decode_pairs_loop
loop_lem [] out gap e even = rw (take_whole out (gap ++ []), append-nil out)
loop_lem (a ∷ []) out gap e even = absurd (omega arith)
loop_lem (a ∷ b ∷ r) out gap e even =
    let at_a = read_at out gap a (b ∷ r) (length out * 2) (omega arith) in
    let at_b : get_elem? (out ++ (gap ++ (a ∷ b ∷ r))) (length out * 2 + 1) ≡ some b =
      rw (append_assoc gap (a ∷ []) (b ∷ r)) at (
        read_at out (gap ++ (a ∷ [])) b r (length out * 2 + 1)
          (omega (arith, length-append {0} gap (a ∷ [])))) in
    elim (Option-cases (ascii2byte a)) [
      | inl ea ↦ rw (digit_at-none _ _ _ at_a ea) (rw ea)
      | inr (x, ea) ↦ rw (digit_at-some _ _ _ at_a ea) (elim (Option-cases (ascii2byte b)) [
        | inl eb ↦ rw (digit_at-none _ _ _ at_b eb) (rw ea (rw eb))
        | inr (y, eb) ↦ rw (digit_at-some _ _ _ at_b eb) (
            let v = join_nybbles x y in
            let (gap', w, len) = written out gap a b r v e in
            let longer : length (out ++ (v ∷ [])) ≡ length out + 1 =
              length-append {0} out (v ∷ []) in
            let sum : length out + suc (half r) ≡ length out + 1 + half r = omega arith in
            let value : v ≡ x * 16 + y =
              join_nybbles-eq x y (ascii2byte-lt a ea) (ascii2byte-lt b eb) in
            let rest = loop_lem r (out ++ (v ∷ [])) gap' len (omega arith) in
            rw (w, ea, sum)
              (rw (eb, ← value) (rw longer at rest ∙ append_answer-cons out v (pair_values r))))
      ])
    ]

append_answer_nil : (ds : Option Bytes) → append_answer [] ds ≡ answer ds
append_answer_nil none = refl
append_answer_nil (some ds) = refl

even_lem :
    (buf : Bytes)
    → length buf % 2 ≡ 0
    → prefix (length buf / 2) (decode_pairs_loop (length buf / 2) 0 buf) ≡ answer (pair_values buf)
even_lem buf even =
    rw (half-eq buf, zero-add) at (loop_lem buf [] [] refl even)
    ∙ append_answer_nil (pair_values buf)

prepend-answer :
    (x : ℕ) (ds : Option Bytes) → prepend x (answer ds) ≡ answer (ds >>= λ rest. some (x ∷ rest))
prepend-answer x none = refl
prepend-answer x (some ds) = refl

odd_lem :
    (a : ℕ) (r : Bytes)
    → length r % 2 ≡ 0
    → digit_at
        (a ∷ r)
        0
        (λ first. prepend first (prefix (length r / 2) (decode_pairs_loop (length r / 2) 0 r)))
      ≡ answer (odd_values a r)
odd_lem a r even = elim (Option-cases (ascii2byte a)) [
  | inl e ↦ digit_at-none (a ∷ r) 0 _ refl e ∙ rw e
  | inr (x, e) ↦
      digit_at-some (a ∷ r) 0 _ refl e
      ∙ ap (prepend x) (even_lem r even)
      ∙ prepend-answer x (pair_values r)
      ∙ rw e
]

-- On every input the in-place decoding gives the plain one: no index is out of range, no byte is
-- overwritten before it is read, and it fails exactly where a byte is no digit.
pub decode_hex_buf-hex_bytes : (buf : Bytes) → decode_hex_buf buf ≡ answer (hex_bytes buf)
unfolding decode_hex_buf
decode_hex_buf-hex_bytes [] = unfold decode_pairs_loop in refl
decode_hex_buf-hex_bytes (a ∷ r) = elim (Bool-cases (length r % 2 == 0)) [
  | inl even ↦
      let e : (length (a ∷ r) % 2 == 0) ≡ false = ground arith in
      rw (e, even) (odd_lem a r (ground arith))
  | inr odd ↦
      let e : (length (a ∷ r) % 2 == 0) ≡ true = ground arith in
      rw (e, odd) (even_lem (a ∷ r) (ground arith))
]

-- What `decode_hex_buf(..).ok()` gives to the packet parsers.
pub decoded_buf-hex_bytes : (buf : Bytes) → decoded_buf (decode_hex_buf buf) ≡ hex_bytes buf
decoded_buf-hex_bytes buf =
    rw decode_hex_buf-hex_bytes
      (elim (Option-cases (hex_bytes buf)) [ inl e ↦ rw e | inr (ds, e) ↦ rw e ])
