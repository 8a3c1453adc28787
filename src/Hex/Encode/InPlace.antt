-- ===== src/Hex/Encode/InPlace.antt =====
-- src/protocol/common/hex.rs: the loop of `encode_hex_buf`, which reads the bytes that it overwrites,
-- against the digits of the data.
use gdbstub.Prelude.{
  Bool-cases, inl, inr, ℕ, suc, ◌+◌, ◌-◌, ◌*◌, ◌/◌, ◌%◌, ◌^◌, Bool, Bytes, some, length, ◌≤◌, ◌<◌,
  ◌≡◌, refl, sym, ap, ◌∙◌, leb, ltb, if◌then◌else◌, [], ◌∷◌, ◌++◌, arith, length-append,
  append_assoc, set-append_here, All, IsByte, true, false, take-length-append, append-nil,
}
use gdbstub.ResponseWriter.Decoding.{high_nybble, low_nybble}
use gdbstub.Hex.Encode.{
  encode_hex_buf, encode_loop, encode_len, encoded, small_buffer, returned, upper_digit, nybble_at,
  data_len, doubled,
}
use gdbstub.Hex.Buffer.{read_at}

-- The digit of a value, in upper case.
abbrev pub upper_char : ℕ → ℕ
upper_char n = if ltb n 10 then b'0' + n else b'A' + n - 10

-- The two digits of each byte.
abbrev pub upper_text : Bytes → Bytes
upper_text [] = []
upper_text (b ∷ bs) = upper_char (b / 16) ∷ upper_char (b % 16) ∷ upper_text bs

abbrev pub rounds : Bytes → ℕ
rounds [] = 0
rounds (b ∷ bs) = suc (suc (rounds bs))

rounds-eq : (bs : Bytes) → rounds bs ≡ length bs * 2
rounds-eq [] = refl
rounds-eq (b ∷ bs) = omega (arith, rounds-eq bs)

length-upper_text : (bs : Bytes) → length (upper_text bs) ≡ rounds bs
length-upper_text [] = refl
length-upper_text (b ∷ bs) = omega (arith, length-upper_text bs)

upper_digit-char : (n : ℕ) → n < 16 → upper_digit n ≡ some (upper_char n)
upper_digit-char n h = ground arith

high_digit :
    (i b : ℕ) → b < 256 → i % 2 ≡ 0 → upper_digit (nybble_at i b) ≡ some (upper_char (b / 16))
high_digit i b h even = rw (even, high_nybble b h) (upper_digit-char (b / 16) (omega arith))

low_digit :
    (i b : ℕ) → b < 256 → i % 2 ≡ 1 → upper_digit (nybble_at i b) ≡ some (upper_char (b % 16))
low_digit i b h odd = rw (odd, low_nybble b h) (upper_digit-char (b % 16) (omega arith))

-- One round: the byte is read behind the gap, and the digit goes behind those that are written.
round_lem :
    (left start : ℕ) (out gap : Bytes) (b : ℕ) (r : Bytes) (g : ℕ) (after : Bytes) (d : ℕ)
    → start + length out / 2 ≡ length out + length gap
    → gap ++ (b ∷ r) ≡ g ∷ after
    → upper_digit (nybble_at (length out) b) ≡ some d
    → encode_loop (suc left) (length out) start (out ++ (gap ++ (b ∷ r)))
      ≡ encode_loop left (length (out ++ (d ∷ []))) start ((out ++ (d ∷ [])) ++ after)
unfolding encode_loop
round_lem left start out gap b r g after d place slot digit =
    rw (read_at out gap b r (start + length out / 2) place) (
      rw
        (
          digit,
          slot,
          set-append_here out after g d,
          append_assoc out (d ∷ []) after,
          length-append out (d ∷ []),
        )
        refl)

-- A gap that is not empty, and what it is with a byte behind it.
gap_step :
    (gap : Bytes) (b : ℕ) (r : Bytes)
    → 0 < length gap
    → (g : ℕ) × (rest : Bytes) × (next : ℕ) × (behind : Bytes) × (gap ≡ g ∷ rest)
      × (rest ++ (b ∷ r) ≡ next ∷ (behind ++ r))
      × (length behind ≡ length rest)
gap_step [] b r h = absurd (omega arith)
gap_step (g ∷ []) b r h = (g, [], b, [], refl, refl, refl)
gap_step (g ∷ x ∷ gap) b r h = (
  g,
  x ∷ gap,
  x,
  gap ++ (b ∷ []),
  refl,
  ap (◌∷◌ x) (sym (append_assoc gap (b ∷ []) r)),
  omega (arith, length-append {0} gap (b ∷ [])),
)

loop_lem :
    (todo out gap : Bytes) (start : ℕ)
    → All IsByte todo
    → length out % 2 ≡ 0
    → start + length out / 2 ≡ length out + length gap
    → length todo ≤ length gap
    → (after : Bytes) × (encode_loop (rounds todo) (length out) start (out ++ (gap ++ todo))
        ≡ some ((out ++ upper_text todo) ++ after))
unfolding encode_loop
loop_lem [] out gap start bytes even place room = (gap ++ [], rw (append-nil out) refl)
loop_lem (b ∷ r) out gap start (hb, bytes) even place room =
    let (g, rest, next, behind, opens, slot, len) = gap_step gap b r (omega arith) in
    let h = upper_char (b / 16) in
    let l = upper_char (b % 16) in
    let out1 = out ++ (h ∷ []) in
    let out2 = out1 ++ (l ∷ []) in
    let len1 : length out1 ≡ length out + 1 = length-append out (h ∷ []) in
    let len2 : length out2 ≡ length out1 + 1 = length-append out1 (l ∷ []) in
    let gaps : length gap ≡ suc (length rest) = ap length opens in
    let (after, ends) =
      loop_lem r out2 behind start bytes (omega arith) (omega arith) (omega arith) in
    let first =
      round_lem (suc (rounds r)) start out gap b r g (rest ++ (b ∷ r)) h place
        (ap (λ v. v ++ (b ∷ r)) opens) (high_digit (length out) b hb even) in
    let second =
      round_lem (rounds r) start out1 rest b r next (behind ++ r) l (omega arith) slot
        (low_digit (length out1) b hb (omega arith)) in
    let joined : out2 ++ upper_text r ≡ out ++ upper_text (b ∷ r) =
      append_assoc out1 (l ∷ []) (upper_text r) ∙ append_assoc out (h ∷ []) (l ∷ upper_text r) in
    (after, first ∙ second ∙ ends ∙ ap (λ v. some (v ++ after)) joined)

-- The rounds on the whole slice, and the slice that is returned.
returned-rounds :
    (front bytes : Bytes)
    → All IsByte bytes
    → length bytes ≤ length front
    → returned (rounds bytes) (encode_loop (rounds bytes) 0 (length front) (front ++ bytes))
      ≡ encoded (upper_text bytes)
returned-rounds front bytes are_bytes room =
    let (after, ends) = loop_lem bytes [] front (length front) are_bytes refl (omega arith) room in
    rw (ends, ← length-upper_text bytes) (rw take-length-append refl)

-- `encode_hex_buf` on a slice that holds the data behind some other bytes gives the two digits of
-- each byte of the data, in upper case and in order, if there are at least as many bytes in front as
-- data, and else reports a small buffer. A slice has less than 2^63 bytes; the build's checks of
-- overflow do not matter.
pub encode_hex_buf-upper_text :
    (overflow_checks : Bool) (front bytes : Bytes)
    → All IsByte bytes
    → length front + length bytes < 2 ^ 63
    → encode_hex_buf overflow_checks (front ++ bytes) (length front)
      ≡ (if leb (length bytes) (length front) then encoded (upper_text bytes) else small_buffer)
unfolding encode_hex_buf encode_len
encode_hex_buf-upper_text overflow_checks front bytes are_bytes fits =
    let sum = length-append front bytes in
    let len : data_len overflow_checks (front ++ bytes) (length front) ≡ some (length bytes) =
      ground arith in
    let twice : doubled overflow_checks (length bytes) ≡ some (rounds bytes) =
      ground (arith, rounds-eq bytes) in
    rw (len, twice)
      (elim (Bool-cases (leb (length bytes) (length front))) [
        | inl wide ↦
            let roomy : ltb (length (front ++ bytes)) (rounds bytes) ≡ false =
              ground (arith, rounds-eq bytes) in
            rw (wide, roomy) (returned-rounds front bytes are_bytes (ground arith))
        | inr narrow ↦
            let tight : ltb (length (front ++ bytes)) (rounds bytes) ≡ true =
              ground (arith, rounds-eq bytes) in
            rw (narrow, tight) refl
      ])
