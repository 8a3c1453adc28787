-- ===== src/BeBytes/Decoding.antt =====
-- src/internal/be_bytes.rs: `from_be_bytes` against the value of the array.
use gdbstub.Prelude.{
  Bool-cases, Bytes, ltb, ◌==◌, if◌then◌else◌, length, take, drop, length-drop, All, IsByte, ℕ,
  zero, suc, ◌+◌, ◌-◌, ◌*◌, ◌%◌, ◌^◌, ◌≤◌, ◌<◌, ◌≡◌, refl, sym, ap, ◌∙◌, ◌≢◌, inl, inr, true, false,
  Option, none, some, [], ◌∷◌, ◌++◌, arith,
}
use native.Mathlib.Nat.{pow-le-pow_right, pow-suc, mod-eq_of_lt, mul_assoc, mul_comm}
use gdbstub.Prelude.Bits.{bit_or-shifted}
use gdbstub.BeBytes.{shift_in, from_be_bytes, any_nonzero}
use gdbstub.BeBytes.Value.{be_value}

be_value_grows : (bs : Bytes) (acc : ℕ) → acc * 256 ^ length bs ≤ be_value acc bs
be_value_grows [] acc = omega arith
be_value_grows (b ∷ bs) acc =
    let p = 256 ^ length bs in
    let power : acc * 256 ^ suc (length bs) ≡ acc * 256 * p =
      rw (pow-suc 256 (length bs), mul_comm p 256) (sym (mul_assoc acc 256 p)) in
    let more : acc * 256 * p ≤ (acc * 256 + b) * p = grind arith in
    omega (arith, be_value_grows bs (acc * 256 + b))

be_value-lt : (bs : Bytes) (acc : ℕ) → All IsByte bs → be_value acc bs < (acc + 1) * 256 ^ length bs
be_value-lt [] acc h = omega arith
be_value-lt (b ∷ bs) acc (hb, h) =
    let p = 256 ^ length bs in
    let power : (acc + 1) * 256 ^ suc (length bs) ≡ (acc + 1) * 256 * p =
      rw (pow-suc 256 (length bs), mul_comm p 256) (sym (mul_assoc (acc + 1) 256 p)) in
    let more : (acc * 256 + b + 1) * p ≤ (acc + 1) * 256 * p = grind arith in
    omega (arith, power, more, be_value-lt bs (acc * 256 + b) h)

le-be_value : (bs : Bytes) (acc : ℕ) → acc ≤ be_value acc bs
le-be_value [] acc = omega arith
le-be_value (b ∷ bs) acc = omega (arith, le-be_value bs (acc * 256 + b))

-- No bit is lost while the value fits.
shift_in-be_value :
    (size : ℕ) (bs : Bytes) (res : ℕ)
    → All IsByte bs
    → be_value res bs < 256 ^ size
    → shift_in size res bs ≡ be_value res bs
unfolding shift_in
shift_in-be_value size [] res h fits = refl
shift_in-be_value size (b ∷ bs) res (hb, h) fits =
    let small : res * 256 + b < 256 ^ size = omega (arith, le-be_value bs (res * 256 + b)) in
    let first : res * 2 ^ 4 % 256 ^ size ≡ res * 16 = mod-eq_of_lt (omega arith) in
    let shifted : res * 16 * 2 ^ 4 ≡ res * 2 ^ 8 = omega arith in
    let second : res * 16 * 2 ^ 4 % 256 ^ size ≡ res * 2 ^ 8 =
      rw shifted (mod-eq_of_lt (omega arith)) in
    rw first (
      rw second (rw (bit_or-shifted 8 res b hb) (shift_in-be_value size bs (res * 256 + b) h fits)))

take-drop : (n : ℕ) (xs : Bytes) → take n xs ++ drop n xs ≡ xs
take-drop zero xs = refl
take-drop (suc n) [] = refl
take-drop (suc n) (x ∷ xs) = ap (◌∷◌ x) (take-drop n xs)

be_value-append :
    (xs ys : Bytes) (acc : ℕ) → be_value acc (xs ++ ys) ≡ be_value (be_value acc xs) ys
be_value-append [] ys acc = refl
be_value-append (x ∷ xs) ys acc = be_value-append xs ys (acc * 256 + x)

All-drop : (n : ℕ) (xs : Bytes) → All IsByte xs → All IsByte (drop n xs)
All-drop zero xs h = h
All-drop (suc n) [] h = h
All-drop (suc n) (x ∷ xs) (_, h) = All-drop n xs h

be_value-zeros : (bs : Bytes) → any_nonzero bs ≡ false → be_value 0 bs ≡ 0
be_value-zeros [] h = refl
be_value-zeros (b ∷ bs) h = let z : b ≡ 0 = ground arith in rw z (be_value-zeros bs (ground arith))

be_value-nonzero : (bs : Bytes) → any_nonzero bs ≡ true → 0 < be_value 0 bs
be_value-nonzero [] h = cc
be_value-nonzero (b ∷ bs) h = elim (Bool-cases (b == 0)) [
  | inl z ↦ let e : b ≡ 0 = ground arith in rw e (be_value-nonzero bs (ground arith))
  | inr nz ↦ let e : b ≢ 0 = ground arith in omega (arith, le-be_value bs (0 * 256 + b))
]

le-times : (p v : ℕ) → 0 < v → p ≤ v * p
le-times p zero h = absurd (omega arith)
le-times p (suc v) h = grind arith

-- The value, if an integer of `size` bytes holds it.
abbrev pub fitting : ℕ → ℕ → Option ℕ
fitting size v = if ltb v (256 ^ size) then some v else none

fitting-some : (size v : ℕ) → v < 256 ^ size → fitting size v ≡ some v
fitting-some size v h = ground arith

fitting-none : (size v : ℕ) → 256 ^ size ≤ v → fitting size v ≡ none
fitting-none size v h = ground arith

whole_fits : (size : ℕ) (bs : Bytes) → All IsByte bs → length bs ≤ size → be_value 0 bs < 256 ^ size
whole_fits size bs h short = omega (
  arith,
  be_value-lt bs 0 h,
  pow-le-pow_right {n = 256} (omega arith) {i = length bs} {j = size} short,
)

-- `from_be_bytes` gives the value of the array if the integer type holds it, else `None`; an array
-- may be longer than the integer, as long as what is in front is zero.
pub from_be_bytes-fitting :
    (size : ℕ) (buf : Bytes)
    → All IsByte buf
    → from_be_bytes size buf ≡ fitting size (be_value 0 buf)
unfolding from_be_bytes
from_be_bytes-fitting size buf h = elim (Bool-cases (ltb size (length buf))) [
  | inr short ↦
      let fits = whole_fits size buf h (ground arith) in
      rw short (
        ap some (shift_in-be_value size buf 0 h fits)
        ∙ sym (fitting-some size (be_value 0 buf) fits))
  | inl long ↦
      let extra = length buf - size in
      let high = take extra buf in
      let low = drop extra buf in
      let value : be_value 0 buf ≡ be_value (be_value 0 high) low =
        ap (be_value 0) (sym (take-drop extra buf)) ∙ be_value-append high low 0 in
      let lt : size < length buf = ground arith in
      let len : length low ≡ size = omega (arith, length-drop extra buf) in
      let low_bytes = All-drop extra buf h in
      rw long (elim (Bool-cases (any_nonzero high)) [
        | inl some_bit ↦
            let big : be_value 0 high * 256 ^ size ≤ be_value (be_value 0 high) low =
              rw len at (be_value_grows low (be_value 0 high)) in
            let pos = be_value-nonzero high some_bit in
            let once = le-times (256 ^ size) (be_value 0 high) pos in
            rw some_bit (sym (fitting-none size (be_value 0 buf) (omega (arith, big, once, value))))
        | inr zeros ↦
            let fits = whole_fits size low low_bytes (omega arith) in
            let e : be_value 0 buf ≡ be_value 0 low =
              value ∙ ap (λ n. be_value n low) (be_value-zeros high zeros) in
            rw zeros (
              ap some (shift_in-be_value size low 0 low_bytes fits)
              ∙ sym (ap (fitting size) e ∙ fitting-some size (be_value 0 low) fits))
      ])
]
