-- ===== src/LeBytes/Decoding.antt =====
-- src/internal/le_bytes.rs: `from_le_bytes` against the value of the array.
use gdbstub.Prelude.{
  Bool-cases, Bytes, ltb, length, take, drop, length-drop, All, IsByte, ℕ, zero, suc, ◌+◌, ◌-◌, ◌*◌,
  ◌^◌, ◌≤◌, ◌<◌, ◌≡◌, refl, ap, ◌∙◌, inl, inr, false, some, [], ◌∷◌, arith,
}
use native.Mathlib.Nat.{pow-le-pow_right, pow-suc}
use gdbstub.LeBytes.{shift_back, from_le_bytes, any_nonzero}
use gdbstub.LeBytes.Value.{le_value, le_value-lt, shift_back-le_value}

All-drop : (n : ℕ) (xs : Bytes) → All IsByte xs → All IsByte (drop n xs)
All-drop zero xs h = h
All-drop (suc n) [] h = h
All-drop (suc n) (x ∷ xs) (_, h) = All-drop n xs h

short_fits : (size : ℕ) (bs : Bytes) → All IsByte bs → length bs ≤ size → le_value bs < 256 ^ size
short_fits size bs h short = omega (
  arith,
  le_value-lt bs h,
  pow-le-pow_right {n = 256} (omega arith) {i = length bs} {j = size} short,
)

-- The first bytes are the lowest digits.
low_digits :
    (extra : ℕ) (bs : Bytes) (v : ℕ)
    → All IsByte bs
    → extra ≤ length bs
    → le_value bs ≡ v * 256 ^ extra
    → (any_nonzero (take extra bs) ≡ false) × (le_value (drop extra bs) ≡ v)
low_digits zero bs v h len e = (refl, omega (arith, e))
low_digits (suc n) [] v h len e = absurd (omega arith)
low_digits (suc n) (b ∷ bs) v (hb, h) len e =
    let power : v * 256 ^ suc n ≡ v * 256 ^ n * 256 = rw (pow-suc 256 n) (grind arith) in
    let z : b ≡ 0 = omega (arith, e, power) in
    let rest : le_value bs ≡ v * 256 ^ n = omega (arith, e, power) in
    let (zeros, value) = low_digits n bs v h (omega arith) rest in (ground arith, value)

-- An array of `extra` bytes more than the integer has, whose value is `v` times the power of 256
-- that belongs to them, is read as `v`: what is dropped are the lowest digits, not the highest. So
-- an array of the integer's length gives its value, and a longer one may give a number although its
-- value does not fit.
pub from_le_bytes-shifted :
    (size extra v : ℕ) (buf : Bytes)
    → All IsByte buf
    → length buf ≡ size + extra
    → le_value buf ≡ v * 256 ^ extra
    → from_le_bytes size buf ≡ some v
unfolding from_le_bytes
from_le_bytes-shifted size extra v buf h len value =
    let (zeros, high) = low_digits extra buf v h (omega arith) value in
    let bytes = All-drop extra buf h in
    let fits = short_fits size (drop extra buf) bytes (omega (arith, length-drop extra buf)) in
    let reads : shift_back size (drop extra buf) ≡ v =
      shift_back-le_value size (drop extra buf) bytes fits ∙ high in
    elim (Bool-cases (ltb size (length buf))) [
      | inl long ↦
          let e : length buf - size ≡ extra = omega arith in rw (long, e, zeros) (ap some reads)
      | inr exact ↦ let e : extra ≡ 0 = ground arith in rw exact (ap some (rw e at reads))
    ]
