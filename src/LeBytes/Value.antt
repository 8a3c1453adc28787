-- ===== src/LeBytes/Value.antt =====
-- src/internal/le_bytes.rs: the value of a little-endian byte array.
use gdbstub.Prelude.{
  Bytes, length, All, IsByte, ℕ, zero, suc, ◌+◌, ◌*◌, ◌/◌, ◌%◌, ◌^◌, ◌≤◌, ◌<◌, ◌≡◌, refl, some, [],
  ◌∷◌, ◌++◌, arith, drop,
}
use native.Mathlib.Nat.{pow-suc, mod-eq_of_lt}
use gdbstub.Prelude.Bits.{bit_or-shifted}
use gdbstub.LeBytes.{le_bytes, to_le_bytes, shift_back}

abbrev pub le_value : Bytes → ℕ
le_value [] = 0
le_value (b ∷ bs) = le_value bs * 256 + b

pub length-le_bytes : (size n : ℕ) → length (le_bytes size n) ≡ size
length-le_bytes zero n = refl
length-le_bytes (suc size) n = omega (arith, length-le_bytes size (n / 256))

pub le_bytes-IsByte : (size n : ℕ) → All IsByte (le_bytes size n)
le_bytes-IsByte zero n = tt
le_bytes-IsByte (suc size) n = (omega arith, le_bytes-IsByte size (n / 256))

-- The bytes of a number that fits have its value.
pub le_value-le_bytes : (size n : ℕ) → n < 256 ^ size → le_value (le_bytes size n) ≡ n
le_value-le_bytes zero n h = omega arith
le_value-le_bytes (suc size) n h =
    omega (arith, le_value-le_bytes size (n / 256) (omega (arith, pow-suc 256 size)))

pub le_value-lt : (bs : Bytes) → All IsByte bs → le_value bs < 256 ^ length bs
le_value-lt [] h = omega arith
le_value-lt (b ∷ bs) (hb, h) = omega (arith, le_value-lt bs h, pow-suc 256 (length bs))

pub to_le_bytes-fits :
    (size n : ℕ) (buf : Bytes)
    → size ≤ length buf
    → to_le_bytes size n buf ≡ some (size, le_bytes size n ++ drop size buf)
unfolding to_le_bytes
to_le_bytes-fits size n buf h = ground arith

-- No bit is lost while the value fits.
pub shift_back-le_value :
    (size : ℕ) (bs : Bytes)
    → All IsByte bs
    → le_value bs < 256 ^ size
    → shift_back size bs ≡ le_value bs
unfolding shift_back
shift_back-le_value size [] h fits = refl
shift_back-le_value size (b ∷ bs) (hb, h) fits =
    let v = le_value bs in
    let first : v * 2 ^ 4 % 256 ^ size ≡ v * 16 = mod-eq_of_lt (omega arith) in
    let shifted : v * 16 * 2 ^ 4 ≡ v * 2 ^ 8 = omega arith in
    let second : v * 16 * 2 ^ 4 % 256 ^ size ≡ v * 2 ^ 8 =
      rw shifted (mod-eq_of_lt (omega arith)) in
    rw (shift_back-le_value size bs h (omega arith))
      (rw first (rw second (bit_or-shifted 8 v b hb)))
