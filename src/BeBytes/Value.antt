-- ===== src/BeBytes/Value.antt =====
-- src/internal/be_bytes.rs: the value of a big-endian byte array.
use gdbstub.BeBytes.{be_bytes, to_be_bytes}
use gdbstub.Prelude.{
  Bytes, length, take, drop, length-append, take-length-append, All, All-append, IsByte, ℕ, zero,
  suc, ◌+◌, ◌*◌, ◌/◌, ◌%◌, ◌^◌, ◌≤◌, ◌<◌, ◌≡◌, refl, sym, ap, ◌∙◌, some, [], ◌∷◌, ◌++◌, arith,
}
use native.Mathlib.Nat.{pow-suc}

abbrev pub be_value : ℕ → Bytes → ℕ
be_value acc [] = acc
be_value acc (b ∷ bs) = be_value (acc * 256 + b) bs

pub length-be_bytes : (size n : ℕ) → length (be_bytes size n) ≡ size
length-be_bytes zero n = refl
length-be_bytes (suc size) n = omega (
  arith,
  length-append {0} (be_bytes size (n / 256)) (n % 256 ∷ []),
  length-be_bytes size (n / 256),
)

pub be_bytes-IsByte : (size n : ℕ) → All IsByte (be_bytes size n)
be_bytes-IsByte zero n = tt
be_bytes-IsByte (suc size) n =
    All-append IsByte (be_bytes size (n / 256)) _ (be_bytes-IsByte size (n / 256)) (omega arith, tt)

be_value-append :
    (xs ys : Bytes) (acc : ℕ) → be_value acc (xs ++ ys) ≡ be_value (be_value acc xs) ys
be_value-append [] ys acc = refl
be_value-append (x ∷ xs) ys acc = be_value-append xs ys (acc * 256 + x)

-- The bytes of a number that fits have its value.
pub be_value-be_bytes : (size n : ℕ) → n < 256 ^ size → be_value 0 (be_bytes size n) ≡ n
be_value-be_bytes zero n h = omega arith
be_value-be_bytes (suc size) n h =
    be_value-append (be_bytes size (n / 256)) (n % 256 ∷ []) 0
    ∙ omega (arith, be_value-be_bytes size (n / 256) (omega (arith, pow-suc 256 size)))

-- `to_be_bytes` into a buffer that is long enough puts the bytes at its front.
pub to_be_bytes-fits :
    (size n : ℕ) (buf : Bytes)
    → size ≤ length buf
    → to_be_bytes size n buf ≡ some (size, be_bytes size n ++ drop size buf)
unfolding to_be_bytes
to_be_bytes-fits size n buf h = ground arith

pub take-be_bytes : (size n : ℕ) (ys : Bytes) → take size (be_bytes size n ++ ys) ≡ be_bytes size n
take-be_bytes size n ys =
    ap (λ k. take k (be_bytes size n ++ ys)) (sym (length-be_bytes size n))
    ∙ take-length-append (be_bytes size n) ys
