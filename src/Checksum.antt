-- ===== src/Checksum.antt =====
-- src/protocol/packet.rs: `body.iter().fold(0u8, |a, x| a.wrapping_add(*x))`.
use gdbstub.Prelude.{Bytes, ℕ, ◌+◌, ◌%◌, ◌<◌, ◌≡◌, refl, [], ◌∷◌, ◌++◌, arith}

abbrev pub wrapping_sum : ℕ → Bytes → ℕ
wrapping_sum a [] = a
wrapping_sum a (x ∷ xs) = wrapping_sum ((a + x) % 256) xs

pub wrapping_sum-append :
    (xs ys : Bytes) (a : ℕ) → wrapping_sum a (xs ++ ys) ≡ wrapping_sum (wrapping_sum a xs) ys
wrapping_sum-append [] ys a = refl
wrapping_sum-append (x ∷ xs) ys a = wrapping_sum-append xs ys ((a + x) % 256)

pub wrapping_sum-lt : (xs : Bytes) (a : ℕ) → a < 256 → wrapping_sum a xs < 256
wrapping_sum-lt [] a h = h
wrapping_sum-lt (x ∷ xs) a h = wrapping_sum-lt xs ((a + x) % 256) (omega arith)
