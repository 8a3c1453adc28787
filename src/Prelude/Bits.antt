-- ===== src/Prelude/Bits.antt =====
-- `bit_or` of a shifted number and what fits below it.
use Prim.Native.Nat.{
  ℕ, zero, suc, ◌+◌, ◌*◌, ◌/◌, ◌%◌, ◌^◌, ◌≤◌, ◌<◌, max, bit_or, digits, bit_or-bitwise,
}
use mathlib.Core.Path.{◌≡◌, refl, sym, ap, ◌∙◌}
use native.Mathlib.Nat.{pow-suc, mul_assoc}
use native.Mathlib.Omega.{arith}

-- The digits of an `or`, counted down from `left`.
abbrev or_digits : ℕ → ℕ → ℕ → ℕ
or_digits a b left = digits (λ y. y) max left a b

or_digits-zero : (b left : ℕ) → or_digits 0 b left ≡ b
or_digits-zero b zero = refl
or_digits-zero b (suc left) = refl

-- Any count that is not below the first number gives the same.
or_digits-any : (left more a b : ℕ) → a ≤ left → a ≤ more → or_digits a b more ≡ or_digits a b left
or_digits-any left more zero b enough also = or_digits-zero b more ∙ sym (or_digits-zero b left)
or_digits-any zero more (suc a) b enough also = absurd (omega arith)
or_digits-any (suc left) zero (suc a) b enough also = absurd (omega arith)
or_digits-any (suc left) (suc more) (suc a) b enough also =
    let rest : or_digits (suc a / 2) (b / 2) more ≡ or_digits (suc a / 2) (b / 2) left =
      or_digits-any left more (suc a / 2) (b / 2) (omega arith) (omega arith) in
    ap (λ high. high * 2 + max (suc a % 2) (b % 2)) rest

bit_or_step : (a b : ℕ) → bit_or a b ≡ bit_or (a / 2) (b / 2) * 2 + max (a % 2) (b % 2)
bit_or_step zero b =
    let whole : bit_or 0 b ≡ b = bit_or-bitwise 0 b in
    let half : bit_or 0 (b / 2) ≡ b / 2 = bit_or-bitwise 0 (b / 2) in omega (arith, whole, half)
bit_or_step (suc a) b =
    bit_or-bitwise (suc a) b
    ∙ ap (λ high. high * 2 + max (suc a % 2) (b % 2))
        (or_digits-any (suc a / 2) a (suc a / 2) (b / 2) (omega arith) (omega arith)
          ∙ sym (bit_or-bitwise (suc a / 2) (b / 2)))

-- Induction on a bound of the number, which is halved.
bit_or-no_digits : (bound a : ℕ) → a ≤ bound → bit_or a 0 ≡ a
bit_or-no_digits bound zero small = bit_or-bitwise 0 0
bit_or-no_digits zero (suc a) small = absurd (omega arith)
bit_or-no_digits (suc bound) (suc a) small =
    bit_or_step (suc a) 0 ∙ omega (arith, bit_or-no_digits bound (suc a / 2) (omega arith))

bit_or-double : (x b : ℕ) → bit_or (x * 2) b ≡ bit_or x (b / 2) * 2 + b % 2
bit_or-double x b =
    let half : x * 2 / 2 ≡ x = omega arith in
    let even : x * 2 % 2 ≡ 0 = omega arith in
    let step : bit_or (x * 2) b ≡ bit_or x (b / 2) * 2 + max 0 (b % 2) =
      rw (half, even) at (bit_or_step (x * 2) b) in
    omega (arith, step)

-- The digits of `b` go where `x` has none.
pub bit_or-shifted : (k r b : ℕ) → b < 2 ^ k → bit_or (r * 2 ^ k) b ≡ r * 2 ^ k + b
bit_or-shifted zero r b h =
    let none_left : b ≡ 0 = omega arith in
    rw none_left (omega (arith, bit_or-no_digits (r * 1) (r * 1) (omega arith)))
bit_or-shifted (suc k) r b h =
    let twice : r * 2 ^ suc k ≡ r * 2 ^ k * 2 = rw (pow-suc 2 k) (sym (mul_assoc r (2 ^ k) 2)) in
    rw twice (
      omega (
        arith,
        bit_or-double (r * 2 ^ k) b,
        bit_or-shifted k r (b / 2) (omega (arith, pow-suc 2 k)),
      ))
