-- ===== src/Hex/Number.antt =====
-- src/protocol/common/hex.rs: `decode_hex` against the value of its digits.
use gdbstub.Prelude.{
  ℕ, ◌+◌, ◌*◌, ◌≤◌, ◌≡◌, ◌≢◌, refl, ◌↔◌, Option, some, arith, Bytes, [], ◌∷◌, ok, Option-cases, inl,
  inr,
}
use gdbstub.Prelude.OptionDo.{◌>>=◌, bind-eq-some}
use gdbstub.Prelude.ResultDo.{bind-eq-ok}
use gdbstub.Hex.{ascii2byte, decode_digit, decode_digits, decode_hex, checked}

-- The value of the digits behind `acc`, with no bound; `none` at a byte that is no digit.
abbrev pub hex_value : ℕ → Bytes → Option ℕ
hex_value acc [] = some acc
hex_value acc (c ∷ cs) = do x ← ascii2byte c; hex_value (acc * 16 + x) cs

hex_value_grows : (cs : Bytes) (acc : ℕ) {v : ℕ} → hex_value acc cs ≡ some v → acc ≤ v
hex_value_grows [] acc h = ground arith
hex_value_grows (c ∷ cs) acc h =
    let (x, _, rest) = bind-eq-some (ascii2byte c) (λ x. hex_value (acc * 16 + x) cs) h in
    omega (arith, hex_value_grows cs (acc * 16 + x) rest)

decode_digit-ok :
    (max r c : ℕ) {n : ℕ}
    → decode_digit max r c ≡ ok n
    → (x : ℕ) × (ascii2byte c ≡ some x) × (n ≡ r * 16 + x) × (n ≤ max)
unfolding decode_digit checked
decode_digit-ok max r c h = elim (Option-cases (ascii2byte c)) [
  | inl e ↦ absurd (ground arith)
  | inr (x, e) ↦ (x, e, ground arith, ground arith)
]

decode_digit-fits :
    (max r c x : ℕ)
    → ascii2byte c ≡ some x
    → r * 16 + x ≤ max
    → decode_digit max r c ≡ ok (r * 16 + x)
unfolding decode_digit checked
decode_digit-fits max r c x h fits = rw h (ground arith)

decode_digits-ok :
    (max : ℕ) (cs : Bytes) (r : ℕ) {v : ℕ}
    → r ≤ max
    → decode_digits max r cs ≡ ok v
    → (hex_value r cs ≡ some v) × (v ≤ max)
unfolding decode_digits
decode_digits-ok max [] r fits h = ground arith
decode_digits-ok max (c ∷ cs) r fits h =
    let (n, first, rest) = bind-eq-ok (decode_digit max r c) (λ n. decode_digits max n cs) h in
    let (x, digit, e, small) = decode_digit-ok max r c first in
    let (value, bound) = decode_digits-ok max cs n small rest in (rw digit (rw (← e) value), bound)

decode_digits-fits :
    (max : ℕ) (cs : Bytes) (r : ℕ) {v : ℕ}
    → hex_value r cs ≡ some v
    → v ≤ max
    → decode_digits max r cs ≡ ok v
unfolding decode_digits
decode_digits-fits max [] r h fits = ground arith
decode_digits-fits max (c ∷ cs) r h fits =
    let (x, digit, rest) = bind-eq-some (ascii2byte c) (λ x. hex_value (r * 16 + x) cs) h in
    let small : r * 16 + x ≤ max = omega (arith, hex_value_grows cs (r * 16 + x) rest) in
    rw (decode_digit-fits max r c x digit small) (decode_digits-fits max cs (r * 16 + x) rest fits)

-- `decode_hex` gives `v` exactly when the text is not empty, all its bytes are digits, and their
-- value, with no bound on the way, is `v` and fits the integer type.
pub decode_hex_iff :
    (max : ℕ) (buf : Bytes) (v : ℕ)
    → 16 ≤ max
    → (decode_hex max buf ≡ ok v) ↔ ((buf ≢ []) × (hex_value 0 buf ≡ some v) × (v ≤ max))
unfolding decode_hex
decode_hex_iff max [] v wide = (λ h. cc, λ h. absurd (h.0 refl))
decode_hex_iff max (c ∷ cs) v wide =
    let radix : checked max 16 ≡ some 16 = ground arith in
    (
      λ h.
          let (value, bound) = decode_digits-ok max (c ∷ cs) 0 (omega arith) (rw radix at h) in
          (λ e. cc, value, bound),
      λ h. rw radix (decode_digits-fits max (c ∷ cs) 0 h.1 h.2),
    )
