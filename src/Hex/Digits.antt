-- ===== src/Hex/Digits.antt =====
-- src/protocol/common/hex.rs: `ascii2byte` and `is_hex`, and the shift that joins two digits.
use gdbstub.Prelude.{
  all_below, all_below_sound, ◌==◌, ℕ, ◌+◌, ◌*◌, ◌<◌, ◌≡◌, refl, Bool, true, false, Option, none,
  some, arith,
}
use gdbstub.Hex.{ascii2byte, is_hex, join_nybbles}

abbrev pub is_some {ℓ} : {A : Type ℓ} → Option A → Bool
is_some none = false
is_some (some _) = true

pub ascii2byte-lt : (c : ℕ) {x : ℕ} → ascii2byte c ≡ some x → x < 16
unfolding ascii2byte
ascii2byte-lt c h = ground arith

-- `is_hex` accepts exactly the bytes that `ascii2byte` decodes.
pub is_hex-ascii2byte : (c : ℕ) → is_hex c ≡ is_some (ascii2byte c)
unfolding is_hex ascii2byte
is_hex-ascii2byte c = ground arith

join_table : all_below 16 (λ hi. all_below 16 (λ lo. join_nybbles hi lo == hi * 16 + lo)) ≡ true
unfolding all_below join_nybbles
join_table = refl

-- The `|` of two digits loses nothing.
pub join_nybbles-eq : (hi lo : ℕ) → hi < 16 → lo < 16 → join_nybbles hi lo ≡ hi * 16 + lo
join_nybbles-eq hi lo p q =
    let row : all_below 16 (λ lo. join_nybbles hi lo == hi * 16 + lo) ≡ true =
      all_below_sound 16 _ hi join_table p in
    let cell : (join_nybbles hi lo == hi * 16 + lo) ≡ true = all_below_sound 16 _ lo row q in
    ground arith
