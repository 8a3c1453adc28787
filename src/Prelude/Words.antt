-- ===== src/Prelude/Words.antt =====
-- The widths of the integers that the program parses into.
use Prim.Native.Nat.{ℕ, ◌-◌, ◌^◌}

-- `usize` of a 64-bit host.
abbrev pub usize_max : ℕ
usize_max = 2 ^ 64 - 1

abbrev pub u8_max : ℕ
u8_max = 2 ^ 8 - 1
