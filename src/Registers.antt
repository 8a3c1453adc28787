-- ===== src/Registers.antt =====
-- gdbstub_arch/src/: the register blocks of the architectures. What their methods `gdb_serialize` and
-- `gdb_deserialize` use of the language: writing bytes through a callback, slices, `chunks_exact`, and
-- an iterator over words whose `next().ok_or(())?` ends the method.
pub mod Reader
pub mod Codec
pub mod Sections
pub mod Safety
pub mod RawIds
pub mod Mips
pub mod X86
pub mod Ppc
pub mod Arm
pub mod Riscv
pub mod Msp430
use gdbstub.Prelude.{
  Bytes, length, take, drop, replicate, leb, ◌==◌, if◌then◌else◌, ℕ, zero, suc, ◌-◌, ◌/◌, ◌&&◌,
  Option, none, some, List, [], ◌∷◌, ◌++◌, map,
}
use gdbstub.Prelude.Slices.{range}
use gdbstub.LeBytes.{le_bytes, from_le_bytes, to_le_bytes}
use gdbstub.LeBytes.Value.{le_value}

-- What `gdb_serialize` hands to its callback: a byte, or `None` for an unavailable one.
abbrev pub Serial : Type 0
Serial = List (Option ℕ)

abbrev pub written : Bytes → Serial
written [] = []
written (b ∷ bs) = some b ∷ written bs

abbrev pub unavailable : ℕ → Serial
unavailable n = replicate n none

-- What is written in order.
abbrev pub in_order : List Serial → Serial
in_order [] = []
in_order (s ∷ ss) = s ++ in_order ss

-- The bytes of each element in turn.
abbrev pub flat : {A : Type 0} → (A → Bytes) → List A → Bytes
flat bytes_of [] = []
flat bytes_of (x ∷ xs) = bytes_of x ++ flat bytes_of xs

abbrev pub le_flat : ℕ → List ℕ → Bytes
le_flat size = flat (le_bytes size)

-- The bytes, with `pad` for the unavailable ones.
abbrev pub filled : ℕ → Serial → Bytes
filled pad [] = []
filled pad (none ∷ s) = pad ∷ filled pad s
filled pad (some b ∷ s) = b ∷ filled pad s

-- `Result<(), ()>`, with the registers that are written if it is `Ok`, and a panic.
pub data Parsed {ℓ} (A : Type ℓ) : Type ℓ where
  parsed : A → Parsed A
  failed : Parsed A
  panic : Parsed A

infixl 5 ◌>>=◌ ◌>>◌
abbrev pub ◌>>=◌ {ℓ κ} : {A : Type ℓ} {B : Type κ} → Parsed A → (A → Parsed B) → Parsed B
parsed a >>= f = f a
failed >>= f = failed
panic >>= f = panic

abbrev pub ◌>>◌ {ℓ κ} : {A : Type ℓ} {B : Type κ} → Parsed A → Parsed B → Parsed B
m >> k = m >>= λ _. k

-- `.ok()`.
abbrev pub parsed_option : {A : Type 0} → Parsed A → Option A
parsed_option (parsed a) = some a
parsed_option _ = none

-- `bytes[lo..hi]`.
abbrev pub slice : ℕ → ℕ → Bytes → Parsed Bytes
slice lo hi bytes = if leb lo hi && leb hi (length bytes) then parsed (range lo hi bytes) else panic

-- `chunks_exact`: `left` chunks.
abbrev pub chunks : ℕ → ℕ → Bytes → List Bytes
chunks size zero bytes = []
chunks size (suc left) bytes = take size bytes ∷ chunks size left (drop size bytes)

abbrev pub chunks_exact : ℕ → Bytes → List Bytes
chunks_exact size bytes = chunks size (length bytes / size) bytes

-- The loop over an array of arrays of `size` bytes: `*reg = next().ok_or(())?.map_err(|_| ())?`.
abbrev pub arrays : ℕ → ℕ → List Bytes → Parsed (List Bytes)
arrays size zero cs = parsed []
arrays size (suc n) [] = failed
arrays size (suc n) (c ∷ cs) =
    let rest = arrays size n cs >>= λ others. parsed (c ∷ others) in
    if length c == size then rest else failed

-- Words that an iterator has left; `none` is one whose conversion is unwrapped and panics.
abbrev pub Words : Type 0
Words = List (Option ℕ)

-- The conversions of the chunks.
abbrev pub words_by : (Bytes → Option ℕ) → List Bytes → Words
words_by value [] = []
words_by value (c ∷ cs) = value c ∷ words_by value cs

-- `from_le_bytes` of the language; a chunk has the length of its array.
abbrev pub le_words : List Bytes → Words
le_words = words_by (λ c. some (le_value c))

-- `LeBytes::from_le_bytes(c).unwrap()`.
abbrev pub checked_words : ℕ → List Bytes → Words
checked_words size = words_by (from_le_bytes size)

-- The bytes that `write_le_bytes!` writes: `LeBytes::to_le_bytes` into a buffer of 16 bytes; for a
-- number of more bytes, which no architecture has, it panics.
abbrev front : Option (ℕ × Bytes) → Bytes
front none = []
front (some (len, buf)) = take len buf

unfoldable pub buffered : ℕ → ℕ → Bytes
buffered size w = front (to_le_bytes size w (replicate 16 0))
