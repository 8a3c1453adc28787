-- ===== src/Registers/Safety.antt =====
-- gdbstub_arch/src/: no slice out of range, and no `unwrap` of nothing, in `gdb_deserialize`.
pub mod Iterators
pub mod Slices
use gdbstub.Prelude.{
  Bytes, length, take, drop, length-drop, leb, ltb, ◌==◌, if◌then◌else◌, Bool-cases, ℕ, zero, suc,
  ◌+◌, ◌*◌, ◌-◌, ◌/◌, ◌≤◌, ◌<◌, ◌≡◌, ◌≢◌, refl, ◌&&◌, Bool, true, false, inl, inr, Option, none,
  some, List, [], ◌∷◌, All, arith,
}
use native.Mathlib.Nat.{suc-mul, div-mul-le_self}
use gdbstub.LeBytes.{from_le_bytes}
use gdbstub.Registers.{
  Parsed, parsed, failed, panic, ◌>>=◌, slice, chunks, chunks_exact, arrays, Words, words_by,
  checked_words,
}
use gdbstub.Registers.Reader.{Reader, continue, pure, next, next_n, at_end, give_up, result, read}

abbrev pub NoPanic {ℓ} : {A : Type ℓ} → Parsed A → Type 0
NoPanic panic = ⊥
NoPanic _ = Unit

abbrev pub IsSome : Option ℕ → Type 0
IsSome none = ⊥
IsSome (some w) = Unit

-- No panic, and the words that are left are all there.
abbrev pub Leaves : {A : Type 0} → Parsed (A × Words) → Type 0
Leaves (parsed (a, ws)) = All IsSome ws
Leaves failed = Unit
Leaves panic = ⊥

pub record Safe {A : Type 0} (m : Reader A) : Type 0 where
  pub run : (ws : Words) → All IsSome ws → Leaves (m ws)

module _ {A B : Type 0} where
  continue-Leaves :
      (f : A → Reader B) (r : Parsed (A × Words))
      → Leaves r
      → ((a : A) → Safe (f a))
      → Leaves (continue f r)
  continue-Leaves f (parsed (a, ws)) h hf = (hf a).run ws h
  continue-Leaves f failed h hf = tt
  continue-Leaves f panic h hf = h

  pub bind-Safe :
      {m : Reader A} {f : A → Reader B}
      → Safe m
      → ((a : A) → Safe (f a))
      → Safe (λ ws. continue f (m ws))
  bind-Safe {m} {f} hm hf = record { run = λ ws h. continue-Leaves f (m ws) (hm.run ws h) hf }

pub pure-Safe : {A : Type 0} (a : A) → Safe (pure a)
pure-Safe a = record { run = λ ws h. h }

pub give_up-Safe : {A : Type 0} → Safe (give_up {A = A})
give_up-Safe = record { run = λ ws h. tt }

next-Leaves : (ws : Words) → All IsSome ws → Leaves (next ws)
next-Leaves [] h = tt
next-Leaves (none ∷ ws) h = h.0
next-Leaves (some w ∷ ws) h = h.1

pub next-Safe : Safe next
next-Safe = record { run = next-Leaves }

pub next_n-Safe : (n : ℕ) → Safe (next_n n)
next_n-Safe zero = pure-Safe []
next_n-Safe (suc n) =
    bind-Safe next-Safe λ w. bind-Safe (next_n-Safe n) λ rest. pure-Safe (w ∷ rest)

at_end-Leaves : (ws : Words) → All IsSome ws → Leaves (at_end ws)
at_end-Leaves [] h = tt
at_end-Leaves (none ∷ ws) h = h.0
at_end-Leaves (some w ∷ ws) h = tt

pub at_end-Safe : Safe at_end
at_end-Safe = record { run = at_end-Leaves }

result-NoPanic : {A : Type 0} (r : Parsed (A × Words)) → Leaves r → NoPanic (result r)
result-NoPanic (parsed (a, ws)) h = tt
result-NoPanic failed h = tt
result-NoPanic panic h = h

pub read-NoPanic :
    {A : Type 0} (m : Reader A) (ws : Words) → Safe m → All IsSome ws → NoPanic (read m ws)
read-NoPanic m ws hm h = result-NoPanic (m ws) (hm.run ws h)

pub bind-NoPanic :
    {A B : Type 0} (m : Parsed A) (f : A → Parsed B)
    → NoPanic m
    → ((a : A) → NoPanic (f a))
    → NoPanic (m >>= f)
bind-NoPanic (parsed a) f h hf = hf a
bind-NoPanic failed f h hf = tt
bind-NoPanic panic f h hf = h

-- Conversions that cannot fail.
pub words_by-IsSome :
    (value : Bytes → ℕ) (cs : List Bytes) → All IsSome (words_by (λ c. some (value c)) cs)
words_by-IsSome value [] = tt
words_by-IsSome value (c ∷ cs) = (tt, words_by-IsSome value cs)

length-take : (n : ℕ) (bytes : Bytes) → n ≤ length bytes → length (take n bytes) ≡ n
length-take zero bytes h = refl
length-take (suc n) [] h = absurd (omega arith)
length-take (suc n) (b ∷ bytes) h = omega (arith, length-take n bytes (omega arith))

whole_word : (size : ℕ) (c : Bytes) → length c ≡ size → IsSome (from_le_bytes size c)
unfolding from_le_bytes
whole_word size c e = let exact : ltb size (length c) ≡ false = ground arith in rw exact tt

checked_chunks :
    (size left : ℕ) (bytes : Bytes)
    → left * size ≤ length bytes
    → All IsSome (checked_words size (chunks size left bytes))
checked_chunks size zero bytes h = tt
checked_chunks size (suc left) bytes h = (
  whole_word size (take size bytes) (length-take size bytes (omega (arith, suc-mul left size))),
  checked_chunks size left (drop size bytes)
      (omega (arith, suc-mul left size, length-drop size bytes)),
)

-- A chunk is as long as the integer, so `from_le_bytes` gives a number.
pub checked_words-IsSome :
    (size : ℕ) (bytes : Bytes) → All IsSome (checked_words size (chunks_exact size bytes))
checked_words-IsSome size bytes =
    checked_chunks size (length bytes / size) bytes (div-mul-le_self (length bytes) size)

pub slice-NoPanic :
    (lo hi : ℕ) (bytes : Bytes) → lo ≤ hi → hi ≤ length bytes → NoPanic (slice lo hi bytes)
slice-NoPanic lo hi bytes h k =
    let inside : (leb lo hi && leb hi (length bytes)) ≡ true = ground arith in rw inside tt

pub arrays-NoPanic : (size n : ℕ) (cs : List Bytes) → NoPanic (arrays size n cs)
arrays-NoPanic size zero cs = tt
arrays-NoPanic size (suc n) [] = tt
arrays-NoPanic size (suc n) (c ∷ cs) = elim (Bool-cases (length c == size)) [
  | inl same ↦ rw same (bind-NoPanic (arrays size n cs) _ (arrays-NoPanic size n cs) (λ others. tt))
  | inr other ↦ rw other tt
]

-- A length that is refused, or long enough for the rest.
pub if-NoPanic :
    {A : Type 0} (refused : Bool) (m : Parsed A)
    → (refused ≡ false → NoPanic m)
    → NoPanic (if refused then failed else m)
if-NoPanic true m h = tt
if-NoPanic false m h = h refl

pub unless-NoPanic :
    {A : Type 0} (accepted : Bool) (m : Parsed A)
    → NoPanic m
    → NoPanic (if accepted then m else failed)
unless-NoPanic true m h = h
unless-NoPanic false m h = tt
