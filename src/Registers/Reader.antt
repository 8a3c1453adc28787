-- ===== src/Registers/Reader.antt =====
-- gdbstub_arch/src/: an iterator over words whose `next().ok_or(())?` ends the method. A reader takes
-- the words that are left, and leaves those that it has not read.
use gdbstub.Prelude.{ℕ, zero, suc, none, some, List, [], ◌∷◌}
use gdbstub.Registers.{Parsed, parsed, failed, panic, Words}

abbrev pub Reader : Type 0 → Type 0
Reader A = Words → Parsed (A × Words)

abbrev pub continue : {A B : Type 0} → (A → Reader B) → Parsed (A × Words) → Parsed (B × Words)
continue f (parsed (a, rest)) = f a rest
continue f failed = failed
continue f panic = panic

infixl 5 ◌>>=◌ ◌>>◌
abbrev pub ◌>>=◌ : {A B : Type 0} → Reader A → (A → Reader B) → Reader B
◌>>=◌ m f ws = continue f (m ws)

abbrev pub ◌>>◌ : {A B : Type 0} → Reader A → Reader B → Reader B
m >> k = m >>= λ _. k

abbrev pub pure : {A : Type 0} → A → Reader A
pure a ws = parsed (a, ws)

-- `next().ok_or(())?`.
abbrev pub next : Reader ℕ
next [] = failed
next (none ∷ ws) = panic
next (some w ∷ ws) = parsed (w, ws)

-- The loop over the elements of an array.
abbrev pub next_n : ℕ → Reader (List ℕ)
next_n zero = pure []
next_n (suc n) = do w ← next; rest ← next_n n; pure (w ∷ rest)

-- `if regs.next().is_some() { return Err(()) }`.
abbrev pub at_end : Reader (Unit {0})
at_end [] = parsed (tt, [])
at_end (none ∷ ws) = panic
at_end (some w ∷ ws) = failed

-- The method's result.
abbrev pub result : {A : Type 0} → Parsed (A × Words) → Parsed A
result (parsed (a, ws)) = parsed a
result failed = failed
result panic = panic

abbrev pub read : {A : Type 0} → Reader A → Words → Parsed A
read m ws = result (m ws)

-- `return Err(())`.
abbrev pub give_up : {A : Type 0} → Reader A
give_up ws = failed
