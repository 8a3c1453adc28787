-- ===== src/ConsoleOutput/Messages.antt =====
-- src/protocol/console_output.rs: what the callback gets.
use gdbstub.Prelude.{
  Bytes, Bool, true, false, ◌≡◌, refl, ap, ◌∙◌, List, [], ◌∷◌, ◌++◌, append_assoc,
}
use gdbstub.ConsoleOutput.{ConsoleOutput, write_raw, flush, drop}

-- What a command does with its console.
pub data Use : Type 0 where
  raw : Bytes → Use
  flushed : Use

abbrev pub texts : List Use → Bytes
texts [] = []
texts (raw bytes ∷ us) = bytes ++ texts us
texts (flushed ∷ us) = texts us

abbrev pub joined : List Bytes → Bytes
joined [] = []
joined (m ∷ ms) = m ++ joined ms

module _ {S : Type 0} (callback : Bytes → S → S) where
  -- The console behind the uses and the end of its life.
  abbrev pub used : Bool → List Use → ConsoleOutput S → ConsoleOutput S
  used alloc [] o = drop alloc callback o
  used alloc (raw bytes ∷ us) o = used alloc us (write_raw alloc callback bytes o)
  used alloc (flushed ∷ us) o = used alloc us (flush alloc callback o)

  abbrev pub calls : List Bytes → S → S
  calls [] s = s
  calls (m ∷ ms) s = calls ms (callback m s)

  -- The callback is called with messages, whose texts together are what was pending and what is
  -- written.
  abbrev Told : Bool → List Use → Bytes → S → Type 0
  Told alloc us buf s =
      (ms : List Bytes) × ((used alloc us (record { buf = buf; state = s })).state ≡ calls ms s)
      × (joined ms ≡ buf ++ texts us)

  buffered-Told : (us : List Use) (buf : Bytes) (s : S) → Told true us buf s
  unfolding write_raw flush drop
  buffered-Told [] [] s = ([], refl, refl)
  buffered-Told [] (b ∷ bs) s = ((b ∷ bs) ∷ [], refl, refl)
  buffered-Told (raw bytes ∷ us) buf s =
      let (ms, called, text) = buffered-Told us (buf ++ bytes) s in
      (ms, called, text ∙ append_assoc buf bytes (texts us))
  buffered-Told (flushed ∷ us) [] s = buffered-Told us [] s
  buffered-Told (flushed ∷ us) (b ∷ bs) s =
      let (ms, called, text) = buffered-Told us [] (callback (b ∷ bs) s) in
      ((b ∷ bs) ∷ ms, called, ap (λ xs. (b ∷ bs) ++ xs) text)

  direct-Told : (us : List Use) (s : S) → Told false us [] s
  unfolding write_raw flush drop
  direct-Told [] s = ([], refl, refl)
  direct-Told (raw bytes ∷ us) s =
      let (ms, called, text) = direct-Told us (callback bytes s) in
      (bytes ∷ ms, called, ap (λ xs. bytes ++ xs) text)
  direct-Told (flushed ∷ us) s = direct-Told us s

  pub used-calls :
      (alloc : Bool) (us : List Use) (s : S)
      → (ms : List Bytes) × ((used alloc us (record { buf = []; state = s })).state ≡ calls ms s)
        × (joined ms ≡ texts us)
  used-calls true us s = buffered-Told us [] s
  used-calls false us s = direct-Told us s
