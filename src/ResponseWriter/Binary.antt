-- ===== src/ResponseWriter/Binary.antt =====
-- src/protocol/response_writer.rs: the escapes of `write_binary`, undone.
use gdbstub.Prelude.{
  all_below, all_below_sound, eq_below, Bool-cases, Bytes, ◌==◌, if◌then◌else◌, All, IsByte, ℕ, ◌<◌,
  bit_xor, ◌≡◌, refl, ap, ◌∙◌, ◌≢◌, inl, inr, Bool, true, not, ◌||◌, [], ◌∷◌, arith,
}
use gdbstub.Connection.{Connection}
use gdbstub.ResponseWriter.{ResponseWriter, write_bytes, write_binary, is_special}
use gdbstub.ResponseWriter.Texts.{binary_text, write_binary-text}

-- The client's reading of binary data: the byte behind a '}' was changed in one bit.
abbrev pub unescape : Bytes → Bytes
unescape [] = []
unescape (b ∷ []) = b ∷ []
unescape (b ∷ d ∷ r) =
    let escaped = bit_xor d 0x20 ∷ unescape r in
    let plain = b ∷ unescape (d ∷ r) in if b == b'}' then escaped else plain

-- Not a character that ends a packet, starts one, or announces a count.
abbrev pub IsHarmless : ℕ → Type 0
IsHarmless b = (b ≢ b'#') × (b ≢ b'$') × (b ≢ b'*')

xor_twice : (b : ℕ) → b < 256 → bit_xor (bit_xor b 0x20) 0x20 ≡ b
unfolding all_below
xor_twice = eq_below _ _ 256 refl

abbrev harmless : ℕ → Bool
harmless b = not (b == b'#' || b == b'$' || b == b'*')

escapes : all_below 256 (λ b. not (is_special b) || harmless (bit_xor b 0x20)) ≡ true
unfolding all_below
escapes = refl

escaped-IsHarmless : (b : ℕ) → b < 256 → is_special b ≡ true → IsHarmless (bit_xor b 0x20)
escaped-IsHarmless b small h =
    let row : (not (is_special b) || harmless (bit_xor b 0x20)) ≡ true =
      all_below_sound 256 _ b escapes small in
    let clean : harmless (bit_xor b 0x20) ≡ true = rw h at row in
    (ground arith, ground arith, ground arith)

unescape-cons : (b : ℕ) (text : Bytes) → b ≢ b'}' → unescape (b ∷ text) ≡ b ∷ unescape text
unescape-cons b [] h = refl
unescape-cons b (d ∷ r) h = ground arith

pub unescape-binary_text : (bs : Bytes) → All IsByte bs → unescape (binary_text bs) ≡ bs
unescape-binary_text [] h = refl
unescape-binary_text (b ∷ bs) (hb, h) = elim (Bool-cases (is_special b)) [
  | inl marked ↦ rw marked (rw (xor_twice b hb) (ap (◌∷◌ b) (unescape-binary_text bs h)))
  | inr free ↦
      rw free
        (unescape-cons b (binary_text bs) (ground arith) ∙ ap (◌∷◌ b) (unescape-binary_text bs h))
]

binary_text-IsHarmless : (bs : Bytes) → All IsByte bs → All IsHarmless (binary_text bs)
binary_text-IsHarmless [] h = tt
binary_text-IsHarmless (b ∷ bs) (hb, h) = elim (Bool-cases (is_special b)) [
  | inl marked ↦ rw marked (
    (omega arith, omega arith, omega arith),
    (escaped-IsHarmless b hb marked, binary_text-IsHarmless bs h),
  )
  | inr free ↦ rw free ((ground arith, ground arith, ground arith), binary_text-IsHarmless bs h)
]

-- `write_binary` writes a text in which no character frames or encodes packets, and from which the
-- client reads the data back.
pub write_binary-unescape :
    (c : Connection) (bs : Bytes)
    → All IsByte bs
    → (text : Bytes) × ((w : ResponseWriter c.Conn) → write_binary c bs w ≡ write_bytes c text w)
      × (unescape text ≡ bs)
      × All IsHarmless text
write_binary-unescape c bs h =
    (binary_text bs, write_binary-text c bs, unescape-binary_text bs h, binary_text-IsHarmless bs h)
