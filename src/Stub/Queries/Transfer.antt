-- ===== src/Stub/Queries/Transfer.antt =====
-- src/gdbstub_impl/ext/memory_map.rs and base.rs: a document that is read piece by piece.
use gdbstub.Packet.Received.{drop_more}
use gdbstub.Prelude.{
  Bool-cases, Bytes, codes, leb, ◌==◌, if◌then◌else◌, length, take, drop, length-drop, All, IsByte,
  ℕ, zero, suc, ◌+◌, ◌-◌, ◌^◌, ◌≤◌, ◌<◌, ◌≡◌, refl, sym, ap, ◌∙◌, inl, inr, [], ◌∷◌, ◌++◌, arith,
}
use gdbstub.Prelude.Exec.{◌>>◌, pure, continue, bind-done}
use gdbstub.Prelude.Slices.{range}
use gdbstub.Connection.{Connection}
use gdbstub.ResponseWriter.{write_binary}
use gdbstub.ResponseWriter.Texts.{binary_text, write_binary-text}
use gdbstub.ResponseWriter.Binary.{unescape, unescape-binary_text}
use gdbstub.Target.{Target}
use gdbstub.Stub.{Session, handled, put, wrote, write_str}
use gdbstub.Stub.Access.Memory.{add-fits}
use gdbstub.Stub.Stop.Texts.{then_text}
use gdbstub.Stub.Queries.{transfer, trim}

-- The reply for a part of a document.
abbrev pub piece : Bytes → ℕ → ℕ → Bytes
piece xml len offset =
    if leb (length xml) offset
    then codes "l"
    else if leb (length xml) (offset + len)
    then b'l' ∷ binary_text (drop offset xml)
    else b'm' ∷ binary_text (range offset (offset + len) xml)

-- The client goes on behind what it has until a reply says that it was the last.
abbrev assemble : Bytes → (Bytes → Bytes) → Bytes
assemble [] more = []
assemble (tag ∷ text) more = let got = unescape text in if tag == b'l' then got else got ++ more got

abbrev pub collect : ℕ → (ℕ → Bytes) → ℕ → Bytes
collect zero reply offset = []
collect (suc fuel) reply offset =
    assemble (reply offset) (λ got. collect fuel reply (offset + length got))

drop_all : (n : ℕ) (xs : Bytes) → length xs ≤ n → drop n xs ≡ []
drop_all zero [] h = refl
drop_all zero (x ∷ xs) h = absurd (omega arith)
drop_all (suc n) [] h = refl
drop_all (suc n) (x ∷ xs) h = drop_all n xs (omega arith)

length-take : (n : ℕ) (xs : Bytes) → n ≤ length xs → length (take n xs) ≡ n
length-take zero xs h = refl
length-take (suc n) [] h = absurd (omega arith)
length-take (suc n) (x ∷ xs) h = ap suc (length-take n xs (omega arith))

take-drop : (n : ℕ) (xs : Bytes) → take n xs ++ drop n xs ≡ xs
take-drop zero xs = refl
take-drop (suc n) [] = refl
take-drop (suc n) (x ∷ xs) = ap (◌∷◌ x) (take-drop n xs)

All-take : (n : ℕ) (xs : Bytes) → All IsByte xs → All IsByte (take n xs)
All-take zero xs h = tt
All-take (suc n) [] h = tt
All-take (suc n) (x ∷ xs) (hx, h) = (hx, All-take n xs h)

All-drop : (n : ℕ) (xs : Bytes) → All IsByte xs → All IsByte (drop n xs)
All-drop zero xs h = h
All-drop (suc n) [] h = h
All-drop (suc n) (x ∷ xs) (_, h) = All-drop n xs h

collect-drop :
    (fuel : ℕ) (xml : Bytes) (len offset : ℕ)
    → All IsByte xml
    → 0 < len
    → length xml < offset + fuel
    → collect fuel (piece xml len) offset ≡ drop offset xml
collect-drop zero xml len offset h some_len enough = sym (drop_all offset xml (omega arith))
collect-drop (suc fuel) xml len offset h some_len enough =
    elim (Bool-cases (leb (length xml) offset)) [
      | inl over ↦ rw over (sym (drop_all offset xml (ground arith)))
      | inr inside ↦ elim (Bool-cases (leb (length xml) (offset + len))) [
        | inl last ↦
            rw (inside, last) (unescape-binary_text (drop offset xml) (All-drop offset xml h))
        | inr goes_on ↦
            let more : offset + len < length xml = ground arith in
            let back = drop offset xml in
            let width : offset + len - offset ≡ len = omega arith in
            let front : range offset (offset + len) xml ≡ take len back =
              ap (λ n. take n back) width in
            let got : unescape (binary_text (range offset (offset + len) xml)) ≡ take len back =
              ap (λ xs. unescape (binary_text xs)) front
              ∙ unescape-binary_text (take len back) (All-take len back (All-drop offset xml h)) in
            let size : length (take len back) ≡ len =
              length-take len back (omega (arith, length-drop offset xml)) in
            rw (inside, goes_on)
              (ap (λ g. g ++ collect fuel (piece xml len) (offset + length g)) got
                ∙ ap (λ n. take len back ++ collect fuel (piece xml len) (offset + n)) size
                ∙ ap (λ ys. take len back ++ ys)
                    (collect-drop fuel xml len (offset + len) h some_len (omega arith)
                      ∙ drop_more offset len xml)
                ∙ take-drop len back)
      ]
    ]

module _ (c : Connection) (t : Target) where
  tagged :
      (tag part : Bytes) (s : Session c t)
      → (do write_str c t tag; put c t (write_binary c part); pure handled) s
        ≡ (do write_str c t (tag ++ binary_text part); pure handled) s
  tagged tag part s =
      then_text c t tag (binary_text part) handled _
        (λ v.
          ap (λ r. continue (λ _. pure handled) (wrote c t v r)) (write_binary-text c part v.res))
        s

  transfer-piece :
      (text : Bytes) (offset len : ℕ) (s : Session c t)
      → offset + len < 2 ^ 64
      → transfer c t text offset len s
        ≡ (do write_str c t (piece (trim text) len offset); pure handled) s
  unfolding transfer
  transfer-piece text offset len s small = elim (Bool-cases (leb (length (trim text)) offset)) [
    | inl over ↦ rw over refl
    | inr inside ↦
        let sum = add-fits c t (2 ^ 64) offset len s small in
        elim (Bool-cases (leb (length (trim text)) (offset + len))) [
          | inl last ↦
              rw (inside, last)
                (bind-done _ sum ∙ rw last (tagged (codes "l") (drop offset (trim text)) s))
          | inr goes_on ↦
              rw (inside, goes_on)
                (bind-done _ sum
                  ∙ rw goes_on (tagged (codes "m") (range offset (offset + len) (trim text)) s))
        ]
  ]

  -- Each request for a part of a document is answered by one text, which depends on the document and
  -- the request alone, as long as the end of the part does not overflow; and a client that asks for
  -- parts of `len` bytes, each behind what it has received, ends up with the whole document.
  pub transfer-collect :
      (text : Bytes) (len : ℕ)
      → All IsByte (trim text)
      → 0 < len
      → (reply : ℕ → Bytes) × ((offset : ℕ) (s : Session c t)
          → offset + len < 2 ^ 64
          → transfer c t text offset len s ≡ (do write_str c t (reply offset); pure handled) s)
        × (collect (suc (length (trim text))) reply 0 ≡ trim text)
  transfer-collect text len h some_len = (
    piece (trim text) len,
    λ offset s small. transfer-piece text offset len s small,
    collect-drop (suc (length (trim text))) (trim text) len 0 h some_len (omega arith),
  )
