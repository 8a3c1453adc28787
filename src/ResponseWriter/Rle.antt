-- ===== src/ResponseWriter/Rle.antt =====
-- src/protocol/response_writer.rs: what `write` sends, as a function of the bytes alone, and the
-- decoding of run-length encoded text that the protocol documents.
use gdbstub.Prelude.{
  Bool-cases, Bytes, leb, ◌==◌, if◌then◌else◌, replicate, All, All-append, ℕ, zero, suc, ◌+◌, ◌-◌,
  ◌≤◌, ◌<◌, ◌≡◌, refl, ap, ◌∙◌, ◌≢◌, inl, inr, ◌&&◌, ◌||◌, [], ◌∷◌, ◌++◌, append-nil, arith,
}
use native.Mathlib.Numerals.{add-one}
use gdbstub.ResponseWriter.{ascii_first_print, ascii_last_print}

-- What is sent for a run of equal bytes.
abbrev pub run_out : ℕ → ℕ → Bytes
run_out char zero = []
run_out char (suc n) =
    let again = char ∷ run_out char n in
    if leb (suc n) 3
    then replicate (suc n) char
    else if suc n == 6 || suc n == 7
    then again
    else char ∷ b'*' ∷ (ascii_first_print - 4 + suc n) ∷ []

-- What is sent for the bytes behind an unfinished run, the run included.
abbrev pub encode : ℕ → ℕ → Bytes → Bytes
encode char n [] = run_out char n
encode char n (b ∷ bs) =
    let same = encode char (n + 1) bs in
    let other = encode b 1 bs in
    if b == char && leb (ascii_first_print - 4 + (n + 1)) ascii_last_print
    then same
    else run_out char n ++ other

-- Run-length decoding: a byte, a star and a count `n` stand for the byte and `n - 29` more of it.
abbrev pub unrle : Bytes → Bytes
unrle [] = []
unrle (c ∷ []) = c ∷ []
unrle (c ∷ d ∷ []) = c ∷ d ∷ []
unrle (c ∷ d ∷ n ∷ r) =
    let expanded = replicate (n - 28) c ++ unrle r in
    let plain = c ∷ unrle (d ∷ n ∷ r) in if d == b'*' then expanded else plain

abbrev pub NoStar : Bytes → Type 0
NoStar [] = Unit
NoStar (d ∷ _) = d ≢ b'*'

unrle-cons : (c : ℕ) (rest : Bytes) → NoStar rest → unrle (c ∷ rest) ≡ c ∷ unrle rest
unrle-cons c [] h = refl
unrle-cons c (d ∷ []) h = refl
unrle-cons c (d ∷ n ∷ r) h = ground arith

unrle-replicate :
    (n c : ℕ) (rest : Bytes)
    → c ≢ b'*'
    → NoStar rest
    → unrle (replicate n c ++ rest) ≡ replicate n c ++ unrle rest
unrle-replicate zero c rest hc h = refl
unrle-replicate (suc zero) c rest hc h = unrle-cons c rest h
unrle-replicate (suc (suc n)) c rest hc h =
    unrle-cons c (c ∷ (replicate n c ++ rest)) hc ∙ ap (◌∷◌ c) (unrle-replicate (suc n) c rest hc h)

NoStar-run_out : (c n : ℕ) (rest : Bytes) → c ≢ b'*' → NoStar rest → NoStar (run_out c n ++ rest)
NoStar-run_out c zero rest hc h = h
NoStar-run_out c (suc n) rest hc h = ground arith

unrle-run_out :
    (c n : ℕ) (rest : Bytes)
    → c ≢ b'*'
    → NoStar rest
    → unrle (run_out c n ++ rest) ≡ replicate n c ++ unrle rest
unrle-run_out c zero rest hc h = refl
unrle-run_out c (suc n) rest hc h = elim (Bool-cases (leb (suc n) 3)) [
  | inl few ↦ rw few (unrle-replicate (suc n) c rest hc h)
  | inr many ↦ elim (Bool-cases (suc n == 6 || suc n == 7)) [
    | inl bad ↦
        rw (many, bad)
          (unrle-cons c (run_out c n ++ rest) (NoStar-run_out c n rest hc h)
            ∙ ap (◌∷◌ c) (unrle-run_out c n rest hc h))
    | inr wins ↦
        let count : b' ' - 4 + suc n - 28 ≡ suc n = omega arith in rw (many, wins) (rw count)
  ]
]

NoStar-encode : (bs : Bytes) (c n : ℕ) → c ≢ b'*' → All (λ b. b ≢ b'*') bs → NoStar (encode c n bs)
NoStar-encode [] c n hc h = rw (← append-nil (run_out c n)) (NoStar-run_out c n [] hc tt)
NoStar-encode (b ∷ bs) c n hc (hb, h) =
    elim (Bool-cases (b == c && leb (b' ' - 4 + (n + 1)) b'~')) [
      | inl same ↦ rw same (NoStar-encode bs c (n + 1) hc h)
      | inr other ↦ rw other (NoStar-run_out c n (encode b 1 bs) hc (NoStar-encode bs b 1 hb h))
    ]

replicate-cons : (n c : ℕ) (bs : Bytes) → c ∷ (replicate n c ++ bs) ≡ replicate n c ++ (c ∷ bs)
replicate-cons zero c bs = refl
replicate-cons (suc n) c bs = ap (◌∷◌ c) (replicate-cons n c bs)

replicate-append_one :
    (n c : ℕ) (bs : Bytes) → replicate (n + 1) c ++ bs ≡ replicate n c ++ (c ∷ bs)
replicate-append_one n c bs = rw add-one (replicate-cons n c bs)

-- Decoding what is sent gives the pending run and the bytes behind it.
pub unrle-encode :
    (bs : Bytes) (c n : ℕ)
    → c ≢ b'*'
    → All (λ b. b ≢ b'*') bs
    → unrle (encode c n bs) ≡ replicate n c ++ bs
unrle-encode [] c n hc h = rw (← append-nil (run_out c n)) (unrle-run_out c n [] hc tt)
unrle-encode (b ∷ bs) c n hc (hb, h) = elim (Bool-cases (b == c && leb (b' ' - 4 + (n + 1)) b'~')) [
  | inl same ↦
      let e : b ≡ c = ground arith in
      rw same (unrle-encode bs c (n + 1) hc h ∙ rw e (replicate-append_one n c bs))
  | inr other ↦ rw other (
      unrle-run_out c n (encode b 1 bs) hc (NoStar-encode bs b 1 hb h)
      ∙ ap (λ t. replicate n c ++ t) (unrle-encode bs b 1 hb h))
]

-- A body byte: ASCII, and not the '#' that ends a packet.
abbrev pub IsBody : ℕ → Type 0
IsBody b = (b < 128) × (b ≢ b'#')

All-replicate : (P : ℕ → Type 0) (n c : ℕ) → P c → All P (replicate n c)
All-replicate P zero c h = tt
All-replicate P (suc n) c h = (h, All-replicate P n c h)

run_out-IsBody : (c n : ℕ) → IsBody c → n ≤ 98 → All IsBody (run_out c n)
run_out-IsBody c zero h small = tt
run_out-IsBody c (suc n) h small = elim (Bool-cases (leb (suc n) 3)) [
  | inl few ↦ rw few (All-replicate IsBody (suc n) c h)
  | inr many ↦ elim (Bool-cases (suc n == 6 || suc n == 7)) [
    | inl bad ↦ rw (many, bad) (h, run_out-IsBody c n h (omega arith))
    | inr wins ↦ rw (many, wins) (h, (omega arith, ((ground arith, ground arith), tt)))
  ]
]

-- A count is printable and never '#', so what is sent is ASCII and ends no packet.
pub encode-IsBody :
    (bs : Bytes) (c n : ℕ) → IsBody c → n ≤ 98 → All IsBody bs → All IsBody (encode c n bs)
encode-IsBody [] c n hc small h = run_out-IsBody c n hc small
encode-IsBody (b ∷ bs) c n hc small (hb, h) =
    elim (Bool-cases (b == c && leb (b' ' - 4 + (n + 1)) b'~')) [
      | inl same ↦ rw same (encode-IsBody bs c (n + 1) hc (ground arith) h)
      | inr other ↦ rw other (
          All-append IsBody (run_out c n) (encode b 1 bs) (run_out-IsBody c n hc small)
            (encode-IsBody bs b 1 hb (omega arith) h))
    ]
