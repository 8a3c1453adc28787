-- ===== src/Prelude/Slices.antt =====
-- Methods of byte slices that the parsers use: `split`, `splitn`, `starts_with`, ranges.
use Prim.Native.Nat.{ℕ, zero, suc, ◌-◌}
use mathlib.Core.Path.{ap, ◌≡◌, refl}
use mathlib.Core.Bool.{Bool, true, false, ◌&&◌}
use mathlib.Core.Logic.{◌⊎◌, inl, inr}
use mathlib.Core.Option.{Option, none, some}
use mathlib.Core.List.{append-nil, List, [], ◌∷◌, ◌++◌}
use native.Mathlib.Omega.{arith}
use gdbstub.Prelude.Tests.{Bytes, ◌==◌, if◌then◌else◌, Bool-cases}
use gdbstub.Prelude.Lists.{take, drop}

-- `x` goes to the front of the first piece.
abbrev pub cons_head : ℕ → List Bytes → List Bytes
cons_head x [] = (x ∷ []) ∷ []
cons_head x (y ∷ ys) = (x ∷ y) ∷ ys

-- `split`: the pieces between the bytes that pass the test; at least one.
abbrev pub split : (ℕ → Bool) → Bytes → List Bytes
split sep [] = [] ∷ []
split sep (x ∷ xs) = let rest = split sep xs in if sep x then [] ∷ rest else cons_head x rest

-- `splitn`: at most `n` pieces, the last of which is not split.
abbrev pub splitn : ℕ → (ℕ → Bool) → Bytes → List Bytes
splitn zero sep xs = []
splitn (suc zero) sep xs = xs ∷ []
splitn (suc (suc n)) sep [] = [] ∷ []
splitn (suc (suc n)) sep (x ∷ xs) =
    let here = [] ∷ splitn (suc n) sep xs in
    let later = cons_head x (splitn (suc (suc n)) sep xs) in if sep x then here else later

-- `next` on an iterator over the pieces: the piece and what the iterator has left.
abbrev pub next : List Bytes → Option Bytes × List Bytes
next [] = (none, [])
next (x ∷ xs) = (some x, xs)

-- `nth`, and `skip(n).next()`.
abbrev pub nth : ℕ → List Bytes → Option Bytes
nth n [] = none
nth zero (x ∷ xs) = some x
nth (suc n) (x ∷ xs) = nth n xs

abbrev pub starts_with : Bytes → Bytes → Bool
starts_with [] xs = true
starts_with (p ∷ ps) [] = false
starts_with (p ∷ ps) (x ∷ xs) = p == x && starts_with ps xs

-- `xs[lo..hi]`, for a range within the slice.
abbrev pub range : ℕ → ℕ → Bytes → Bytes
range lo hi xs = take (hi - lo) (drop lo xs)

abbrev pub is_empty : Bytes → Bool
is_empty [] = true
is_empty (x ∷ xs) = false

pub starts_with-append : (ps xs : Bytes) → starts_with ps (ps ++ xs) ≡ true
starts_with-append [] xs = refl
starts_with-append (p ∷ ps) xs = ground (arith, starts_with-append ps xs)

-- No byte passes the test.
abbrev pub Plain : (ℕ → Bool) → Bytes → Type 0
Plain sep [] = Unit
Plain sep (x ∷ xs) = (sep x ≡ false) × Plain sep xs

pub split-Plain : (sep : ℕ → Bool) (xs : Bytes) → Plain sep xs → split sep xs ≡ xs ∷ []
split-Plain sep [] h = refl
split-Plain sep (x ∷ xs) (hx, h) = rw hx (rw (split-Plain sep xs h))

-- The first separator ends the first piece.
pub split_at :
    (sep : ℕ → Bool) (xs : Bytes) (s : ℕ) (ys : Bytes)
    → Plain sep xs
    → sep s ≡ true
    → split sep (xs ++ (s ∷ ys)) ≡ xs ∷ split sep ys
split_at sep [] s ys h hs = rw hs
split_at sep (x ∷ xs) s ys (hx, h) hs = rw hx (rw (split_at sep xs s ys h hs))

pub split-cons :
    (sep : ℕ → Bool) (xs : Bytes) → (h : Bytes) × (t : List Bytes) × (split sep xs ≡ h ∷ t)
split-cons sep [] = ([], [], refl)
split-cons sep (x ∷ xs) = elim (Bool-cases (sep x)) [
  | inl e ↦ ([], split sep xs, rw e)
  | inr e ↦ let (h, t, rest) = split-cons sep xs in (x ∷ h, t, rw e (rw rest))
]

-- A text has no separator, or splits at its first one.
pub split-cases :
    (sep : ℕ → Bool) (xs : Bytes)
    → Plain sep xs
      ⊎ ((piece : Bytes) × (s : ℕ) × (ys : Bytes) × (xs ≡ piece ++ (s ∷ ys))
          × Plain sep piece
          × (sep s ≡ true))
split-cases sep [] = inl tt
split-cases sep (x ∷ xs) = elim (Bool-cases (sep x)) [
  | inl e ↦ inr ([], x, xs, refl, tt, e)
  | inr e ↦ elim (split-cases sep xs) [
    | inl h ↦ inl (e, h)
    | inr (piece, s, ys, splits, plain, hs) ↦
        inr (x ∷ piece, s, ys, ap (◌∷◌ x) splits, (e, plain), hs)
  ]
]

-- The first piece is what the text begins with.
pub first_piece :
    (sep : ℕ → Bool) (xs : Bytes) {piece : Bytes}
    → nth 0 (split sep xs) ≡ some piece
    → (t : Bytes) × (xs ≡ piece ++ t)
first_piece sep xs h = elim (split-cases sep xs) [
  | inl plain ↦
      let e : some xs ≡ some _ = rw (split-Plain sep xs plain) at h in ([], cc (append-nil _))
  | inr (front, s, ys, splits, plain, hs) ↦
      let e : nth 0 (split sep (front ++ (s ∷ ys))) ≡ some _ = rw splits at h in
      let e' : some front ≡ some _ = rw (split_at sep front s ys plain hs) at e in
      (s ∷ ys, cc splits)
]
