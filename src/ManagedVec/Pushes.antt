-- ===== src/ManagedVec/Pushes.antt =====
-- src/util/managed_vec.rs: what a row of pushes leaves behind.
use gdbstub.Prelude.{
  Bytes, length, set, take, length-append, set-append_here, ok, ℕ, zero, suc, ◌+◌, ◌≤◌, ◌<◌, ◌≡◌,
  refl, sym, ap, ◌∙◌, [], ◌∷◌, ◌++◌, append-nil, append_assoc, arith,
}
use mathlib.Core.Path.{subst}
use native.Mathlib.Numerals.{add-one}
use gdbstub.ManagedVec.{push_full, push, as_slice, ManagedVec, owned}

-- The state behind a push; a push that fails changes nothing.
abbrev pub pushed : Bytes → ManagedVec → ManagedVec
pushed [] v = v
pushed (b ∷ bs) v = pushed bs (push b v).1

take-set :
    (i : ℕ) (xs : Bytes) (b : ℕ) → i < length xs → take (i + 1) (set xs i b) ≡ take i xs ++ (b ∷ [])
take-set i [] b h = absurd (omega arith)
take-set zero (x ∷ xs) b h = refl
take-set (suc i) (x ∷ xs) b h =
    rw add-one (ap (◌∷◌ x) (rw add-one at (take-set i xs b (omega arith))))

length-set : (xs : Bytes) (i v : ℕ) → length (set xs i v) ≡ length xs
length-set [] i v = refl
length-set (x ∷ xs) zero v = refl
length-set (x ∷ xs) (suc i) v = ap suc (length-set xs i v)

pub push-fits :
    (v : ManagedVec) (b : ℕ)
    → v.len < length v.buf
    → push b v ≡ (ok tt, record v { buf = set v.buf v.len b; len = v.len + 1 })
unfolding push
push-fits v b h = ground arith

pub pushed-append : (xs ys : Bytes) (v : ManagedVec) → pushed (xs ++ ys) v ≡ pushed ys (pushed xs v)
pushed-append [] ys v = refl
pushed-append (x ∷ xs) ys v = pushed-append xs ys (push x v).1

-- As long as the buffer has room, pushes append to the slice, in order, and add to its length; the
-- buffer's length, which the stub reports to the client, stays.
pub as_slice-pushed :
    (bs : Bytes) (v : ManagedVec)
    → v.len + length bs ≤ length v.buf
    → (as_slice (pushed bs v) ≡ as_slice v ++ bs)
      × ((pushed bs v).len ≡ v.len + length bs)
      × (length (pushed bs v).buf ≡ length v.buf)
as_slice-pushed [] v h = (sym (append-nil _), omega arith, refl)
as_slice-pushed (b ∷ bs) v h =
    let w = record v { buf = set v.buf v.len b; len = v.len + 1 } in
    let step : (push b v).1 ≡ w = ap (λ r. r.1) (push-fits v b (omega arith)) in
    let same = length-set v.buf v.len b in
    let (slice, len, cap) = as_slice-pushed bs w (omega (arith, same)) in
    subst
      (λ u.
        (as_slice (pushed bs u) ≡ as_slice v ++ (b ∷ bs))
        × ((pushed bs u).len ≡ v.len + suc (length bs))
        × (length (pushed bs u).buf ≡ length v.buf))
      (sym step)
      (
        slice
            ∙ rw (take-set v.len v.buf b (omega arith))
                (append_assoc (take v.len v.buf) (b ∷ []) bs),
        omega (arith, len),
        cap ∙ same,
      )

push-full :
    (v : ManagedVec) (a : ℕ)
    → v.ownership ≡ owned
    → v.len ≡ length v.buf
    → push a v ≡ (ok tt, record v { buf = v.buf ++ (a ∷ []) })
unfolding push push_full
push-full v a o full = ground arith

take_all : (xs : Bytes) → take (length xs) xs ≡ xs
take_all [] = refl
take_all (x ∷ xs) = ap (◌∷◌ x) (take_all xs)

-- Two pushes past the capacity of an owned buffer: the first does not advance `len`, so the second
-- overwrites it, and the byte is lost.
pub push_full-lost :
    (v : ManagedVec) (a b : ℕ)
    → v.ownership ≡ owned
    → v.len ≡ length v.buf
    → as_slice (pushed (a ∷ b ∷ []) v) ≡ v.buf ++ (b ∷ [])
push_full-lost v a b o full =
    let w = record v { buf = v.buf ++ (a ∷ []) } in
    let first : push a v ≡ (ok tt, w) = push-full v a o full in
    let len : length (v.buf ++ (a ∷ [])) ≡ length v.buf + 1 = length-append v.buf (a ∷ []) in
    let second : push b w ≡ (ok tt, record w { buf = set w.buf w.len b; len = w.len + 1 }) =
      push-fits w b (omega (arith, len)) in
    let whole : take (length v.buf + 1) (v.buf ++ (b ∷ [])) ≡ v.buf ++ (b ∷ []) =
      rw (length-append v.buf (b ∷ [])) at (take_all (v.buf ++ (b ∷ []))) in
    ap (λ u. as_slice (push b u).1) (ap (λ r. r.1) first)
    ∙ ap (λ r. as_slice r.1) second
    ∙ rw full (rw (set-append_here v.buf [] a b) whole)
