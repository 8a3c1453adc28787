-- ===== src/ManagedVec.antt =====
-- src/util/managed_vec.rs: a vector over a borrowed slice or an owned `Vec`, which may grow.
pub mod Pushes
use gdbstub.Prelude.{
  usize_max, u8_max, all_below, all_below_sound, eq_below, Bool-cases, Option-cases, Bytes, codes,
  equal, equal_iff, ltb, leb, ◌==◌, if◌then◌else◌, length, get_elem?, set, take, drop, replicate,
  length-append, length-drop, take-length-append, drop-length-append, get_elem?-append_here,
  set-append_here, All, All-append, IsByte, Result, ok, err, to_option, ok_or, map_err, ℕ, zero,
  suc, ◌+◌, ◌-◌, ◌*◌, ◌/◌, ◌%◌, ◌^◌, ◌≤◌, ◌<◌, min, bit_or, bit_and, bit_xor, ◌≡◌, refl, sym, ap,
  ◌∙◌, ◌≢◌, ◌↔◌, ◌⊎◌, inl, inr, Bool, true, false, not, ◌&&◌, ◌||◌, Option, none, some, List, [],
  ◌∷◌, ◌++◌, map, append-nil, append_assoc, arith,
}

-- `ManagedSlice`.
pub data Ownership : Type 0 where
  borrowed : Ownership
  owned : Ownership

pub record ManagedVec : Type 0 where
  pub ownership : Ownership
  pub buf : Bytes
  pub len : ℕ

pub record CapacityError : Type 0 where
  pub value : ℕ

unfoldable pub new : Ownership → Bytes → ManagedVec
new ownership buf = record { ownership = ownership; buf = buf; len = 0 }

unfoldable pub clear : ManagedVec → ManagedVec
clear v = record v { len = 0 }

-- The branch of `push` for a vector whose buffer is used up.
unfoldable pub push_full : Ownership → ℕ → ManagedVec → Result CapacityError (Unit {0}) × ManagedVec
push_full borrowed value v = (err (record { value = value }), v)
push_full owned value v = (ok tt, record v { buf = v.buf ++ (value ∷ []) })

unfoldable pub push : ℕ → ManagedVec → Result CapacityError (Unit {0}) × ManagedVec
unfolding push_full
push value v =
    if ltb v.len (length v.buf)
    then (ok tt, record v { buf = set v.buf v.len value; len = v.len + 1 })
    else push_full v.ownership value v

-- `as_slice`.
abbrev pub as_slice : ManagedVec → Bytes
as_slice v = take v.len v.buf
