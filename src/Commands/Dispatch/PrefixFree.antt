-- ===== src/Commands/Dispatch/PrefixFree.antt =====
-- src/protocol/commands.rs: `Command::from_packet` against the names of the commands, and which
-- names are the beginning of others.
use gdbstub.Prelude.Slices.{starts_with}
use gdbstub.Prelude.{
  Bool-cases, Bytes, if◌then◌else◌, length, get_elem?, ℕ, zero, suc, ◌+◌, ◌≡◌, refl, sym, ap, ◌∙◌,
  inl, inr, Bool, true, false, not, ◌&&◌, ◌||◌, Option, none, some, List, [], ◌∷◌, ◌++◌, arith,
}
use gdbstub.Packet.{PacketBuf}
use gdbstub.Commands.Dispatch.{
  into_body, Command, Extensions, Entry, groups, or_else, or_unknown, breakpoint_entries,
  try_entries, try_groups, from_packet,
}

abbrev tag : Bool → List Entry → List (Bool × Entry)
tag enabled [] = []
tag enabled (e ∷ es) = (enabled, e) ∷ tag enabled es

abbrev flatten : List (Bool × List Entry) → List (Bool × Entry)
flatten [] = []
flatten ((enabled, es) ∷ gs) = tag enabled es ++ flatten gs

-- Every name with whether it is enabled, those of the breakpoints last.
abbrev pub table : Extensions → List (Bool × Entry)
table ext = flatten (groups ext) ++ tag ext.breakpoints breakpoint_entries

abbrev pub matches : Entry → PacketBuf → Bool
matches e p = starts_with e.name (into_body p)

-- The packet behind the name.
abbrev pub behind : Entry → PacketBuf → PacketBuf
behind e p = record p { start = p.start + length e.name }

-- The first enabled entry whose name fits.
abbrev find : List (Bool × Entry) → PacketBuf → Option (Option Command)
find [] p = none
find ((enabled, e) ∷ t) p =
    let rest = find t p in if enabled && matches e p then some (e.parse (behind e p)) else rest

find-append :
    (s t : List (Bool × Entry)) (p : PacketBuf) → find (s ++ t) p ≡ or_else (find s p) (find t p)
find-append [] t p = refl
find-append ((enabled, e) ∷ s) t p = elim (Bool-cases (enabled && matches e p)) [
  | inl hit ↦ rw hit
  | inr miss ↦ rw miss (find-append s t p)
]

try_entries-find : (es : List Entry) (p : PacketBuf) → try_entries es p ≡ find (tag true es) p
unfolding try_entries
try_entries-find [] p = refl
try_entries-find (e ∷ es) p = elim (Bool-cases (matches e p)) [
  | inl hit ↦ rw hit
  | inr miss ↦ rw miss (try_entries-find es p)
]

find-tag-false : (es : List Entry) (p : PacketBuf) → find (tag false es) p ≡ none
find-tag-false [] p = refl
find-tag-false (e ∷ es) p = find-tag-false es p

try_groups-find :
    (gs : List (Bool × List Entry)) (p : PacketBuf) → try_groups gs p ≡ find (flatten gs) p
unfolding try_groups
try_groups-find [] p = refl
try_groups-find ((true, es) ∷ gs) p =
    rw (try_entries-find es p, try_groups-find gs p)
      (sym (find-append (tag true es) (flatten gs) p))
try_groups-find ((false, es) ∷ gs) p =
    try_groups-find gs p
    ∙ sym (find-append (tag false es) (flatten gs) p ∙ rw (find-tag-false es p))

from_packet-find :
    (ext : Extensions) (p : PacketBuf) → from_packet ext p ≡ or_unknown p (find (table ext) p)
unfolding from_packet
from_packet-find ext p =
    rw
      (
        try_groups-find (groups ext) p,
        find-append (flatten (groups ext)) (tag ext.breakpoints breakpoint_entries) p,
      )
      (ap (λ b. or_unknown p (or_else (find (flatten (groups ext)) p) b)) (last ext.breakpoints))
  where
    last :
        (on : Bool)
        → (if on then try_entries breakpoint_entries p else none)
          ≡ find (tag on breakpoint_entries) p
    last true = try_entries-find breakpoint_entries p
    last false = sym (find-tag-false breakpoint_entries p)

-- Neither is the beginning of the other.
abbrev apart : Bytes → Bytes → Bool
apart a b = not (starts_with a b || starts_with b a)

two_prefixes : (a b x : Bytes) → starts_with a x ≡ true → starts_with b x ≡ true → apart a b ≡ false
two_prefixes [] b x ha hb = refl
two_prefixes (c ∷ a) [] x ha hb = refl
two_prefixes (c ∷ a) (d ∷ b) [] ha hb = cc
two_prefixes (c ∷ a) (d ∷ b) (y ∷ x) ha hb = ground (arith, two_prefixes a b x)

abbrev apart_from_all : Bytes → List (Bool × Entry) → Bool
apart_from_all n [] = true
apart_from_all n ((_, e) ∷ t) = apart n e.name && apart_from_all n t

abbrev prefix_free : List (Bool × Entry) → Bool
prefix_free [] = true
prefix_free ((_, e) ∷ t) = apart_from_all e.name t && prefix_free t

table-prefix_free : (ext : Extensions) → prefix_free (table ext) ≡ true
table-prefix_free ext = refl

apart_from :
    (n : Bytes) (t : List (Bool × Entry)) (i : ℕ) {b : Bool} {e : Entry}
    → apart_from_all n t ≡ true
    → get_elem? t i ≡ some (b, e)
    → apart n e.name ≡ true
apart_from n [] i h g = cc
apart_from n ((_, e) ∷ t) zero h g = ground arith
apart_from n ((_, e) ∷ t) (suc i) h g = apart_from n t i (ground arith) g

misses :
    (x e : Entry) (p : PacketBuf)
    → apart x.name e.name ≡ true
    → matches e p ≡ true
    → matches x p ≡ false
misses x e p free h = elim (Bool-cases (matches x p)) [
  | inl hit ↦
      let joined : apart x.name e.name ≡ false = two_prefixes x.name e.name (into_body p) hit h in
      cc
  | inr miss ↦ miss
]

find_skip :
    (enabled : Bool) (x : Entry) (t : List (Bool × Entry)) (p : PacketBuf)
    → matches x p ≡ false
    → find ((enabled, x) ∷ t) p ≡ find t p
find_skip true x t p miss = rw miss
find_skip false x t p miss = refl

find_hit :
    (t : List (Bool × Entry)) (i : ℕ) {e : Entry} (p : PacketBuf)
    → prefix_free t ≡ true
    → get_elem? t i ≡ some (true, e)
    → matches e p ≡ true
    → find t p ≡ some (e.parse (behind e p))
find_hit [] i p free g h = cc
find_hit ((enabled, x) ∷ t) zero p free g h = ground arith
find_hit ((enabled, x) ∷ t) (suc i) {e} p free g h =
    find_skip enabled x t p (misses x e p (apart_from x.name t i (ground arith) g) h)
    ∙ find_hit t i p (ground arith) g h

-- Whatever extensions the target has, a packet whose body begins with the name of an enabled
-- command is parsed by that command's parser, on what is behind the name.
pub from_packet_hit :
    (ext : Extensions) (p : PacketBuf) (i : ℕ) (e : Entry)
    → get_elem? (table ext) i ≡ some (true, e)
    → matches e p ≡ true
    → from_packet ext p ≡ e.parse (behind e p)
from_packet_hit ext p i e g h =
    from_packet-find ext p
    ∙ ap (or_unknown p) (find_hit (table ext) i p (table-prefix_free ext) g h)

-- Whether the body begins with no enabled name.
abbrev pub no_match : List (Bool × Entry) → PacketBuf → Bool
no_match [] p = true
no_match ((enabled, e) ∷ t) p = not (enabled && matches e p) && no_match t p

find-no_match : (t : List (Bool × Entry)) (p : PacketBuf) → no_match t p ≡ true → find t p ≡ none
find-no_match [] p h = refl
find-no_match ((enabled, e) ∷ t) p h = ground (arith, find-no_match t p)

-- A packet whose body begins with no enabled name is an unknown command, not an error.
pub from_packet_miss :
    (ext : Extensions) (p : PacketBuf)
    → no_match (table ext) p ≡ true
    → from_packet ext p ≡ some (Command.unknown (into_body p))
from_packet_miss ext p h =
    from_packet-find ext p ∙ ap (or_unknown p) (find-no_match (table ext) p h)
