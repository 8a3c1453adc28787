-- ===== src/Packet/Accepts.antt =====
-- src/protocol/packet.rs: which packets `PacketBuf::new` takes.
use mathlib.Core.Path.{ap₂}
use gdbstub.Prelude.Slices.{first_piece, split-Plain, split-cases, split_at, split-cons, Plain}
use gdbstub.ResponseWriter.Rle.{IsBody}
use gdbstub.ResponseWriter.Texts.{hex_chars}
use gdbstub.ResponseWriter.Framing.{hex_char-gt, packet}
use gdbstub.Hex.Number.{decode_hex_iff}
use gdbstub.ResponseWriter.Decoding.{hex_value-hex_text}
use gdbstub.Checksum.{wrapping_sum-lt}
use gdbstub.Prelude.{
  u8_max, Bytes, ◌==◌, length, take-length-append, All, ok, ℕ, ◌+◌, ◌-◌, ◌/◌, ◌^◌, ◌<◌, bit_and,
  ◌≡◌, refl, ap, ◌∙◌, ◌≢◌, inl, inr, true, false, Option, none, some, [], ◌∷◌, ◌++◌, append_assoc,
  arith,
}
use gdbstub.Packet.{
  nth, split, wrapping_sum, into_body, range, is_ascii, decode_hex, validate, new, PacketBuf,
}

-- The body between the header and the first '#', and the two bytes behind that.
pub new_at :
    (header : ℕ) (body : Bytes) (a b : ℕ) (rest : Bytes)
    → Plain (λ x. x == b'#') body
    → a ≢ b'#'
    → b ≢ b'#'
    → new (header ∷ (body ++ (b'#' ∷ a ∷ b ∷ rest)))
      ≡ validate (header ∷ (body ++ (b'#' ∷ a ∷ b ∷ rest))) body (some (a ∷ b ∷ []))
unfolding new
new_at header body a b rest plain ha hb =
    let hash = λ (x : ℕ). x == b'#' in
    let (h, t, e) = split-cons hash rest in
    let a_stays : (a == b'#') ≡ false = ground arith in
    let b_stays : (b == b'#') ≡ false = ground arith in
    rw (split_at hash body b'#' (a ∷ b ∷ rest) plain refl, a_stays, b_stays, e)

is_ascii-IsBody : (body : Bytes) → All IsBody body → is_ascii body ≡ true
unfolding is_ascii
is_ascii-IsBody [] h = refl
is_ascii-IsBody (b ∷ bs) (hb, h) = ground (arith, is_ascii-IsBody bs h)

Plain-IsBody : (body : Bytes) → All IsBody body → Plain (λ x. x == b'#') body
Plain-IsBody [] h = tt
Plain-IsBody (b ∷ bs) (hb, h) = (ground arith, Plain-IsBody bs h)

-- The two digits that `flush` prints are read back as the checksum.
decode_hex-hex_chars : (n : ℕ) → n < 256 → decode_hex u8_max (hex_chars n) ≡ ok n
decode_hex-hex_chars n h =
    (decode_hex_iff u8_max (hex_chars n) n (omega arith)).1
      (λ e. cc, hex_value-hex_text (n ∷ []) 0 (h, tt) ∙ ap some (omega arith), omega arith)

-- The range of the body, in the buffer.
range_body :
    (header : ℕ) (body rest : Bytes) → range 1 (1 + length body) (header ∷ (body ++ rest)) ≡ body
range_body header body rest =
    let e : 1 + length body - 1 ≡ length body = omega arith in rw e (take-length-append body rest)

validate_ok :
    (pkt body : Bytes)
    → All IsBody body
    → validate pkt body (some (hex_chars (wrapping_sum 0 body)))
      ≡ ok (record { buf = pkt; start = 1; end = 1 + length body })
unfolding validate
validate_ok pkt body h =
    let sum = wrapping_sum 0 body in
    let digits : decode_hex u8_max (hex_chars sum) ≡ ok sum =
      decode_hex-hex_chars sum (wrapping_sum-lt body 0 (omega arith)) in
    let same : (sum == sum) ≡ true = ground arith in
    rw (is_ascii-IsBody body h) (rw digits (rw same))

-- A packet that is framed the way `ResponseWriter` frames one is accepted, whatever the buffer
-- holds behind it, and its body is given back.
pub new-packet :
    (body rest : Bytes)
    → All IsBody body
    → (p : PacketBuf) × (new (packet body ++ rest) ≡ ok p) × (into_body p ≡ body)
new-packet body rest h =
    let pkt = packet body ++ rest in
    let sum = wrapping_sum 0 body in
    let layout : pkt ≡ b'$' ∷ (body ++ (b'#' ∷ (hex_chars sum ++ rest))) =
      ap (◌∷◌ b'$') (append_assoc body (b'#' ∷ hex_chars sum) rest) in
    (
      record { buf = pkt; start = 1; end = 1 + length body },
      rw layout (
          new_at b'$' body _ _ rest (Plain-IsBody body h)
            (λ e. absurd (omega (arith, hex_char-gt (bit_and sum 0xf0 / 2 ^ 4))))
            (λ e. absurd (omega (arith, hex_char-gt (bit_and sum 0x0f))))
          ∙ validate_ok _ body h),
      rw layout (range_body b'$' body _),
    )

-- What an accepted packet is known to be.
pub record IsChecked (pkt : Bytes) (p : PacketBuf) : Type 0 where
  pub same_buf : p.buf ≡ pkt
  pub header : ℕ
  pub first : ℕ
  pub second : ℕ
  pub behind : Bytes
  pub layout : pkt ≡ header ∷ (into_body p ++ (b'#' ∷ first ∷ second ∷ behind))
  pub no_hash : Plain (λ x. x == b'#') (into_body p)
  pub ascii : is_ascii (into_body p) ≡ true
  pub sum : decode_hex u8_max (first ∷ second ∷ []) ≡ ok (wrapping_sum 0 (into_body p))

validate-ok :
    (pkt body : Bytes) (part : Option Bytes) {p : PacketBuf}
    → validate pkt body part ≡ ok p
    → (a : ℕ) × (b : ℕ) × (r : Bytes) × (part ≡ some (a ∷ b ∷ r))
      × (is_ascii body ≡ true)
      × (decode_hex u8_max (a ∷ b ∷ []) ≡ ok (wrapping_sum 0 body))
      × (p ≡ record { buf = pkt; start = 1; end = 1 + length body })
unfolding validate
validate-ok pkt body none h = cc
validate-ok pkt body (some []) h = cc
validate-ok pkt body (some (a ∷ [])) h = cc
validate-ok pkt body (some (a ∷ b ∷ r)) h =
    (a, b, r, refl, ground arith, ground arith, ground arith)

no_checksum : (pkt body : Bytes) {p : PacketBuf} → validate pkt body none ≢ ok p
unfolding validate
no_checksum pkt body h = cc

accepted :
    (header : ℕ) (body : Bytes) (a b s : ℕ) (r behind ys rest : Bytes)
    → rest ≡ body ++ (s ∷ ys)
    → s ≡ b'#'
    → ys ≡ a ∷ b ∷ (r ++ behind)
    → Plain (λ x. x == b'#') body
    → is_ascii body ≡ true
    → decode_hex u8_max (a ∷ b ∷ []) ≡ ok (wrapping_sum 0 body)
    → {p : PacketBuf} → p ≡ record { buf = header ∷ rest; start = 1; end = 1 + length body }
    → IsChecked (header ∷ rest) p
accepted header body a b s r behind ys rest splits is_hash front plain ascii sum is_p =
    let layout : rest ≡ body ++ (b'#' ∷ a ∷ b ∷ (r ++ behind)) =
      splits ∙ ap₂ (λ h t. body ++ (h ∷ t)) is_hash front in
    let body_is : range 1 (1 + length body) (header ∷ rest) ≡ body =
      rw layout (range_body header body _) in
    rw is_p (record {
      same_buf = refl;
      header = header;
      first = a;
      second = b;
      behind = r ++ behind;
      layout = rw body_is (ap (◌∷◌ header) layout);
      no_hash = rw body_is plain;
      ascii = rw body_is ascii;
      sum = rw body_is sum;
    })

-- A packet is accepted only if it is framed and its checksum is that of its body.
pub new-IsChecked : (pkt : Bytes) {p : PacketBuf} → new pkt ≡ ok p → IsChecked pkt p
unfolding new
new-IsChecked [] h = cc
new-IsChecked (header ∷ rest) h = elim (split-cases (λ x. x == b'#') rest) [
  | inl plain ↦
      let h' : validate (header ∷ rest) rest none ≡ ok _ =
        rw (split-Plain (λ x. x == b'#') rest plain) at h in
      absurd (no_checksum (header ∷ rest) rest h')
  | inr (body, s, ys, splits, plain, hs) ↦
      let hash = λ (x : ℕ). x == b'#' in
      let parts : split hash rest ≡ body ∷ split hash ys =
        rw splits (split_at hash body s ys plain hs) in
      let h' : validate (header ∷ rest) body (nth 0 (split hash ys)) ≡ ok _ = rw parts at h in
      let (a, b, r, first, ascii, sum, is_p) = validate-ok (header ∷ rest) body _ h' in
      let (behind, front) = first_piece hash ys first in
      accepted header body a b s r behind ys rest splits (ground arith) front plain ascii sum is_p
]
