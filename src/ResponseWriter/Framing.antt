-- ===== src/ResponseWriter/Framing.antt =====
-- src/protocol/response_writer.rs: `flush` completes a packet.
use gdbstub.ResponseWriter.Texts.{hex_chars}
use gdbstub.Prelude.{
  Bool-cases, inl, inr, ◌==◌, leb, ◌&&◌, ◌+◌, ◌-◌, if◌then◌else◌, Bytes, All, ℕ, ◌/◌, ◌^◌, ◌<◌,
  bit_and, ◌≡◌, refl, sym, ap, ◌∙◌, ◌≢◌, [], ◌∷◌, ◌++◌, append_assoc, arith,
}
use gdbstub.Prelude.Exec.{done, bind-done}
use gdbstub.Prelude.Exec.{◌>>◌}
use gdbstub.Checksum.{wrapping_sum}
use gdbstub.Connection.{Connection, IsReliable}
use gdbstub.ResponseWriter.{write_bytes, new, settle, write, hex_char, write_hex, flush, conn_flush}
use gdbstub.ResponseWriter.Rle.{run_out, encode}
use gdbstub.ResponseWriter.Sent.{
  push_all-append, write_bytes-put_all, checksum-push_all, begin-push_all-begin, push,
  drained-put_all, put-ne, put-same, put-other, sent-push_all, push_all, begin, drained,
  put-rle_char, W, put, put_all, write-put,
}

-- A packet around a body.
abbrev pub packet : Bytes → Bytes
packet body = b'$' ∷ (body ++ (b'#' ∷ hex_chars (wrapping_sum 0 body)))

encode_hash : (h l : ℕ) → b'#' < h → b'#' < l → encode b'#' 1 (h ∷ l ∷ []) ≡ b'#' ∷ h ∷ l ∷ []
encode_hash h l p q = ground arith

pub hex_char-gt : (d : ℕ) → b'#' < hex_char d
unfolding hex_char
hex_char-gt d = ground arith

module _ (c : Connection) (reliable : IsReliable c) where
  open reliable use {sent, after, flushed, flush_ok, sent-flushed}

  write_hex-put_all :
      (n : ℕ) (w : W c reliable) → write_hex c n w ≡ (done tt, put_all c reliable (hex_chars n) w)
  unfolding write_hex
  write_hex-put_all n w =
      bind-done (λ _. write c (hex_char (bit_and n 0x0f)))
        (write-put c reliable (hex_char (bit_and n 0xf0 / 2 ^ 4)) w)
      ∙ write-put c reliable (hex_char (bit_and n 0x0f)) _

  put_all-rle_char :
      (bs : Bytes) (w : W c reliable)
      → w.rle_char ≢ b'#'
      → All (λ b. b ≢ b'#') bs
      → (put_all c reliable bs w).rle_char ≢ b'#'
  put_all-rle_char [] w hw h = hw
  put_all-rle_char (b ∷ bs) w hw (hb, h) =
      put_all-rle_char bs (put c reliable b w) (rw (put-rle_char c reliable b w) hb) h

  -- The state behind the last `write` of `flush`.
  abbrev finished : W c reliable → W c reliable
  finished w =
      let hashed = put c reliable b'#' w in
      put c reliable 0 (put_all c reliable (hex_chars hashed.checksum) hashed)

  flush-finished :
      (w : W c reliable)
      → flush c w ≡ (done tt, record (finished w) { inner = flushed (finished w).inner })
  unfolding flush conn_flush
  flush-finished w =
      bind-done _ (write-put c reliable b'#' w)
      ∙ bind-done _ (write_hex-put_all (put c reliable b'#' w).checksum (put c reliable b'#' w))
      ∙ bind-done _ (write-put c reliable 0 _)
      ∙ ap (settle c (finished w)) (flush_ok (finished w).inner)

  -- The packet is closed over what the pending run leaves behind.
  abbrev closed : W c reliable → W c reliable
  closed d = begin c reliable 0 (push_all c reliable (b'#' ∷ hex_chars d.checksum) d)

  finished-closed :
      (w : W c reliable) → w.rle_char ≢ b'#' → finished w ≡ closed (drained c reliable w)
  finished-closed w ne =
      let run = run_out w.rle_char w.rle_repeat in
      let p = push_all c reliable run w in
      let hex = hex_chars p.checksum in
      let hashed : put c reliable b'#' w ≡ begin c reliable b'#' p =
        put-ne c reliable b'#' w (λ e. ne (sym e)) in
      let v = put_all c reliable hex (begin c reliable b'#' p) in
      let last : v.rle_char ≡ hex_char (bit_and p.checksum 0x0f) = put-rle_char c reliable _ _ in
      ap (λ u. put c reliable 0 (put_all c reliable (hex_chars u.checksum) u)) hashed
      ∙ put-ne c reliable 0 v
          (λ e. absurd (omega (arith, last, hex_char-gt (bit_and p.checksum 0x0f))))
      ∙ drained-put_all c reliable hex (begin c reliable b'#' p)
      ∙ ap (λ t. begin c reliable 0 (push_all c reliable t (begin c reliable b'#' p)))
          (encode_hash _ _ (hex_char-gt _) (hex_char-gt _))
      ∙ begin-push_all-begin c reliable (b'#' ∷ hex) 0 b'#' p
      ∙ sym (begin-push_all-begin c reliable (b'#' ∷ hex) 0 0 p)

  sent_fresh :
      (k : c.Conn) (ys : Bytes)
      → ys ≢ []
      → sent (push_all c reliable ys (new k)).inner ≡ sent k ++ (b'$' ∷ ys)
  unfolding new
  sent_fresh k [] ne = absurd (ne refl)
  sent_fresh k (y ∷ ys) ne =
      sent-push_all c reliable ys (push c reliable y (new k)) refl
      ∙ rw (reliable.sent-after, reliable.sent-after) (simp append_assoc refl)

  append_hash-ne-nil : (xs ys : Bytes) → xs ++ (b'#' ∷ ys) ≢ []
  append_hash-ne-nil [] ys e = cc
  append_hash-ne-nil (x ∷ xs) ys e = cc

  sent-closed :
      (k : c.Conn) (body : Bytes)
      → sent (closed (begin c reliable 0 (push_all c reliable body (new k)))).inner
        ≡ sent k ++ packet body
  sent-closed k body =
      let q = push_all c reliable body (new k) in
      let sum : q.checksum ≡ wrapping_sum 0 body =
        unfold new in checksum-push_all c reliable body (new k) in
      let tail = b'#' ∷ hex_chars q.checksum in
      ap (λ w. sent w.inner) (begin-push_all-begin c reliable tail 0 0 q)
      ∙ ap (λ w. sent w.inner) (sym (push_all-append c reliable body tail (new k)))
      ∙ sent_fresh k (body ++ tail) (append_hash-ne-nil body _)
      ∙ ap (λ n. sent k ++ (b'$' ∷ (body ++ (b'#' ∷ hex_chars n)))) sum

  -- What neither a write nor a flush changes of the connection stays as it was.
  module _ {X : Type 0} (f : c.Conn → X) (kept : (b : ℕ) (k : c.Conn) → f (after b k) ≡ f k)
      (kept_flushed : (k : c.Conn) → f (flushed k) ≡ f k) where
    kept-push_all : (xs : Bytes) (w : W c reliable) → f (push_all c reliable xs w).inner ≡ f w.inner
    kept-push_all [] w = refl
    kept-push_all (x ∷ xs) w = kept-push_all xs (push c reliable x w) ∙ kept x _ ∙ started w
      where
        started :
            (w : W c reliable) → f (if w.started then w.inner else after b'$' w.inner) ≡ f w.inner
        started w = elim (Bool-cases w.started) [
          | inl on ↦ rw on refl
          | inr off ↦ rw off (kept b'$' w.inner)
        ]

    kept-put : (b : ℕ) (w : W c reliable) → f (put c reliable b w).inner ≡ f w.inner
    kept-put b w = elim (Bool-cases (b == w.rle_char && leb (b' ' - 4 + (w.rle_repeat + 1)) b'~')) [
      | inl same ↦ ap (λ v. f v.inner) (put-same c reliable b w same)
      | inr other ↦
          ap (λ v. f v.inner) (put-other c reliable b w other)
          ∙ kept-push_all (run_out w.rle_char w.rle_repeat) w
    ]

    kept-put_all : (bs : Bytes) (w : W c reliable) → f (put_all c reliable bs w).inner ≡ f w.inner
    kept-put_all [] w = refl
    kept-put_all (b ∷ bs) w = kept-put_all bs (put c reliable b w) ∙ kept-put b w

    pub flush-kept :
        (bs : Bytes) (k : c.Conn) → f ((do write_bytes c bs; flush c) (new k)).1.inner ≡ f k
    flush-kept bs k =
        let w = put_all c reliable bs (new k) in
        let hashed = put c reliable b'#' w in
        ap (λ r. f r.1.inner)
          (bind-done (λ _. flush c) (write_bytes-put_all c reliable bs (new k)) ∙ flush-finished w)
        ∙ kept_flushed (finished w).inner
        ∙ kept-put 0 _
        ∙ kept-put_all (hex_chars hashed.checksum) hashed
        ∙ kept-put b'#' w
        ∙ kept-put_all bs (new k)
        ∙ unfold new in refl

  -- Writing any bytes but '#' and flushing sends one packet, whose body is the run-length encoding
  -- of the bytes.
  pub flush-write_bytes :
      (k : c.Conn) (bs : Bytes)
      → All (λ b. b ≢ b'#') bs
      → let out = (do write_bytes c bs; flush c) (new k) in
        (out.0 ≡ done tt) × (sent out.1.inner ≡ sent k ++ packet (encode 0 0 bs))
  flush-write_bytes k bs h =
      let start = new k in
      let w = put_all c reliable bs start in
      let runs : (do write_bytes c bs; flush c) start
          ≡ (done tt, record (finished w) { inner = flushed (finished w).inner }) =
        bind-done (λ _. flush c) (write_bytes-put_all c reliable bs start) ∙ flush-finished w in
      let closes : finished w
          ≡ closed (begin c reliable 0 (push_all c reliable (encode 0 0 bs) start)) =
        unfold new in
        finished-closed w (put_all-rle_char bs start (omega arith) h)
        ∙ ap closed (drained-put_all c reliable bs start) in
      (
        ap (λ r. r.0) runs,
        ap (λ r. sent r.1.inner) runs
            ∙ sent-flushed (finished w).inner
            ∙ ap (λ v. sent v.inner) closes
            ∙ sent-closed k (encode 0 0 bs),
      )
