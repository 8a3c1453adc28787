-- ===== src/ResponseWriter/Steps/Framed.antt =====
-- src/protocol/response_writer.rs: what has been sent, and the state of the writer, between calls.
use gdbstub.Prelude.{
  Bool-cases, Bytes, leb, ◌==◌, ℕ, ◌+◌, ◌-◌, ◌%◌, ◌≤◌, ◌≡◌, refl, sym, ap, ◌∙◌, ◌⊎◌, inl, inr, true,
  false, ◌&&◌, [], ◌∷◌, ◌++◌, append_assoc, arith,
}
use gdbstub.Connection.{Connection, IsReliable}
use gdbstub.Checksum.{wrapping_sum, wrapping_sum-append}
use gdbstub.ResponseWriter.{new}
use gdbstub.ResponseWriter.Rle.{run_out}
use gdbstub.ResponseWriter.Sent.{
  W, push, push_all, put, put_all, put-same, put-other, write_bytes-put_all,
}
use gdbstub.ResponseWriter.Steps.{Step, Reach, here, next, Step-text}

module _ (c : Connection) (reliable : IsReliable c) (k : c.Conn) where
  open reliable use {sent, after, sent-after}

  -- Nothing was sent; or the start of a packet was, and `checksum` is that of its body so far.
  abbrev pub IsSent : W c reliable → Type 0
  IsSent w =
      ((w.started ≡ false) × (sent w.inner ≡ sent k) × (w.checksum ≡ 0))
      ⊎ ((w.started ≡ true)
          × ((body : Bytes) × (sent w.inner ≡ sent k ++ (b'$' ∷ body))
              × (w.checksum ≡ wrapping_sum 0 body)))

  -- The count of the pending run is printable.
  abbrev pub IsFramed : W c reliable → Type 0
  IsFramed w = (w.rle_repeat ≤ 98) × IsSent w

  push-IsSent : (b : ℕ) (w : W c reliable) → IsSent w → IsSent (push c reliable b w)
  push-IsSent b w (inl (fresh, s, sum)) = inr (
    refl,
    (
      b ∷ [],
      rw (fresh, sent-after, sent-after, s) (append_assoc (sent k) (b'$' ∷ []) (b ∷ [])),
      rw sum refl,
    ),
  )
  push-IsSent b w (inr (started, (body, s, sum))) = inr (
    refl,
    (
      body ++ (b ∷ []),
      rw (started, sent-after, s) (append_assoc (sent k) (b'$' ∷ body) (b ∷ [])),
      ap (λ n. (n + b) % 256) sum ∙ sym (wrapping_sum-append body (b ∷ []) 0),
    ),
  )

  push_all-IsSent : (xs : Bytes) (w : W c reliable) → IsSent w → IsSent (push_all c reliable xs w)
  push_all-IsSent [] w h = h
  push_all-IsSent (x ∷ xs) w h = push_all-IsSent xs (push c reliable x w) (push-IsSent x w h)

  put-IsFramed : (b : ℕ) (w : W c reliable) → IsFramed w → IsFramed (put c reliable b w)
  put-IsFramed b w (few, h) =
      elim (Bool-cases (b == w.rle_char && leb (b' ' - 4 + (w.rle_repeat + 1)) b'~')) [
        | inl same ↦ rw (put-same c reliable b w same) (ground arith, h)
        | inr other ↦
            rw (put-other c reliable b w other)
              (omega arith, push_all-IsSent (run_out w.rle_char w.rle_repeat) w h)
      ]

  put_all-IsFramed :
      (bs : Bytes) (w : W c reliable) → IsFramed w → IsFramed (put_all c reliable bs w)
  put_all-IsFramed [] w h = h
  put_all-IsFramed (b ∷ bs) w h = put_all-IsFramed bs (put c reliable b w) (put-IsFramed b w h)

  Step-IsFramed : (w v : W c reliable) → Step c w v → IsFramed w → IsFramed v
  Step-IsFramed w v step h =
      let (text, e) = Step-text c w v step in
      let same : put_all c reliable text w ≡ v =
        ap (λ r. r.1) (sym (write_bytes-put_all c reliable text w) ∙ e) in
      rw (← same) (put_all-IsFramed text w h)

  -- On a connection that takes every byte, after any sequence of calls of the printing methods of a
  -- new writer, either nothing was sent, or a '$' and a body were, whose sum modulo 256 is the
  -- writer's checksum; and the pending run is short enough for its count to be a printable
  -- character.
  pub Reach-IsFramed : (w : W c reliable) → Reach c (new k) w → IsFramed w
  Reach-IsFramed w here = unfold new in (omega arith, inl (refl, refl, refl))
  Reach-IsFramed w (next {w = u} reach step) = Step-IsFramed u w step (Reach-IsFramed u reach)
