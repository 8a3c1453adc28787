-- ===== src/ResponseWriter/Sent.antt =====
-- src/protocol/response_writer.rs: over a connection on which no write fails, the methods of
-- `ResponseWriter` send what `encode` says, with the checksum of it.
use gdbstub.Prelude.{
  Bool-cases, Bytes, leb, ◌==◌, if◌then◌else◌, replicate, ℕ, zero, suc, ◌+◌, ◌-◌, ◌%◌, ◌≡◌, refl,
  sym, ap, ◌∙◌, ◌≢◌, inl, inr, Bool, true, false, ◌&&◌, ◌||◌, [], ◌∷◌, ◌++◌, append-nil,
  append_assoc, arith,
}
use gdbstub.Prelude.Exec.{done, ◌>>◌}
use gdbstub.Connection.{Connection, IsReliable}
use gdbstub.Prelude.Exec.{bind-done}
use gdbstub.ResponseWriter.{
  write_bytes, settle, start, add_checksum, repeat_write, begin_run, ResponseWriter, conn_write,
  inner_write, write_run, write,
}
use gdbstub.Checksum.{wrapping_sum}
use gdbstub.ResponseWriter.Rle.{run_out, encode}

module _ (c : Connection) (reliable : IsReliable c) where
  open reliable use {sent, after, flushed, write_ok, sent-after, flush_ok, sent-flushed}

  abbrev pub W : Type 0
  W = ResponseWriter c.Conn

  abbrev pub push : ℕ → W → W
  push b w = record w {
    inner = after b (if w.started then w.inner else after b'$' w.inner);
    started = true;
    checksum = (w.checksum + b) % 256;
  }

  abbrev pub push_all : Bytes → W → W
  push_all [] w = w
  push_all (b ∷ bs) w = push_all bs (push b w)

  conn_write-ok :
      (b : ℕ) (w : W) → conn_write c b w ≡ (done tt, record w { inner = after b w.inner })
  unfolding conn_write
  conn_write-ok b w = ap (settle c w) (write_ok b w.inner)

  start-ok :
      (k : c.Conn) (s : Bool) (sum char n : ℕ)
      → start c (record { inner = k; started = s; checksum = sum; rle_char = char; rle_repeat = n })
        ≡ (
          done tt,
          record {
            inner = if s then k else after b'$' k;
            started = true;
            checksum = sum;
            rle_char = char;
            rle_repeat = n;
          },
        )
  start-ok k true sum char n = refl
  start-ok k false sum char n = conn_write-ok b'$' _

  pub inner_write-push : (b : ℕ) (w : W) → inner_write c b w ≡ (done tt, push b w)
  unfolding inner_write
  inner_write-push b w =
      bind-done (λ _. add_checksum c b >> conn_write c b)
        (start-ok w.inner w.started w.checksum w.rle_char w.rle_repeat)
      ∙ conn_write-ok b _

  repeat_write-push_all :
      (n char : ℕ) (w : W) → repeat_write c n char w ≡ (done tt, push_all (replicate n char) w)
  repeat_write-push_all zero char w = refl
  repeat_write-push_all (suc n) char w =
      bind-done (λ _. repeat_write c n char) (inner_write-push char w)
      ∙ repeat_write-push_all n char (push char w)

  abbrev pub begin : ℕ → W → W
  begin b w = record w { rle_char = b; rle_repeat = 1 }

  pub begin-push_all :
      (xs : Bytes) (b n : ℕ) (w : W)
      → begin b (push_all xs (record w { rle_repeat = n })) ≡ begin b (push_all xs w)
  begin-push_all [] b n w = refl
  begin-push_all (x ∷ xs) b n w = begin-push_all xs b n (push x w)

  -- The run goes out, whatever the loop did to `rle_repeat`, and a new one begins.
  write_run-begin :
      (char n b : ℕ) (w : W)
      → (do write_run c char n; begin_run c b) w ≡ (done tt, begin b (push_all (run_out char n) w))
  unfolding write_run
  write_run-begin char zero b w = refl
  write_run-begin char (suc n) b w = elim (Bool-cases (leb (suc n) 3)) [
    | inl few ↦ rw few (rw (repeat_write-push_all (suc n) char w))
    | inr many ↦ elim (Bool-cases (suc n == 6 || suc n == 7)) [
      | inl bad ↦
          rw (many, bad)
            (rw (inner_write-push char w) (
              write_run-begin char n b (record (push char w) { rle_repeat = n })
              ∙ ap (λ v. (done tt, v)) (begin-push_all (run_out char n) b n (push char w))))
      | inr wins ↦
          rw (many, wins) (rw (inner_write-push char w) (rw inner_write-push (rw inner_write-push)))
    ]
  ]

  -- The state behind `write`.
  pub put : ℕ → W → W
  put b w =
      if b == w.rle_char && leb (b' ' - 4 + (w.rle_repeat + 1)) b'~'
      then record w { rle_repeat = w.rle_repeat + 1 }
      else begin b (push_all (run_out w.rle_char w.rle_repeat) w)

  pub write-put : (b : ℕ) (w : W) → write c b w ≡ (done tt, put b w)
  unfolding write put
  write-put b w = elim (Bool-cases (b == w.rle_char && leb (b' ' - 4 + (w.rle_repeat + 1)) b'~')) [
    | inl same ↦ rw same
    | inr other ↦ rw other (write_run-begin w.rle_char w.rle_repeat b w)
  ]

  abbrev pub put_all : Bytes → W → W
  put_all [] w = w
  put_all (b ∷ bs) w = put_all bs (put b w)

  pub write_bytes-put_all : (bs : Bytes) (w : W) → write_bytes c bs w ≡ (done tt, put_all bs w)
  unfolding write_bytes
  write_bytes-put_all [] w = refl
  write_bytes-put_all (b ∷ bs) w =
      bind-done (λ _. write_bytes c bs) (write-put b w) ∙ write_bytes-put_all bs (put b w)

  -- The pending run goes out.
  abbrev pub drained : W → W
  drained w = begin 0 (push_all (run_out w.rle_char w.rle_repeat) w)

  pub begin-push_all-begin :
      (xs : Bytes) (a b : ℕ) (w : W) → begin a (push_all xs (begin b w)) ≡ begin a (push_all xs w)
  begin-push_all-begin [] a b w = refl
  begin-push_all-begin (x ∷ xs) a b w = begin-push_all-begin xs a b (push x w)

  pub push_all-append :
      (xs ys : Bytes) (w : W) → push_all (xs ++ ys) w ≡ push_all ys (push_all xs w)
  push_all-append [] ys w = refl
  push_all-append (x ∷ xs) ys w = push_all-append xs ys (push x w)

  pub put-same :
      (b : ℕ) (w : W)
      → (b == w.rle_char && leb (b' ' - 4 + (w.rle_repeat + 1)) b'~') ≡ true
      → put b w ≡ record w { rle_repeat = w.rle_repeat + 1 }
  unfolding put
  put-same b w e = rw e

  pub put-other :
      (b : ℕ) (w : W)
      → (b == w.rle_char && leb (b' ' - 4 + (w.rle_repeat + 1)) b'~') ≡ false
      → put b w ≡ begin b (push_all (run_out w.rle_char w.rle_repeat) w)
  unfolding put
  put-other b w e = rw e

  -- A byte other than the one before it drives the pending run out.
  pub put-ne :
      (b : ℕ) (w : W)
      → b ≢ w.rle_char
      → put b w ≡ begin b (push_all (run_out w.rle_char w.rle_repeat) w)
  put-ne b w ne = put-other b w (ground arith)

  pub put-rle_char : (b : ℕ) (w : W) → (put b w).rle_char ≡ b
  put-rle_char b w =
      elim (Bool-cases (b == w.rle_char && leb (b' ' - 4 + (w.rle_repeat + 1)) b'~')) [
        | inl same ↦ rw (put-same b w same) (ground arith)
        | inr other ↦ rw (put-other b w other)
      ]

  pub drained-put_all :
      (bs : Bytes) (w : W)
      → drained (put_all bs w) ≡ begin 0 (push_all (encode w.rle_char w.rle_repeat bs) w)
  drained-put_all [] w = refl
  drained-put_all (b ∷ bs) w =
      elim (Bool-cases (b == w.rle_char && leb (b' ' - 4 + (w.rle_repeat + 1)) b'~')) [
        | inl same ↦
            let n = w.rle_repeat + 1 in
            let sends : encode w.rle_char n bs ≡ encode w.rle_char w.rle_repeat (b ∷ bs) =
              rw same in
            ap (λ v. drained (put_all bs v)) (put-same b w same)
            ∙ drained-put_all bs (record w { rle_repeat = n })
            ∙ begin-push_all (encode w.rle_char n bs) 0 n w
            ∙ ap (λ t. begin 0 (push_all t w)) sends
        | inr other ↦
            let run = run_out w.rle_char w.rle_repeat in
            let sends : run ++ encode b 1 bs ≡ encode w.rle_char w.rle_repeat (b ∷ bs) = rw other in
            ap (λ v. drained (put_all bs v)) (put-other b w other)
            ∙ drained-put_all bs (begin b (push_all run w))
            ∙ begin-push_all-begin (encode b 1 bs) 0 b (push_all run w)
            ∙ ap (begin 0) (sym (push_all-append run (encode b 1 bs) w))
            ∙ ap (λ t. begin 0 (push_all t w)) sends
      ]

  pub sent-push_all :
      (xs : Bytes) (w : W) → w.started ≡ true → sent (push_all xs w).inner ≡ sent w.inner ++ xs
  sent-push_all [] w s = sym (append-nil (sent w.inner))
  sent-push_all (x ∷ xs) w s =
      sent-push_all xs (push x w) refl
      ∙ rw (s, sent-after) (append_assoc (sent w.inner) (x ∷ []) xs)

  pub checksum-push_all :
      (xs : Bytes) (w : W) → (push_all xs w).checksum ≡ wrapping_sum w.checksum xs
  checksum-push_all [] w = refl
  checksum-push_all (x ∷ xs) w = checksum-push_all xs (push x w)
