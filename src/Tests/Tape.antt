-- ===== src/Tests/Tape.antt =====
-- A connection for the tests: the bytes that it still gives, and those that it was given.
use gdbstub.Prelude.{Bytes, Result, ok, ℕ, ◌≡◌, refl, ap, Option, none, some, [], ◌∷◌, ◌++◌}
use gdbstub.Stub.Receive.Framed.{IsReadable}
use gdbstub.Stub.Receive.Duplex.{IsDuplex}
use gdbstub.Connection.{Connection, IsReliable}

pub record Tape : Type 0 where
  pub input : Bytes
  pub output : Bytes

abbrev read : Tape → Result (Unit {0}) ℕ × Tape
read t = go t.input
  where
    go : Bytes → Result (Unit {0}) ℕ × Tape
    go [] = (Result.err tt, t)
    go (b ∷ bs) = (ok b, record t { input = bs })

abbrev head_of : Bytes → Option ℕ
head_of [] = none
head_of (b ∷ bs) = some b

abbrev after : ℕ → Tape → Tape
after b t = record t { output = t.output ++ (b ∷ []) }

abbrev pub tape : Connection
tape = record {
  Conn = Tape;
  ConnError = Unit {0};
  read = read;
  write = λ b t. (ok tt, after b t);
  peek = λ t. (ok (head_of t.input), t);
  flush = λ t. (ok tt, t);
  on_session_start = λ t. (ok tt, t);
}

abbrev pub blank : Tape
blank = record { input = []; output = [] }

-- Nothing that is written to a tape is lost.
abbrev pub tape-IsReliable : IsReliable tape
tape-IsReliable = record {
  sent = λ t. t.output;
  after = after;
  flushed = λ t. t;
  write_ok = λ b k. refl;
  sent-after = λ b k. refl;
  flush_ok = λ k. refl;
  sent-flushed = λ k. refl;
}

abbrev tail_of : Bytes → Bytes
tail_of [] = []
tail_of (b ∷ bs) = bs

abbrev behind : Tape → Tape
behind t = record t { input = tail_of t.input }

pub read-behind : (k : Tape) (b : ℕ) (bs : Bytes) → k.input ≡ b ∷ bs → read k ≡ (ok b, behind k)
read-behind k b bs h = rw h refl

abbrev pub tape-IsReadable : IsReadable tape
tape-IsReadable = record {
  rest = λ t. t.input;
  behind = behind;
  read_ok = read-behind;
  rest-behind = λ k b bs h. ap tail_of h;
}

pub tape-IsDuplex : IsDuplex tape tape-IsReliable tape-IsReadable
tape-IsDuplex = record {
  sent-behind = λ k b bs h. refl;
  rest-after = λ b k. refl;
  rest-flushed = λ k. refl;
}
