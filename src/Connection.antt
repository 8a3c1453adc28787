-- ===== src/Connection.antt =====
-- src/connection/mod.rs: the trait `Connection`, which the user of the library implements. It is a
-- record of operations here; theorems about what is sent assume a connection that takes bytes.
use gdbstub.Prelude.{Bytes, Result, ok, ℕ, ◌≡◌, Option, [], ◌∷◌, ◌++◌}

-- Each method gives its result and the connection that it leaves.
pub record Connection : Type 1 where
  pub Conn : Type 0
  pub ConnError : Type 0
  pub read : Conn → Result ConnError ℕ × Conn
  pub write : ℕ → Conn → Result ConnError (Unit {0}) × Conn
  pub peek : Conn → Result ConnError (Option ℕ) × Conn
  pub flush : Conn → Result ConnError (Unit {0}) × Conn
  pub on_session_start : Conn → Result ConnError (Unit {0}) × Conn

-- A connection on which no write or flush fails, and `sent` is what was written to it, in order.
pub record IsReliable (c : Connection) : Type 0 where
  pub sent : c.Conn → Bytes
  pub after : ℕ → c.Conn → c.Conn
  pub flushed : c.Conn → c.Conn
  pub write_ok : (b : ℕ) (k : c.Conn) → c.write b k ≡ (ok tt, after b k)
  pub sent-after : (b : ℕ) (k : c.Conn) → sent (after b k) ≡ sent k ++ (b ∷ [])
  pub flush_ok : (k : c.Conn) → c.flush k ≡ (ok tt, flushed k)
  pub sent-flushed : (k : c.Conn) → sent (flushed k) ≡ sent k
