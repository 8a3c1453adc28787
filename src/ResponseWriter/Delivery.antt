-- ===== src/ResponseWriter/Delivery.antt =====
-- src/protocol/response_writer.rs: what the client makes of a reply.
use gdbstub.Prelude.{ℕ, ◌<◌, ◌≢◌}
use gdbstub.Prelude.Exec.{◌>>◌}
use gdbstub.Connection.{Connection}

-- A byte of a reply: ASCII, and neither of the characters that frame and encode packets.
abbrev pub IsReply : ℕ → Type 0
IsReply b = (b < 128) × (b ≢ b'#') × (b ≢ b'*')
