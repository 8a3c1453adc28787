-- ===== src/ResponseWriter/Steps.antt =====
-- src/protocol/response_writer.rs: any sequence of calls of the writer's printing methods.
pub mod Framed
use gdbstub.Prelude.{Bytes, ℕ, ◌≤◌, ◌≡◌, ◌∙◌, sym}
use gdbstub.Prelude.Exec.{done}
use gdbstub.Connection.{Connection}
use gdbstub.ThreadId.{SpecificThreadId}
use gdbstub.ResponseWriter.{
  ResponseWriter, Writer, write_bytes, write_hex, write_hex_buf, write_binary, write_num,
}
use gdbstub.ResponseWriter.Ids.{
  write_specific_thread_id, write_specific_thread_id-text, thread_id_text,
}
use gdbstub.ResponseWriter.Texts.{
  hex_chars, hex_text, binary_text, num_text, write_hex-text, write_hex_buf-text, write_binary-text,
  write_num-text,
}

-- A call that returns `Ok`: the writer before it and behind it.
pub data Step (c : Connection) (w v : ResponseWriter c.Conn) : Type 0 where
  str : (bs : Bytes) → write_bytes c bs w ≡ (done tt, v) → Step c w v
  hex : (b : ℕ) → write_hex c b w ≡ (done tt, v) → Step c w v
  hex_buf : (bs : Bytes) → write_hex_buf c bs w ≡ (done tt, v) → Step c w v
  binary : (bs : Bytes) → write_binary c bs w ≡ (done tt, v) → Step c w v
  num : (size n : ℕ) → size ≤ 16 → write_num c size n w ≡ (done tt, v) → Step c w v
  thread_id : (id : SpecificThreadId) → write_specific_thread_id c id w ≡ (done tt, v) → Step c w v

pub data Reach (c : Connection) (s : ResponseWriter c.Conn) : ResponseWriter c.Conn → Type 0 where
  here : Reach c s s
  next : {w v : ResponseWriter c.Conn} → Reach c s w → Step c w v → Reach c s v

-- Every call writes a text byte by byte.
pub Step-text :
    (c : Connection) (w v : ResponseWriter c.Conn)
    → Step c w v
    → (text : Bytes) × (write_bytes c text w ≡ (done tt, v))
Step-text c w v (str bs e) = (bs, e)
Step-text c w v (hex b e) = (hex_chars b, sym (write_hex-text c b w) ∙ e)
Step-text c w v (hex_buf bs e) = (hex_text bs, sym (write_hex_buf-text c bs w) ∙ e)
Step-text c w v (binary bs e) = (binary_text bs, sym (write_binary-text c bs w) ∙ e)
Step-text c w v (num size n small e) = (num_text size n, sym (write_num-text c size n w small) ∙ e)
Step-text c w v (thread_id id e) =
    (thread_id_text id, sym (write_specific_thread_id-text c id w) ∙ e)
