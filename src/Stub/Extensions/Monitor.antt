-- ===== src/Stub/Extensions/Monitor.antt =====
-- src/gdbstub_impl/ext/monitor_cmd.rs: the console output of `qRcmd` reaches the client.
use gdbstub.Prelude.{
  Bytes, All, ok, ◌≡◌, refl, sym, ap, ◌∙◌, ◌≢◌, Bool, some, List, [], ◌∷◌, ◌++◌, append-nil,
  append_assoc, arith,
}
use gdbstub.Prelude.Exec.{◌>>◌, Outcome, done, fail, panic, continue, continue_ext, continue_assoc}
use gdbstub.Connection.{Connection, IsReliable}
use gdbstub.ResponseWriter
use gdbstub.ResponseWriter.{ResponseWriter, write_bytes, write_hex_buf, flush}
use gdbstub.ResponseWriter.Texts.{hex_text, write_hex_buf-text, write_bytes-append}
use gdbstub.ResponseWriter.Rle.{encode}
use gdbstub.ResponseWriter.Framing.{packet, flush-write_bytes, hex_char-gt}
use gdbstub.Target
use gdbstub.Target.{Target}
use gdbstub.ConsoleOutput.{new}
use gdbstub.ConsoleOutput.Messages.{Use, texts, joined, used, calls, used-calls}
use gdbstub.Stub.{Session, needs_ok}
use gdbstub.Stub.Extensions.{
  Console, console_packet, printed, print_message, handle_monitor_cmd, monitor_done, monitor_by,
}

-- A console packet for each message.
abbrev pub console_packets : List Bytes → Bytes
console_packets [] = []
console_packets (m ∷ ms) = packet (encode 0 0 (b'O' ∷ hex_text m)) ++ console_packets ms

hex_text-no_hash : (bs : Bytes) → All (λ b. b ≢ b'#') (hex_text bs)
hex_text-no_hash [] = tt
hex_text-no_hash (b ∷ bs) = (
  (λ e. absurd (omega (arith, e, hex_char-gt _))),
  ((λ e. absurd (omega (arith, e, hex_char-gt _))), hex_text-no_hash bs),
)

module _ (c : Connection) (reliable : IsReliable c) (t : Target) where
  open reliable use {sent}

  console_packet-text :
      (msg : Bytes) (w : ResponseWriter c.Conn)
      → console_packet c t msg w ≡ (do write_bytes c (b'O' ∷ hex_text msg); flush c) w
  console_packet-text msg w =
      continue_ext _ _ (write_bytes c (b'O' ∷ []) w)
        (λ _ v. ap (continue (λ _. flush c)) (write_hex_buf-text c msg v))
      ∙ sym (continue_assoc _ _ (write_bytes c (b'O' ∷ []) w))
      ∙ ap (continue (λ _. flush c)) (sym (write_bytes-append c (b'O' ∷ []) (hex_text msg) w))

  -- A console on which nothing failed.
  abbrev idle : c.Conn → Console c t
  idle conn = record { conn = conn; outcome = done tt }

  printed-done :
      (conn : c.Conn) (out : Outcome c.ConnError (Unit {0}) × ResponseWriter c.Conn)
      → out.0 ≡ done tt
      → printed c t (idle conn) out ≡ idle out.1.inner
  printed-done conn (done u, w) e = refl
  printed-done conn (fail x, w) e = cc
  printed-done conn (panic, w) e = cc

  abbrev Sent : Bytes → c.Conn → Console c t → Type 0
  Sent bytes conn k = (conn' : c.Conn) × (k ≡ idle conn') × (sent conn' ≡ sent conn ++ bytes)

  print_message-Sent :
      (msg : Bytes) (conn : c.Conn)
      → Sent (packet (encode 0 0 (b'O' ∷ hex_text msg))) conn (print_message c t msg (idle conn))
  print_message-Sent msg conn =
      let w = ResponseWriter.new conn in
      let (runs, sends) =
        flush-write_bytes c reliable conn (b'O' ∷ hex_text msg)
          ((λ e. absurd (omega (arith, e))), hex_text-no_hash msg) in
      let same = console_packet-text msg w in
      let out = console_packet c t msg w in
      (
        out.1.inner,
        printed-done conn out (ap (λ o. o.0) same ∙ runs),
        ap (λ o. sent o.1.inner) same ∙ sends,
      )

  calls-Sent :
      (ms : List Bytes) (conn : c.Conn)
      → Sent (console_packets ms) conn (calls (print_message c t) ms (idle conn))
  calls-Sent [] conn = (conn, refl, sym (append-nil (sent conn)))
  calls-Sent (m ∷ ms) conn =
      let (k, printed_one, first) = print_message-Sent m conn in
      let (k', printed_all, rest) = calls-Sent ms k in
      (
        k',
        ap (calls (print_message c t) ms) printed_one ∙ printed_all,
        rest
            ∙ ap (λ xs. xs ++ console_packets ms) first
            ∙ append_assoc (sent conn) (packet (encode 0 0 (b'O' ∷ hex_text m)))
                (console_packets ms),
      )

  -- On a connection that takes every byte, when a monitor command succeeds and makes any sequence of
  -- writes and flushes on its console, `qRcmd` ends with the reply OK, and what was sent before it
  -- is a sequence of console packets: 'O' and the hex text of a message, run-length encoded. The
  -- messages together are the text that the command wrote, with and without `alloc`.
  pub handle_monitor_cmd-messages :
      (alloc : Bool) (us : List Use) (hex_cmd : Bytes) (after : t.State) (s : Session c t)
      (op : Bytes → Target.Reporting t.State t.Error Bytes)
      → t.monitor_cmd ≡ some op
      → ((state : Console c t)
          → op hex_cmd (Console c t) (print_message c t) s.target state
            ≡ (ok tt, after, (used (print_message c t) alloc us (new state)).state))
      → (ms : List Bytes) × (conn : c.Conn) × (handle_monitor_cmd c t hex_cmd s
          ≡ (done needs_ok, record s { target = after; res = record s.res { inner = conn } }))
        × (sent conn ≡ sent s.res.inner ++ console_packets ms)
        × (joined ms ≡ texts us)
  unfolding handle_monitor_cmd
  handle_monitor_cmd-messages alloc us hex_cmd after s op supported runs =
      let start = idle s.res.inner in
      let (ms, called, text) = used-calls (print_message c t) alloc us start in
      let (conn, printed_all, sends) = calls-Sent ms s.res.inner in
      let ran = runs start ∙ ap (λ k. (ok tt, after, k)) (called ∙ printed_all) in
      let handles = ap (λ o. monitor_by c t o hex_cmd s) supported ∙ ap (monitor_done c t s) ran in
      (ms, conn, handles, sends, text)
