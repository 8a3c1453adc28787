-- ===== src/Commands/Base.antt =====
-- src/protocol/commands/*.rs: the parsers of the packets that every target has, and of the packets
-- for one register. Each takes the packet behind its name.
pub mod RoundTrip
use gdbstub.Prelude.Slices.{nth, is_empty, split}
use gdbstub.Hex.{decode_hex_buf, decoded_buf, decode_hex}
use gdbstub.ThreadId.{nonzero, parse_thread_id}
use gdbstub.Prelude.{
  usize_max, Bytes, equal, ◌==◌, if◌then◌else◌, length, take, drop, to_option, ℕ, ◌+◌, ◌-◌, ◌||◌,
  Option, none, some, [], ◌∷◌, ◌++◌,
}
use gdbstub.Prelude.OptionDo.{◌>>=◌}
use gdbstub.Packet.{PacketBuf, into_body, full_len}
use gdbstub.Commands.Types.{Op, step_continue, other, Base, SingleRegisterAccess}

-- The packets with no body: `?`, `g`, `k`, `qfThreadInfo`, `qsThreadInfo`, `QStartNoAckMode`.
unfoldable pub parse_bare {ℓ} : {A : Type ℓ} → A → Bytes → Option A
parse_bare cmd [] = some cmd
parse_bare cmd (b ∷ _) = none

-- The address of `c` and `s`, which may be left out.
unfoldable pub parse_resume_addr : Bytes → Option (Option Bytes)
parse_resume_addr [] = some none
parse_resume_addr (b ∷ body) = do addr ← decoded_buf (decode_hex_buf (b ∷ body)); some (some addr)

-- `Pid::new(decode_hex(pid).ok()?)?`.
unfoldable pub parse_pid : Bytes → Option ℕ
parse_pid text = do n ← to_option (decode_hex usize_max text); nonzero n

-- The process behind `mark`, in `D` and `qAttached`; anything else means none.
unfoldable pub parse_opt_pid : ℕ → Bytes → Option (Option ℕ)
unfolding parse_pid
parse_opt_pid mark [] = some none
parse_opt_pid mark (b ∷ text) =
    let pid = (do n ← parse_pid text; some (some n)) in if b == mark then pid else some none

-- The process behind a semicolon, in `vKill` and `vAttach`.
unfoldable pub parse_req_pid : Bytes → Option ℕ
unfolding parse_pid
parse_req_pid [] = none
parse_req_pid (b ∷ text) = if b == b';' then parse_pid text else none

parse_op : ℕ → Option Op
parse_op b = if b == b'g' then some other else if b == b'c' then some step_continue else none

unfoldable pub parse_h_upcase : Bytes → Option Base
unfolding parse_op
parse_h_upcase [] = none
parse_h_upcase (b ∷ rest) = do
  kind ← parse_op b
  thread ← parse_thread_id rest
  some (Base.h_upcase kind thread)

-- `m` decodes its address in place and keeps the rest of the buffer for the data: the slices are
-- cut from the whole buffer, whose body starts behind "$m".
unfoldable pub parse_m : PacketBuf → Option Base
parse_m p = do
  let parts = split (λ b. b == b',' || b == b'#') (drop p.start p.buf)
  addr_text ← nth 0 parts
  addr ← decoded_buf (decode_hex_buf addr_text)
  len_text ← nth 1 parts
  len ← to_option (decode_hex usize_max len_text)
  let front = take p.start p.buf ++ addr
  some (Base.m (drop 2 front) len (length p.buf - (p.start + length addr)))

unfoldable pub parse_m_upcase : Bytes → Option Base
parse_m_upcase body = do
  let parts = split (λ b. b == b',' || b == b':') body
  addr_text ← nth 0 parts
  addr ← decoded_buf (decode_hex_buf addr_text)
  len_text ← nth 1 parts
  len ← to_option (decode_hex usize_max len_text)
  val_text ← nth 2 parts
  val ← decoded_buf (decode_hex_buf val_text)
  some (Base.m_upcase addr len val)

unfoldable pub parse_q_supported : PacketBuf → Option Base
parse_q_supported p =
    if is_empty (into_body p) then none else some (Base.q_supported (full_len p) (into_body p))

-- `:annex:offset,length`, in `qXfer:features:read` and `qXfer:memory-map:read`.
unfoldable pub parse_xfer : Bytes → Bytes → Option (ℕ × ℕ)
parse_xfer annex_wanted body = do
  let parts = split (λ b. b == b':') body
  annex ← nth 1 parts
  bounds ← if equal annex annex_wanted then nth 2 parts else none
  let numbers = split (λ b. b == b',') bounds
  offset_text ← nth 0 numbers
  offset ← to_option (decode_hex usize_max offset_text)
  len_text ← nth 1 numbers
  len ← to_option (decode_hex usize_max len_text)
  some (offset, len)

unfoldable pub parse_p : Bytes → Option SingleRegisterAccess
parse_p body = do
  reg_id ← to_option (decode_hex usize_max body)
  some (SingleRegisterAccess.p reg_id)

unfoldable pub parse_p_upcase : Bytes → Option SingleRegisterAccess
parse_p_upcase body = do
  let parts = split (λ b. b == b'=') body
  id_text ← nth 0 parts
  reg_id ← to_option (decode_hex usize_max id_text)
  val_text ← nth 1 parts
  val ← decoded_buf (decode_hex_buf val_text)
  some (SingleRegisterAccess.p_upcase reg_id val)
