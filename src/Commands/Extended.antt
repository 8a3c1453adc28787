-- ===== src/Commands/Extended.antt =====
-- src/protocol/commands/*.rs: the parsers of the packets of the extended mode, and of `qRcmd`.
use gdbstub.Prelude.Slices.{nth, splitn, is_empty, split}
use gdbstub.Hex.{decode_hex_buf, is_hex, decoded_buf}
use gdbstub.Prelude.{
  Bytes, codes, equal, ◌==◌, if◌then◌else◌, length, Bool, true, false, not, ◌||◌, Option, none,
  some, List, [], ◌∷◌, map,
}
use gdbstub.Prelude.OptionDo.{◌>>=◌}
use gdbstub.Commands.Types.{ExtendedMode, MonitorCmd}

-- `:0` and `:1`, in `QDisableRandomization` and `QStartupWithShell`.
unfoldable pub parse_flag : Bytes → Option Bool
parse_flag body =
    if equal body (codes ":0")
    then some false
    else if equal body (codes ":1")
    then some true
    else none

-- An empty value means that there is none.
abbrev non_empty : Bytes → Option Bytes
non_empty [] = none
non_empty (b ∷ bs) = some (b ∷ bs)

-- The hex-encoded text behind a colon.
unfoldable pub parse_colon_hex : Bytes → Option Bytes
parse_colon_hex [] = none
parse_colon_hex (b ∷ text) = if b == b':' then decoded_buf (decode_hex_buf text) else none

unfoldable pub parse_q_environment_hex_encoded : Bytes → Option ExtendedMode
unfolding parse_colon_hex
parse_q_environment_hex_encoded body = do
  keyval ← parse_colon_hex body
  let parts = splitn 2 (λ b. b == b'=') keyval
  key ← nth 0 parts
  value ← nth 1 parts
  some (ExtendedMode.q_environment_hex_encoded key (non_empty value))

unfoldable pub parse_q_environment_unset : Bytes → Option ExtendedMode
unfolding parse_colon_hex
parse_q_environment_unset body = do
  key ← parse_colon_hex body
  some (ExtendedMode.q_environment_unset key)

unfoldable pub parse_q_set_working_dir : Bytes → Option ExtendedMode
unfolding parse_colon_hex
parse_q_set_working_dir body = do
  dir ← parse_colon_hex body
  some (ExtendedMode.q_set_working_dir (non_empty dir))

-- `R` has a byte that is not read.
unfoldable pub parse_r_upcase : Bytes → Option ExtendedMode
parse_r_upcase body = if length body == 2 then some ExtendedMode.r_upcase else none

abbrev any_bad_arg : Bytes → Bool
any_bad_arg [] = false
any_bad_arg (b ∷ bs) = not (is_hex b || b == b';') || any_bad_arg bs

abbrev args_or_empty : Option Bytes → Bytes
args_or_empty none = []
args_or_empty (some args) = args

-- `vRun`: the file name, and the arguments, still encoded, behind the second semicolon.
unfoldable pub parse_v_run : Bytes → Option ExtendedMode
parse_v_run body = do
  let parts = splitn 3 (λ b. b == b';') body
  first_semi ← nth 0 parts
  name_text ← nth 1 parts
  filename ← decoded_buf (decode_hex_buf name_text)
  let args = args_or_empty (nth 2 parts)
  if any_bad_arg args then none else some (ExtendedMode.v_run (non_empty filename) args)

-- An argument that does not decode would read as empty.
abbrev arg_or_empty : Bytes → Bytes
arg_or_empty raw = args_or_empty (decoded_buf (decode_hex_buf raw))

abbrev drop_empty : List Bytes → List Bytes
drop_empty [] = []
drop_empty (s ∷ ss) = if is_empty s then drop_empty ss else s ∷ drop_empty ss

-- `Args::into_iter`.
unfoldable pub args_iter : Bytes → List Bytes
args_iter args = drop_empty (map arg_or_empty (split (λ b. b == b';') args))

unfoldable pub parse_q_rcmd : Bytes → Option MonitorCmd
parse_q_rcmd [] = some (MonitorCmd.q_rcmd [])
parse_q_rcmd (b ∷ hex_cmd) =
    let cmd = (do text ← decoded_buf (decode_hex_buf hex_cmd); some (MonitorCmd.q_rcmd text)) in
    if b == b',' then cmd else none
