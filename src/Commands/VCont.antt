-- ===== src/Commands/VCont.antt =====
-- src/protocol/commands/_vCont.rs: the `vCont` packet and the actions in it, which are parsed when
-- the handler walks over them.
pub mod Texts
pub mod RoundTrip
use gdbstub.Prelude.Slices.{nth, is_empty, split}
use gdbstub.Hex.{decode_hex}
use gdbstub.Prelude.{
  u8_max, Bytes, codes, equal, ◌==◌, if◌then◌else◌, to_option, ℕ, Bool, ◌&&◌, Option, none, some,
  List, [], ◌∷◌, map,
}
use gdbstub.Prelude.OptionDo.{◌>>=◌}
use gdbstub.ThreadId.{SpecificThreadId, parse_thread_id, specific_thread_id}
use gdbstub.Commands.Types.{
  VContKind, continue, continue_with_sig, range_step, step, step_with_sig, stop, VContAction,
  Actions, actions_buf, fixed_step, fixed_cont, VCont, query, actions,
}

abbrev pub is_semicolon : ℕ → Bool
is_semicolon b = b == b';'

abbrev pub is_colon : ℕ → Bool
is_colon b = b == b':'

abbrev pub is_comma : ℕ → Bool
is_comma b = b == b','

unfoldable pub parse_range_step : List Bytes → Option VContKind
parse_range_step parts = do start ← nth 0 parts; end ← nth 1 parts; some (range_step start end)

unfoldable pub parse_sig : (ℕ → VContKind) → Bytes → Option VContKind
parse_sig f sig = do n ← to_option (decode_hex u8_max sig); some (f n)

-- `VContKind::from_bytes`.
unfoldable pub parse_kind : Bytes → Option VContKind
unfolding parse_range_step parse_sig
parse_kind [] = none
parse_kind (b ∷ rest) =
    if b == b'c' && is_empty rest
    then some continue
    else if b == b's' && is_empty rest
    then some step
    else if b == b't' && is_empty rest
    then some stop
    else if b == b'C'
    then parse_sig continue_with_sig rest
    else if b == b'S'
    then parse_sig step_with_sig rest
    else if b == b'r'
    then parse_range_step (split is_comma rest)
    else none

-- The thread of an action, if it names one.
unfoldable pub parse_thread : Option Bytes → Option (Option SpecificThreadId)
parse_thread none = some none
parse_thread (some s) = do
  thread ← parse_thread_id s
  specific ← specific_thread_id thread
  some (some specific)

-- The closure of `ActionsBuf::iter`.
unfoldable pub parse_action : Bytes → Option VContAction
unfolding parse_kind parse_thread
parse_action act = do
  let parts = split is_colon act
  kind_text ← nth 0 parts
  thread ← parse_thread (nth 1 parts)
  kind ← parse_kind kind_text
  some (record { kind = kind; thread = thread })

-- `skip(1)`.
abbrev pub tail_of : List Bytes → List Bytes
tail_of [] = []
tail_of (x ∷ xs) = xs

-- `Actions::iter`, as the list of its items; `none` is an action that does not parse.
unfoldable pub iter : Actions → List (Option VContAction)
unfolding parse_action
iter (actions_buf buf) = map parse_action (tail_of (split is_semicolon buf))
iter (fixed_step thread) = some (record { kind = step; thread = some thread }) ∷ []
iter (fixed_cont thread) = some (record { kind = continue; thread = some thread }) ∷ []

-- `vCont::from_packet`, on the body.
unfoldable pub parse_v_cont : Bytes → Option VCont
parse_v_cont body = if equal body (codes "?") then some query else some (actions (actions_buf body))
