-- ===== src/Tests/Actions.antt =====
-- src/protocol/commands/_vCont.rs: the iterator over the actions at a concrete packet.
use gdbstub.Prelude.{codes, ◌≡◌, refl, none, some, List, [], ◌∷◌, map, arith}
use gdbstub.ResponseWriter.{hex_char}
use gdbstub.ThreadId.{SpecificIdKind, SpecificThreadId}
use gdbstub.Commands.Types.{VContAction, actions_buf, continue, range_step, step_with_sig}
use gdbstub.Commands.VCont.{iter}
use gdbstub.Commands.VCont.Texts.{actions_text}
use gdbstub.Commands.VCont.RoundTrip.{iter-actions_text}

abbrev one_thread : SpecificThreadId
one_thread = record { pid = some (SpecificIdKind.with_id 1); tid = SpecificIdKind.with_id 26 }

abbrev acts : List VContAction
acts =
    record { kind = step_with_sig 5; thread = some one_thread }
    ∷ record { kind = range_step (codes "1a") (codes "2f"); thread = some one_thread }
    ∷ record { kind = continue; thread = none }
    ∷ []

acts_text : actions_text acts ≡ codes ";S05:p01.1a;r1a,2f:p01.1a;c"
unfolding hex_char
acts_text = refl

iter-actions_text_example : iter (actions_buf (actions_text acts)) ≡ map some acts
iter-actions_text_example = iter-actions_text acts (
  (omega arith, ((omega arith, omega arith), (omega arith, omega arith))),
  (
    ((ground arith, ground arith), ((omega arith, omega arith), (omega arith, omega arith))),
    ((tt, tt), tt),
  ),
)
