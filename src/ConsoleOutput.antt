-- ===== src/ConsoleOutput.antt =====
-- src/protocol/console_output.rs: the output of a monitor command, on its way to the callback.
pub mod Messages
use gdbstub.Prelude.{Bytes, if◌then◌else◌, Bool, [], ◌++◌}
use gdbstub.Prelude.Slices.{is_empty}

-- The state is what the callback works on.
pub record ConsoleOutput (S : Type 0) : Type 0 where
  pub buf : Bytes
  pub state : S

abbrev pub new : {S : Type 0} → S → ConsoleOutput S
new state = record { buf = []; state = state }

-- `alloc` is the feature.
module _ {S : Type 0} (alloc : Bool) (callback : Bytes → S → S) where
  unfoldable pub write_raw : Bytes → ConsoleOutput S → ConsoleOutput S
  write_raw bytes o =
      if alloc
      then record o { buf = o.buf ++ bytes }
      else record o { state = callback bytes o.state }

  -- Without `alloc` there is no buffer, and no such method.
  unfoldable pub flush : ConsoleOutput S → ConsoleOutput S
  flush o = if is_empty o.buf then o else record { buf = []; state = callback o.buf o.state }

  -- `Drop`.
  unfoldable pub drop : ConsoleOutput S → ConsoleOutput S
  unfolding flush
  drop o = if alloc then flush o else o
