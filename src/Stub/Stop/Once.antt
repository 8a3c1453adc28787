-- ===== src/Stub/Stop/Once.antt =====
-- src/gdbstub_impl/ext/base.rs: the loop of `do_vcont` and the bound on its rounds.
use gdbstub.Prelude.Exec.{◌>>=◌}
use gdbstub.Connection.{Connection}
use gdbstub.Target.{Target}
