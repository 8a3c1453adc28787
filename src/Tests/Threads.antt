-- ===== src/Tests/Threads.antt =====
-- src/gdbstub_impl: a target with several threads, and the theorems about it at concrete inputs.
use gdbstub.Prelude.{codes, ok, ℕ, ◌≡◌, refl, none, true, false, [], ◌∷◌}
use gdbstub.Prelude.Exec.{pure, ◌>>◌}
use gdbstub.Target
use gdbstub.ResponseWriter.{hex_char}
use gdbstub.Target.{Target, BaseOps, ThreadStopReason}
use gdbstub.ThreadId.{SpecificIdKind}
use gdbstub.Stub.{Session, write_str, handled}
use gdbstub.Stub.Threads.{handle_qf_thread_info}
use gdbstub.Stub.Threads.Listed.{handle_qf_thread_info-ids, ids}
use gdbstub.Tests.Tape.{tape, blank, tape-IsReliable}
use gdbstub.Tests.Stub.{tiny}

-- Three threads; a run stops at once.
abbrev threaded_ops : Target.MultiThreadOps (Unit {0}) (Unit {0}) ℕ (Unit {0})
threaded_ops = record {
  access = λ _. record {
    read_registers = λ r s. (ok r, s);
    write_registers = λ _ s. (ok tt, s);
    read_addrs = λ _ _ s. (ok [], s);
    write_addrs = λ _ _ s. (ok tt, s);
  };
  single_register_access = none;
  resume = λ _ S poll target s. (ok ThreadStopReason.done_step, target, s);
  clear_resume_actions = λ s. (ok tt, s);
  set_resume_action = λ _ _ s. (ok tt, s);
  list_active_threads = λ S f target s. (ok tt, target, f 3 (f 18 (f 1 s)));
  is_thread_alive = λ _ s. (ok true, s);
  support_range_step = none;
  support_reverse_step = none;
  support_reverse_cont = none;
}

abbrev threaded : Target
threaded = record tiny { base_ops = BaseOps.multi_thread threaded_ops }

abbrev threaded_session : Session tape threaded
threaded_session = record {
  res = record { inner = blank; started = false; checksum = 0; rle_char = 0; rle_repeat = 0 };
  target = tt;
  current_mem_tid = 1;
  current_resume_tid = SpecificIdKind.with_id 1;
  no_ack_mode = false;
}

ids_text : ids (1 ∷ 18 ∷ 3 ∷ []) ≡ codes "p01.01,p01.12,p01.03"
unfolding hex_char
ids_text = refl

handle_qf_thread_info-ids_example :
    handle_qf_thread_info tape threaded threaded_session
    ≡ (do write_str tape threaded (b'm' ∷ ids (1 ∷ 18 ∷ 3 ∷ [])); pure handled) threaded_session
handle_qf_thread_info-ids_example =
    handle_qf_thread_info-ids tape tape-IsReliable threaded threaded_ops (1 ∷ 18 ∷ 3 ∷ [])
      threaded_session tt refl (λ S f x. refl)
