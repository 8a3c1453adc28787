-- ===== src/Stub/Threads/Listed.antt =====
-- src/gdbstub_impl/ext/base.rs: the reply to `qfThreadInfo` of a target with several threads.
use gdbstub.Stub.{wrote}
use gdbstub.Prelude.{Bytes, codes, ok, ℕ, ◌≡◌, refl, sym, ap, ◌∙◌, true, false, List, [], ◌∷◌, ◌++◌}
use gdbstub.Prelude.Exec.{pure, ◌>>◌, done, bind-done}
use gdbstub.Connection.{Connection, IsReliable}
use gdbstub.ResponseWriter.{ResponseWriter}
use gdbstub.ResponseWriter.Ids.{thread_id_text, write_specific_thread_id-text}
use gdbstub.ResponseWriter.Sent.{put_all, write_bytes-put_all}
use gdbstub.Target
use gdbstub.Target.{Target}
use gdbstub.Stub.Queries.{thread_of}
use gdbstub.Stub.Threads.{
  list_all, list_done, handled, write_str, BaseOps, Session, thread_list, handle_qf_thread_info,
  Listing, list_thread, noted,
}

-- A callback is called on each thread, in order.
abbrev pub each : {S : Type 0} → (ℕ → S → S) → List ℕ → S → S
each f [] x = x
each f (tid ∷ tids) x = each f tids (f tid x)

-- The ids, with a comma between them.
abbrev pub ids_behind : List ℕ → Bytes
ids_behind [] = []
ids_behind (tid ∷ tids) = b',' ∷ (thread_id_text (thread_of tid) ++ ids_behind tids)

abbrev pub ids : List ℕ → Bytes
ids [] = []
ids (tid ∷ tids) = thread_id_text (thread_of tid) ++ ids_behind tids

module _ (c : Connection) (reliable : IsReliable c) where
  put_all-append :
      (xs ys : Bytes) (w : ResponseWriter c.Conn)
      → put_all c reliable (xs ++ ys) w ≡ put_all c reliable ys (put_all c reliable xs w)
  put_all-append [] ys w = refl
  put_all-append (x ∷ xs) ys w = put_all-append xs ys _

  module _ (t : Target) where
    abbrev gathered : Bytes → ResponseWriter c.Conn → Listing c t
    gathered xs w = record { res = put_all c reliable xs w; first = false; outcome = done tt }

    list_first :
        (tid : ℕ) (w : ResponseWriter c.Conn)
        → list_thread c t tid (record { res = w; first = true; outcome = done tt })
          ≡ gathered (thread_id_text (thread_of tid)) w
    list_first tid w = ap (noted c t (record { res = w; first = true; outcome = done tt })) (
        write_specific_thread_id-text c (thread_of tid) w
        ∙ write_bytes-put_all c reliable (thread_id_text (thread_of tid)) w)

    list_next :
        (tid : ℕ) (w : ResponseWriter c.Conn)
        → list_thread c t tid (record { res = w; first = false; outcome = done tt })
          ≡ gathered (b',' ∷ thread_id_text (thread_of tid)) w
    list_next tid w = ap (noted c t (record { res = w; first = false; outcome = done tt })) (
        bind-done _ (write_bytes-put_all c reliable (codes ",") w)
        ∙ write_specific_thread_id-text c (thread_of tid) _
        ∙ write_bytes-put_all c reliable (thread_id_text (thread_of tid)) _)

    each-list_thread :
        (tids : List ℕ) (w : ResponseWriter c.Conn)
        → each (list_thread c t) tids (record { res = w; first = false; outcome = done tt })
          ≡ gathered (ids_behind tids) w
    each-list_thread [] w = refl
    each-list_thread (tid ∷ tids) w =
        ap (each (list_thread c t) tids) (list_next tid w)
        ∙ each-list_thread tids _
        ∙ ap (λ v. record { res = v; first = false; outcome = done tt })
            (sym (put_all-append (b',' ∷ thread_id_text (thread_of tid)) (ids_behind tids) w))

    -- What the loop makes of a listing, on the first thread and the others.
    each-first :
        (tids : List ℕ) (w : ResponseWriter c.Conn)
        → (l : Listing c t) × (each
              (list_thread c t)
              tids
              (record { res = w; first = true; outcome = done tt })
            ≡ l)
          × (l.res ≡ put_all c reliable (ids tids) w)
          × (l.outcome ≡ done tt)
    each-first [] w = (record { res = w; first = true; outcome = done tt }, refl, refl, refl)
    each-first (tid ∷ tids) w = (
      gathered (ids_behind tids) (put_all c reliable (thread_id_text (thread_of tid)) w),
      ap (each (list_thread c t) tids) (list_first tid w) ∙ each-list_thread tids _,
      sym (put_all-append (thread_id_text (thread_of tid)) (ids_behind tids) w),
      refl,
    )

    abbrev listing_of : List ℕ → ResponseWriter c.Conn → Listing c t
    listing_of tids w =
        each (list_thread c t) tids (record { res = w; first = true; outcome = done tt })

    -- On a reliable connection, `qfThreadInfo` of a target with several threads that calls back on
    -- each thread, and lists them without an error, answers 'm' and the ids of the threads, in the
    -- order of the calls, with commas between them.
    pub handle_qf_thread_info-ids :
        (ops : Target.MultiThreadOps t.State t.Error t.arch.Registers t.arch.RegId) (tids : List ℕ)
        (s : Session c t) (target : t.State)
        → t.base_ops ≡ BaseOps.multi_thread ops
        → ((S : Type 0) (f : ℕ → S → S) (x : S)
            → ops.list_active_threads S f s.target x ≡ (ok tt, target, each f tids x))
        → handle_qf_thread_info c t s
          ≡ (do write_str c t (b'm' ∷ ids tids); pure handled) (record s { target = target })
    unfolding handle_qf_thread_info thread_list
    handle_qf_thread_info-ids ops tids s target multi lists =
        let w = put_all c reliable (codes "m") s.res in
        let s1 : Session c t = record s { res = w } in
        let (l, run, res, outcome) = each-first tids w in
        let s2 : Session c t = record s1 { res = l.res; target = target } in
        let starts : write_str c t (codes "m") s ≡ (done tt, s1) =
          ap (wrote c t s) (write_bytes-put_all c reliable (codes "m") s.res) in
        let start : Listing c t = record { res = w; first = true; outcome = done tt } in
        let lists_all : ops.list_active_threads (Listing c t) (list_thread c t) s.target start
            ≡ (ok tt, target, l) =
          lists (Listing c t) (list_thread c t) start ∙ ap (λ x. (ok tt, target, x)) run in
        let all : list_all c t ops.list_active_threads s1 ≡ (done l, s2) =
          ap (list_done c t s1) lists_all in
        let tells : thread_list c t (BaseOps.multi_thread ops) s1 ≡ (done tt, s2) =
          bind-done _ all ∙ ap (λ o. wrote c t s2 (o, l.res)) outcome in
        let threads : thread_list c t t.base_ops s1 ≡ (done tt, s2) =
          ap (λ b. thread_list c t b s1) multi ∙ tells in
        let writes : write_str c t (b'm' ∷ ids tids) (record s { target = target }) ≡ (
          done tt,
          record s { target = target; res = put_all c reliable (b'm' ∷ ids tids) s.res },
        ) =
          ap (wrote c t (record s { target = target }))
            (write_bytes-put_all c reliable (b'm' ∷ ids tids) s.res) in
        bind-done _ starts
        ∙ bind-done _ threads
        ∙ ap (λ v. (done handled, record s { target = target; res = v })) res
        ∙ sym (bind-done (λ _. pure handled) writes)
