-- ===== src/ResponseWriter/Ids.antt =====
-- src/protocol/response_writer.rs: `write_specific_id_kind` and `write_specific_thread_id`.
use gdbstub.ResponseWriter.{write_num, write_bytes, ResponseWriter, Writer}
use gdbstub.ResponseWriter.Texts.{write_bytes-append, write_num-text, num_text}
use gdbstub.Prelude.{
  Bytes, codes, ◌≡◌, refl, sym, ap, ◌∙◌, Option, none, some, [], ◌∷◌, ◌++◌, arith,
}
use gdbstub.Prelude.Exec.{continue_ext, continue, ◌>>◌, pure}
use gdbstub.Connection.{Connection}
use gdbstub.ThreadId.{SpecificIdKind, SpecificThreadId, all}

module _ (c : Connection) where
  unfoldable pub write_specific_id_kind : SpecificIdKind → Writer c (Unit {0})
  write_specific_id_kind all = write_bytes c (codes "-1")
  write_specific_id_kind (SpecificIdKind.with_id id) = write_num c 8 id

  write_pid : Option SpecificIdKind → Writer c (Unit {0})
  write_pid none = pure tt
  write_pid (some pid) = do
    write_bytes c (codes "p")
    write_specific_id_kind pid
    write_bytes c (codes ".")

  unfoldable pub write_specific_thread_id : SpecificThreadId → Writer c (Unit {0})
  unfolding write_specific_id_kind write_pid
  write_specific_thread_id id = do write_pid id.pid; write_specific_id_kind id.tid

-- The texts.
abbrev pub id_kind_text : SpecificIdKind → Bytes
id_kind_text SpecificIdKind.all = codes "-1"
id_kind_text (SpecificIdKind.with_id id) = num_text 8 id

abbrev pub pid_text : Option SpecificIdKind → Bytes
pid_text none = []
pid_text (some pid) = b'p' ∷ (id_kind_text pid ++ (b'.' ∷ []))

abbrev pub thread_id_text : SpecificThreadId → Bytes
thread_id_text id = pid_text id.pid ++ id_kind_text id.tid

module _ (c : Connection) where
  id_kind-text :
      (id : SpecificIdKind) (w : ResponseWriter c.Conn)
      → write_specific_id_kind c id w ≡ write_bytes c (id_kind_text id) w
  unfolding write_specific_id_kind
  id_kind-text SpecificIdKind.all w = refl
  id_kind-text (SpecificIdKind.with_id id) w = write_num-text c 8 id w (omega arith)

  pid-text :
      (pid : Option SpecificIdKind) (w : ResponseWriter c.Conn)
      → write_pid c pid w ≡ write_bytes c (pid_text pid) w
  unfolding write_pid
  pid-text none w = unfold write_bytes in refl
  pid-text (some pid) w =
      continue_ext _ _ (write_bytes c (codes "p") w) (λ _ v.
        ap (continue (λ _. write_bytes c (codes "."))) (id_kind-text pid v)
        ∙ sym (write_bytes-append c (id_kind_text pid) (codes ".") v))
      ∙ sym (write_bytes-append c (codes "p") (id_kind_text pid ++ codes ".") w)

  pub write_specific_thread_id-text :
      (id : SpecificThreadId) (w : ResponseWriter c.Conn)
      → write_specific_thread_id c id w ≡ write_bytes c (thread_id_text id) w
  unfolding write_specific_thread_id
  write_specific_thread_id-text id w =
      ap (continue (λ _. write_specific_id_kind c id.tid)) (pid-text id.pid w)
      ∙ continue_ext _ _ (write_bytes c (pid_text id.pid) w) (λ _ v. id_kind-text id.tid v)
      ∙ sym (write_bytes-append c (pid_text id.pid) (id_kind_text id.tid) w)
