-- ===== src/Commands/VCont/RoundTrip.antt =====
-- src/protocol/commands/_vCont.rs: the iterator over the actions of `vCont` on the texts of actions.
use gdbstub.Prelude.{
  u8_max, Bytes, ℕ, Option, none, some, List, [], ◌∷◌, ◌++◌, map, ◌≡◌, refl, ap, ◌∙◌, ◌≤◌, All,
  arith, append-nil,
}
use gdbstub.Prelude.OptionDo.{◌>>=◌}
use gdbstub.Prelude.Slices.{Plain, split, split-Plain, split_at}
use gdbstub.ResponseWriter.Texts.{num_text}
use gdbstub.ResponseWriter.Ids.{thread_id_text}
use gdbstub.ResponseWriter.Decoding.{decode_hex-num_text}
use gdbstub.ThreadId.{SpecificThreadId, ThreadId, parse_thread_id, specific_thread_id}
use gdbstub.ThreadId.RoundTrip.{IsId, IsPid, specific_thread_id-thread_id_text}
use gdbstub.Commands.Types.{
  VContKind, continue, continue_with_sig, range_step, step, step_with_sig, stop, VContAction,
  actions_buf,
}
use gdbstub.Commands.VCont.{
  is_semicolon, is_colon, is_comma, parse_range_step, parse_sig, parse_kind, parse_thread,
  parse_action, iter,
}
use gdbstub.Commands.VCont.Texts.{
  kind_text, behind_kind, action_text, actions_text, IsKind, IsThread, IsAction, kind_text-Plain,
  action_text-Plain, All-Plain, no_comma, no_colon, thread_text,
}

parse_sig-num_text :
    (f : ℕ → VContKind) (n : ℕ) → n ≤ u8_max → parse_sig f (num_text 1 n) ≡ some (f n)
unfolding parse_sig
parse_sig-num_text f n h = rw (decode_hex-num_text u8_max 1 n (omega arith) h (omega arith)) refl

parse_kind-kind_text : (k : VContKind) → IsKind k → parse_kind (kind_text k) ≡ some k
unfolding parse_kind parse_range_step
parse_kind-kind_text continue h = refl
parse_kind-kind_text step h = refl
parse_kind-kind_text stop h = refl
parse_kind-kind_text (continue_with_sig n) h = parse_sig-num_text continue_with_sig n h
parse_kind-kind_text (step_with_sig n) h = parse_sig-num_text step_with_sig n h
parse_kind-kind_text (range_step start end) (hs, he) =
    rw
      (
        split_at is_comma start b',' end (All-Plain is_comma no_comma start hs) refl,
        split-Plain is_comma end (All-Plain is_comma no_comma end he),
      )
      refl

specified :
    (x : Option ThreadId) (id : SpecificThreadId)
    → (x >>= specific_thread_id) ≡ some id
    → (x >>= λ thread. (specific_thread_id thread >>= λ specific. some (some specific)))
      ≡ some (some id)
specified none id h = absurd (cc h)
specified (some thread) id h = rw h refl

parse_thread-thread_id_text :
    (id : SpecificThreadId)
    → IsPid id.pid
    → IsId id.tid
    → parse_thread (some (thread_id_text id)) ≡ some (some id)
unfolding parse_thread
parse_thread-thread_id_text id hp ht =
    specified (parse_thread_id (thread_id_text id)) id (specific_thread_id-thread_id_text id hp ht)

parse_action-action_text : (a : VContAction) → IsAction a → parse_action (action_text a) ≡ some a
unfolding parse_action
parse_action-action_text a (hk, ht) = go a.thread ht
  where
    plain_kind : Plain is_colon (kind_text a.kind)
    plain_kind = kind_text-Plain is_colon no_colon refl a.kind hk

    go :
        (thread : Option SpecificThreadId)
        → IsThread thread
        → parse_action (kind_text a.kind ++ behind_kind thread)
          ≡ some (record { kind = a.kind; thread = thread })
    go none h =
        rw
          (
            append-nil (kind_text a.kind),
            split-Plain is_colon (kind_text a.kind) plain_kind,
            parse_kind-kind_text a.kind hk,
          )
          refl
    go (some id) (hp, hid) =
        rw
          (
            split_at is_colon (kind_text a.kind) b':' (thread_id_text id) plain_kind refl,
            split-Plain is_colon (thread_id_text id)
                (All-Plain is_colon no_colon (thread_id_text id) (thread_text id)),
            parse_thread-thread_id_text id hp hid,
            parse_kind-kind_text a.kind hk,
          )
          refl

split-actions_text :
    (front : Bytes) (acts : List VContAction)
    → Plain is_semicolon front
    → All IsAction acts
    → split is_semicolon (front ++ actions_text acts) ≡ front ∷ map action_text acts
split-actions_text front [] plain h = rw (append-nil front) (split-Plain is_semicolon front plain)
split-actions_text front (a ∷ acts) plain (ha, h) =
    split_at is_semicolon front b';' (action_text a ++ actions_text acts) plain refl
    ∙ ap (◌∷◌ front) (split-actions_text (action_text a) acts (action_text-Plain a ha) h)

map-parse_action :
    (acts : List VContAction)
    → All IsAction acts
    → map parse_action (map action_text acts) ≡ map some acts
map-parse_action [] h = refl
map-parse_action (a ∷ acts) (ha, h) =
    rw (parse_action-action_text a ha, map-parse_action acts h) refl

-- The iterator over the actions of a `vCont` packet gives exactly the actions that the client wrote,
-- in order: with or without a thread, whose ids are all, or nonzero and fit a `usize`, with a signal
-- below 256, and with a range whose two addresses have only bytes above ',' other than ':' and ';'.
pub iter-actions_text :
    (acts : List VContAction)
    → All IsAction acts
    → iter (actions_buf (actions_text acts)) ≡ map some acts
unfolding iter
iter-actions_text acts h = rw (split-actions_text [] acts tt h) (map-parse_action acts h)
