-- ===== src/Stub/Receive/Framed.antt =====
-- src/gdbstub_impl/mod.rs: `recv_packet` on a connection that gives a packet.
use gdbstub.Prelude.{
  Bytes, ltb, ◌==◌, length, length-append, All, ok, ℕ, zero, suc, ◌+◌, ◌≤◌, ◌<◌, ◌≡◌, refl, sym, ap,
  ◌∙◌, ◌≢◌, true, false, some, [], ◌∷◌, ◌++◌, append_assoc, arith,
}
use gdbstub.Prelude.Exec.{pure, ◌>>=◌, ◌>>◌, done, bind-done}
use gdbstub.Connection.{Connection}
use gdbstub.ManagedVec
use gdbstub.ManagedVec.{ManagedVec, as_slice}
use gdbstub.ManagedVec.Pushes.{pushed-append, pushed, as_slice-pushed}
use gdbstub.Target.{Target}
use gdbstub.Stub.{Session}
use gdbstub.Stub.Receive.{
  read_packet, read_checksum, Serving, Server, read, push, read_body, has_read, with_conn,
}

-- A connection on which reads give the bytes of `rest`, in order, while there are any.
pub record IsReadable (c : Connection) : Type 0 where
  pub rest : c.Conn → Bytes
  pub behind : c.Conn → c.Conn
  pub read_ok : (k : c.Conn) (b : ℕ) (bs : Bytes) → rest k ≡ b ∷ bs → c.read k ≡ (ok b, behind k)
  pub rest-behind : (k : c.Conn) (b : ℕ) (bs : Bytes) → rest k ≡ b ∷ bs → rest (behind k) ≡ bs

module _ (c : Connection) (readable : IsReadable c) (t : Target) where
  open readable use {rest, behind, read_ok, rest-behind}

  abbrev pub unread : Serving c t → Bytes
  unread v = rest v.session.res.inner

  -- The state behind a byte that is read and pushed.
  abbrev taken : ℕ → Serving c t → Serving c t
  taken b v = record (with_conn c t v (behind v.session.res.inner)) {
    pkt_buf = (ManagedVec.push b v.pkt_buf).1;
  }

  read-unread :
      (v : Serving c t) (b : ℕ) (bs : Bytes)
      → unread v ≡ b ∷ bs
      → read c t v ≡ (done b, with_conn c t v (behind v.session.res.inner))
  unfolding read
  read-unread v b bs h = ap (has_read c t v) (read_ok v.session.res.inner b bs h)

  push-room :
      (v : Serving c t) (b : ℕ)
      → v.pkt_buf.len < length v.pkt_buf.buf
      → push c t b v ≡ (done tt, record v { pkt_buf = (ManagedVec.push b v.pkt_buf).1 })
  unfolding push ManagedVec.push
  push-room v b h =
      let room : ltb v.pkt_buf.len (length v.pkt_buf.buf) ≡ true = ground arith in rw room refl

  take_byte :
      {A : Type 0} (f : ℕ → Server c t A) (v : Serving c t) (b : ℕ) (bs : Bytes)
      → unread v ≡ b ∷ bs
      → v.pkt_buf.len < length v.pkt_buf.buf
      → (do x ← read c t; push c t x; f x) v ≡ f b (taken b v)
  take_byte f v b bs h room =
      bind-done (λ x. push c t x >> f x) (read-unread v b bs h)
      ∙ bind-done (λ _. f b) (push-room (with_conn c t v (behind v.session.res.inner)) b room)

  -- What a push leaves of the room.
  taken_room :
      (b : ℕ) (v : Serving c t)
      → v.pkt_buf.len < length v.pkt_buf.buf
      → ((taken b v).pkt_buf.len ≡ v.pkt_buf.len + 1)
        × (length (taken b v).pkt_buf.buf ≡ length v.pkt_buf.buf)
  taken_room b v h =
      let (_, len, cap) = as_slice-pushed (b ∷ []) v.pkt_buf (omega arith) in (len, cap)

  -- Bytes that are read one by one.
  pub data Reads (k' : c.Conn) : c.Conn → Type 0 where
    here : Reads k' k'
    next : {k : c.Conn} (b : ℕ) (bs : Bytes) → rest k ≡ b ∷ bs → Reads k' (behind k) → Reads k' k

  -- The bytes `xs` are read and pushed, from `v` to `v'`.
  pub record Takes (xs tail : Bytes) (v v' : Serving c t) : Type 0 where
    pub left : unread v' ≡ tail
    pub stored : v'.pkt_buf ≡ pushed xs v.pkt_buf
    pub reads : Reads v'.session.res.inner v.session.res.inner
    pub same : v'.session ≡ (with_conn c t v v'.session.res.inner).session

  Takes-cons :
      (b : ℕ) (bs xs tail : Bytes) (v v' : Serving c t)
      → unread v ≡ b ∷ bs
      → Takes xs tail (taken b v) v'
      → Takes (b ∷ xs) tail v v'
  Takes-cons b bs xs tail v v' e h = record {
    left = h.left;
    stored = h.stored;
    reads = next b bs e h.reads;
    same = h.same;
  }

  Takes-one :
      (b : ℕ) (tail : Bytes) (v : Serving c t)
      → unread v ≡ b ∷ tail
      → Takes (b ∷ []) tail v (taken b v)
  Takes-one b tail v h = record {
    left = rest-behind v.session.res.inner b tail h;
    stored = refl;
    reads = next b tail h here;
    same = refl;
  }

  read_body-take :
      (body tail : Bytes) (rounds : ℕ) (v : Serving c t)
      → All (λ b. b ≢ b'#') body
      → unread v ≡ body ++ (b'#' ∷ tail)
      → v.pkt_buf.len + length body < length v.pkt_buf.buf
      → length body < rounds
      → (v' : Serving c t) × (read_body c t rounds v ≡ (done (some tt), v'))
        × Takes (body ++ (b'#' ∷ [])) tail v v'
  unfolding read_body
  read_body-take body tail zero v plain h room enough = absurd (omega arith)
  read_body-take [] tail (suc rounds) v plain h room enough =
      (taken b'#' v, take_byte _ v b'#' tail h (omega arith), Takes-one b'#' tail v h)
  read_body-take (b ∷ bs) tail (suc rounds) v (hb, plain) h room enough =
      let (len, cap) = taken_room b v (omega arith) in
      let next = rest-behind v.session.res.inner b (bs ++ (b'#' ∷ tail)) h in
      let goes_on : (b == b'#') ≡ false = ground arith in
      let (v', runs, takes) =
        read_body-take bs tail rounds (taken b v) plain next (omega (arith, len, cap))
          (omega arith) in
      (
        v',
        take_byte _ v b (bs ++ (b'#' ∷ tail)) h (omega arith) ∙ rw goes_on runs,
        Takes-cons b (bs ++ (b'#' ∷ tail)) (bs ++ (b'#' ∷ [])) tail v v' h takes,
      )

  abbrev pub cleared : Serving c t → Serving c t
  cleared v = record v { pkt_buf = ManagedVec.clear v.pkt_buf }

  read_checksum-take :
      (a b : ℕ) (tail : Bytes) (v : Serving c t)
      → unread v ≡ a ∷ b ∷ tail
      → v.pkt_buf.len + 2 ≤ length v.pkt_buf.buf
      → read_checksum c t (some tt) v ≡ (done (some tt), taken b (taken a v))
  read_checksum-take a b tail v h room =
      let (len, cap) = taken_room a v (omega arith) in
      take_byte (λ _. do second ← read c t; push c t second; pure (some tt)) v a (b ∷ tail) h
        (omega arith)
      ∙ take_byte (λ _. pure (some tt)) (taken a v) b tail
          (rest-behind v.session.res.inner a (b ∷ tail) h) (omega (arith, len, cap))

  read_packet-header :
      (rest_of : Bytes) (rounds : ℕ) (v : Serving c t)
      → unread v ≡ b'$' ∷ rest_of
      → 0 < length v.pkt_buf.buf
      → read_packet c t rounds v
        ≡ (do body ← read_body c t rounds; read_checksum c t body) (taken b'$' (cleared v))
  unfolding read_packet ManagedVec.clear
  read_packet-header rest_of rounds v h room =
      bind-done _ (read-unread v b'$' rest_of h)
      ∙ bind-done _ (push-room (with_conn c t (cleared v) (behind v.session.res.inner)) b'$' room)

  Reads-append : {i j k : c.Conn} → Reads i j → Reads j k → Reads i k
  Reads-append r here = r
  Reads-append r (next b bs e q) = next b bs e (Reads-append r q)

  abbrev on_conn : c.Conn → Session c t → Session c t
  on_conn k s = record s { res = record s.res { inner = k } }

  pub read_packet-take :
      (body tail : Bytes) (a b : ℕ) (rounds : ℕ) (v : Serving c t)
      → All (λ x. x ≢ b'#') body
      → unread v ≡ b'$' ∷ (body ++ (b'#' ∷ a ∷ b ∷ tail))
      → length body + 4 ≤ length v.pkt_buf.buf
      → length body < rounds
      → (v' : Serving c t) × (read_packet c t rounds v ≡ (done (some tt), v'))
        × Takes (b'$' ∷ (body ++ (b'#' ∷ a ∷ b ∷ []))) tail (cleared v) v'
  read_packet-take body tail a b rounds v plain h room enough =
      let w = taken b'$' (cleared v) in
      let text = body ++ (b'#' ∷ []) in
      let zero_len : (cleared v).pkt_buf.len ≡ 0 = unfold ManagedVec.clear in refl in
      let same_cap : length (cleared v).pkt_buf.buf ≡ length v.pkt_buf.buf =
        unfold ManagedVec.clear in refl in
      let (len, cap) = taken_room b'$' (cleared v) (omega (arith, zero_len, same_cap)) in
      let behind_header : unread w ≡ body ++ (b'#' ∷ a ∷ b ∷ tail) =
        rest-behind v.session.res.inner b'$' _ h in
      let (u, runs, takes) =
        read_body-take body (a ∷ b ∷ tail) rounds w plain behind_header
          (omega (arith, len, cap, zero_len, same_cap)) enough in
      let text_len : length text ≡ length body + 1 = length-append body (b'#' ∷ []) in
      let (_, len', cap') =
        as_slice-pushed text w.pkt_buf (omega (arith, len, cap, zero_len, same_cap, text_len)) in
      let len_u : u.pkt_buf.len ≡ w.pkt_buf.len + length text =
        ap (λ p. p.len) takes.stored ∙ len' in
      let cap_u : length u.pkt_buf.buf ≡ length w.pkt_buf.buf =
        ap (λ p. length p.buf) takes.stored ∙ cap' in
      (
        taken b (taken a u),
        read_packet-header _ rounds v h (omega arith)
            ∙ bind-done (read_checksum c t) runs
            ∙ read_checksum-take a b tail u takes.left
                (omega (arith, len_u, cap_u, len, cap, zero_len, same_cap, text_len)),
        record {
          left =
              rest-behind (taken a u).session.res.inner b tail
                (rest-behind u.session.res.inner a (b ∷ tail) takes.left);
          stored =
              ap (λ p. pushed (a ∷ b ∷ []) p) takes.stored
              ∙ sym (pushed-append text (a ∷ b ∷ []) w.pkt_buf)
              ∙ ap (λ xs. pushed xs w.pkt_buf) (append_assoc body (b'#' ∷ []) (a ∷ b ∷ []));
          reads = next b'$' _ h (
              Reads-append
                (next a (b ∷ tail) takes.left
                  (next b tail (rest-behind u.session.res.inner a (b ∷ tail) takes.left) here))
                takes.reads);
          same = ap (on_conn (taken b (taken a u)).session.res.inner) takes.same;
        },
      )
