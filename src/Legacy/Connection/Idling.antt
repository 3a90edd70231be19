-- ===== src/Legacy/Connection/Idling.antt =====
-- 0old/server/net_mgr/net_mgr.cpp: a session whose messages a worker can handle is served until it is idle.
use f1985gfw.Base.{
  ℕ, ◌≢◌, subst, zero, suc, ◌+◌, ◌-◌, ◌≤◌, ◌<◌, ◌≡◌, refl, ap, ◌∙◌, Bool, true, false, Option, none,
  some, List, [], ◌∷◌, ◌++◌, length, ◌==◌, if◌then◌else◌, arith, inl, inr, ◌⊎◌, Result, ok, fault,
  ◌>>=◌,
}
use f1985gfw.Base.Dict.{find}
use f1985gfw.Legacy.Queue.{enmt_write, NetMsg}
use f1985gfw.Legacy.Connection.{
  Conn, stopped, Mgr, ErrorText, write_some, get_conn, set_conn, set_status, push_error,
  close_socket, write_msg, buffer_size, emir_disconnect, next_msg, on_message, push_replies,
  work_msg,
}
use f1985gfw.Legacy.Connection.Load.{
  is_reserved, worth, worths, load, load_of, kinds, Within, load-set_conn, load-found,
  worth-positive,
}
use f1985gfw.Legacy.Connection.Duties.{work_msg-Within}
use f1985gfw.Legacy.Connection.Working.{
  serve_session, work_round, rested, next_msg-none, next_msg-some, work_round-taken, Served,
  work_round-Served,
}
use f1985gfw.Legacy.Connection.Ending.{
  Ends, Ends->>=, fill_send_buf-room, Fine, AllFine, Tame, set_conn-Tame, push_msg-Tame,
  push_error-Tame, close_socket-Tame,
}

module _ (memory : ℕ → List ℕ) (content : ErrorText → List ℕ → List ℕ) (members : List ℕ → List ℕ)
    (c : ℕ) where
  abbrev IsTame : Mgr → Type 0
  IsTame = Tame memory content members c

  abbrev HasTame : Mgr × List ℕ → Type 0
  HasTame p = Tame memory content members c p.0

  write_msg-Tame :
      (id : ℕ) (source : List ℕ) (size : ℕ) (error failed : Option (List ℕ)) (m : Mgr)
      → IsTame m
      → size ≤ 65531
      → Ends HasTame (write_msg memory content c id source size error failed m)
  unfolding write_msg get_conn Ends
  write_msg-Tame id source size error failed m t small =
      let (buf, filled, same) =
        fill_send_buf-room memory content id source size t.conn t.room small in
      rw (write_msg, t.found, filled)
        (Ends->>= IsTame HasTame _ _
          (told error (set_conn c (record t.conn { send_buf = buf }) m) (
            set_conn-Tame memory content members c (record t.conn { send_buf = buf }) m same
              t.fine))
          (λ v u. u))
    where
      told :
          (error : Option (List ℕ)) (v : Mgr)
          → IsTame v
          → Ends IsTame (elim error [
            | none ↦ ok v
            | some detail ↦ do
              v ← push_error memory content c write_some detail v
              close_socket memory content c failed v
          ])
      told none v u = u
      told (some detail) v u =
          Ends->>= IsTame IsTame _ _
            (push_error-Tame memory content members c write_some detail v u)
            (λ w x. close_socket-Tame memory content members c failed w x)

  read-Tame :
      (msg : NetMsg) (m : Mgr)
      → IsTame m
      → (is_reserved msg.id ≡ true)
        ⊎ ((is_reserved msg.id ≡ false)
            × (msg.size ≤ 65531)
            × (x : ℕ) × (xs : List ℕ) × (members msg.buffer ≡ x ∷ xs))
      → Ends HasTame (do
        conn ← get_conn c m
        replies ← on_message members conn.cid msg
        m ← push_replies memory content c replies m
        ok (m, []))
  unfolding get_conn on_message is_reserved push_replies Ends Fine
  read-Tame msg m t (inl reserved) = rw (t.found, on_message, reserved) t
  read-Tame msg m t (inr (free, small, x, xs, some_member)) =
      rw (t.found, on_message, free, some_member)
        (Ends->>= IsTame HasTame _ _
          (Ends->>= IsTame IsTame _ _
            (push_msg-Tame memory content members c enmt_write msg.id (some msg.buffer) msg.size m t
              small)
            (λ v u. u))
          (λ v u. u))

  set_status-Tame : (m : Mgr) → IsTame m → Ends IsTame (set_status c stopped m)
  unfolding set_status get_conn Ends
  set_status-Tame m t =
      rw (set_status, t.found)
        (set_conn-Tame memory content members c (record t.conn { status = stopped }) m t.room
          t.fine)

  work_msg-Tame :
      (msg : NetMsg) (error failed : Option (List ℕ)) (m : Mgr)
      → IsTame m
      → Fine memory content members msg
      → Ends HasTame (work_msg memory content (on_message members) c msg error failed m)
  unfolding work_msg Fine Ends
  work_msg-Tame msg error failed m t fine = elim (kinds msg.kind) [
    | inl other ↦ rw (work_msg, other) t
    | inr (inl reading) ↦
        rw (work_msg, reading)
          (Ends->>= IsTame HasTame _ _ (marked (msg.id == emir_disconnect))
            (λ v u. read-Tame msg v u (rw (Fine, reading) at fine)))
    | inr (inr writing) ↦
        rw (work_msg, writing)
          (write_msg-Tame msg.id msg.buffer msg.size error failed m t (rw (Fine, writing) at fine))
  ]
    where
      marked : (ends : Bool) → Ends IsTame (if ends then set_status c stopped m else ok m)
      marked true = set_status-Tame m t
      marked false = t

  module _ (outcome : ℕ → Option (List ℕ) × Option (List ℕ)) where
    abbrev serve : ℕ → Mgr → Result (Mgr × List ℕ)
    serve = serve_session memory content (on_message members) outcome c

    Returns : Result (Mgr × List ℕ) → Type 0
    Returns r = (p : Mgr × List ℕ) × (r ≡ ok p)

    next_round :
        (fuel : ℕ) (m m1 : Mgr) (msg : NetMsg) (r : Result (Mgr × List ℕ))
        → next_msg c m ≡ ok (m1, some msg)
        → work_msg memory content (on_message members) c msg (outcome fuel).0 (outcome fuel).1 m1
          ≡ r
        → Ends HasTame r
        → Within (load_of c) (fuel - 1) r
        → 1 ≤ fuel
        → ((v : Mgr) → IsTame v → load c v < fuel → Returns (serve fuel v))
        → Returns (serve (suc fuel) m)
    unfolding serve_session Ends Within Returns
    next_round fuel m m1 msg (fault f) next work ends less some_left rest = absurd ends
    next_round fuel m m1 msg (ok (v, sent)) next work ends less some_left rest =
        let (p, later) = rest v ends (omega (arith, less, some_left)) in
        ((p.0, sent ++ p.1), rw (serve_session, next, work, later) refl)

    serve_session-Returns :
        (fuel : ℕ) (m : Mgr) → IsTame m → load c m < fuel → Returns (serve fuel m)
    unfolding serve_session Returns AllFine worths
    serve_session-Returns zero m t enough = absurd (omega arith)
    serve_session-Returns (suc fuel) m t enough =
        go t.conn.msg_queue refl (serve_session-Returns fuel)
      where
        go :
            (msgs : List NetMsg)
            → t.conn.msg_queue ≡ msgs
            → ((v : Mgr) → IsTame v → load c v < fuel → Returns (serve fuel v))
            → Returns (serve (suc fuel) m)
        go [] queue rest = (
          (set_conn c (rested t.conn) m, []),
          rw (serve_session, next_msg-none c m t.conn t.found queue) refl,
        )
        go (msg ∷ msgs) queue rest =
            let shorter : Conn = record t.conn { msg_queue = msgs } in
            let fine : AllFine memory content members (msg ∷ msgs) = rw queue at t.fine in
            let whole : load c m ≡ worth msg + worths msgs =
              load-found c t.conn m t.found ∙ ap worths queue in
            let left : load c (set_conn c shorter m) ≡ worths msgs = load-set_conn c shorter m in
            let positive = worth-positive msg in
            next_round fuel m (set_conn c shorter m) msg _
              (next_msg-some c m t.conn msg msgs t.found queue) refl
              (work_msg-Tame msg (outcome fuel).0 (outcome fuel).1 (set_conn c shorter m)
                (set_conn-Tame memory content members c shorter m t.room fine.1) fine.0)
              (work_msg-Within memory content c members msg (outcome fuel).0 (outcome fuel).1
                (set_conn c shorter m) (fuel - 1) (omega (arith, enough, whole, left, positive)))
              (omega (arith, enough, whole, positive)) rest

    -- A session is served until it is idle: when the connection of the first session that is filed has a send
    -- buffer of 65535 bytes and messages that a worker can handle (each to be written has at most 65531
    -- bytes, and so has each of a client, which has a member), then, with fuel for the rounds that its queue
    -- is worth, the worker that takes it ends without a fault, however the writes to the socket end, if
    -- no other thread pushes messages meanwhile, and leaves it idle: nothing works on it, its queue is empty
    -- and the connection is not marked as stopped. The application is `on_message`.
    pub work_round-Idle :
        (conn : Conn) (cs : List ℕ) (fuel : ℕ) (m : Mgr)
        → find c m.conns ≡ some conn
        → length conn.send_buf ≡ buffer_size
        → AllFine memory content members conn.msg_queue
        → m.session_queue ≡ c ∷ cs
        → load c m < fuel
        → (v : Mgr) × (sent : List ℕ) × (after : Conn) × (work_round memory content
              (on_message members)
              outcome
              fuel
              m
            ≡ ok (v, sent))
          × (find c v.conns ≡ some after)
          × (after.processing ≡ false)
          × (after.msg_queue ≡ [])
          × (after.status ≢ stopped)
    unfolding load Served Returns
    work_round-Idle conn cs fuel m found room fine filed enough =
        let t : IsTame (record m { session_queue = cs }) = record {
          conn = conn;
          found = found;
          room = room;
          fine = fine;
        } in
        let (p, done) = serve_session-Returns fuel (record m { session_queue = cs }) t enough in
        let whole = work_round-taken memory content members outcome c cs fuel m filed ∙ done in
        let (after, there, off, empty, runs) =
          subst (Served c) whole
            (work_round-Served memory content members outcome c cs fuel m filed enough) in
        (p.0, p.1, after, whole, there, off, empty, runs)
