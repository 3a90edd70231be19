-- ===== src/Legacy/Connection/Working.antt =====
-- 0old/server/net_mgr/net_mgr.cpp: `_work_handler`, in which a worker serves a session until its queue is
-- empty.
use f1985gfw.Base.{
  ℕ, zero, suc, ◌+◌, ◌≤◌, ◌<◌, ◌≡◌, refl, false, Option, none, some, List, [], ◌∷◌, ◌++◌, arith,
  inl, inr, Option-cases, Result, ok, fault, out_of_fuel, ◌>>=◌,
}
use f1985gfw.Base.{null_pointer, ap, ◌-◌}
use f1985gfw.Base.Dict.{find-assign_self, find}
use f1985gfw.Legacy.Queue.{NetMsg}
use f1985gfw.Legacy.Connection.{
  Conn, ConnStatus, useless, started, stopped, Mgr, ErrorText, get_conn, set_conn, take_session,
  next_msg, MessageCb, on_message, work_msg,
}
use f1985gfw.Legacy.Connection.Load.{
  worth, worths, load, Within, load_of, load-set_conn, load-found, worth-positive,
}
use f1985gfw.Legacy.Connection.Duties.{work_msg-Within}

-- The inner loop of `_work_handler`, and the bytes that it gives to write_some. `outcome` is how the socket's write and
-- its close end in a round, by the rounds that are left.
module _ (memory : ℕ → List ℕ) (content : ErrorText → List ℕ → List ℕ) (callback : MessageCb)
    (outcome : ℕ → Option (List ℕ) × Option (List ℕ)) (c : ℕ) where
  unfoldable pub serve_session : ℕ → Mgr → Result (Mgr × List ℕ)
  serve_session zero m = fault out_of_fuel
  serve_session (suc fuel) m = do
    (m, taken) ← next_msg c m
    elim taken [
      | none ↦ ok (m, [])
      | some msg ↦ do
        (m, sent) ← work_msg memory content callback c msg (outcome fuel).0 (outcome fuel).1 m
        (m, later) ← serve_session fuel m
        ok (m, sent ++ later)
    ]

-- A round of the outer loop: the first session that is filed is served, if there is one.
module _ (memory : ℕ → List ℕ) (content : ErrorText → List ℕ → List ℕ) (callback : MessageCb)
    (outcome : ℕ → Option (List ℕ) × Option (List ℕ)) where
  unfoldable pub work_round : ℕ → Mgr → Result (Mgr × List ℕ)
  work_round fuel m =
      let (m, filed) = take_session m in
      elim filed [
        | none ↦ ok (m, [])
        | some c ↦ serve_session memory content callback outcome c fuel m
      ]

take_session-first :
    (c : ℕ) (cs : List ℕ) (m : Mgr)
    → m.session_queue ≡ c ∷ cs
    → take_session m ≡ (record m { session_queue = cs }, some c)
unfolding take_session
take_session-first c cs m filed = rw (take_session, filed) refl

-- The connection of a session whose queue was found empty.
abbrev pub rested : Conn → Conn
rested conn = record conn {
  processing = false;
  status = elim conn.status [ useless ↦ useless | started ↦ started | stopped ↦ useless ];
}

pub next_msg-none :
    (c : ℕ) (m : Mgr) (conn : Conn)
    → find c m.conns ≡ some conn
    → conn.msg_queue ≡ []
    → next_msg c m ≡ ok (set_conn c (rested conn) m, none)
unfolding next_msg get_conn
next_msg-none c m conn found queue = simp (next_msg, found, queue) refl

pub next_msg-some :
    (c : ℕ) (m : Mgr) (conn : Conn) (msg : NetMsg) (msgs : List NetMsg)
    → find c m.conns ≡ some conn
    → conn.msg_queue ≡ msg ∷ msgs
    → next_msg c m ≡ ok (set_conn c (record conn { msg_queue = msgs }) m, some msg)
unfolding next_msg get_conn
next_msg-some c m conn msg msgs found queue = rw (next_msg, found, queue) refl

-- The ways in which a worker's dequeue ends.
data Turn (c : ℕ) (m : Mgr) : Type 0 where
  gone : next_msg c m ≡ fault null_pointer → Turn c m
  idle :
      (conn : Conn)
      → conn.msg_queue ≡ []
      → next_msg c m ≡ ok (set_conn c (rested conn) m, none)
      → Turn c m
  taken :
      (v : Mgr) (msg : NetMsg)
      → next_msg c m ≡ ok (v, some msg)
      → load c v + worth msg ≡ load c m
      → Turn c m

next_msg-Turn : (c : ℕ) (m : Mgr) → Turn c m
unfolding next_msg get_conn worths
next_msg-Turn c m = elim (Option-cases (find c m.conns)) [
  | inl missing ↦ gone (rw (next_msg, missing) refl)
  | inr (conn, found) ↦ go conn found (conn.msg_queue) refl
]
  where
    go :
        (conn : Conn)
        → find c m.conns ≡ some conn
        → (msgs : List NetMsg) → conn.msg_queue ≡ msgs
        → Turn c m
    go conn found [] queue = idle conn queue (next_msg-none c m conn found queue)
    go conn found (msg ∷ msgs) queue =
        taken (set_conn c (record conn { msg_queue = msgs }) m) msg
          (next_msg-some c m conn msg msgs found queue)
          (omega (
            arith,
            load-set_conn c (record conn { msg_queue = msgs }) m,
            load-found c conn m found,
            ap worths queue,
          ))

rested-started :
    (status : ConnStatus)
    → elim status [ useless ↦ useless | started ↦ started | stopped ↦ useless ] ≡ stopped
    → ⊥
rested-started useless e = cc
rested-started started e = cc
rested-started stopped e = cc

-- The session of a connection is left idle: nothing works on it, its queue is empty and it is not stopped.
-- Otherwise the code is undefined, for another reason than that its loop has not ended.
unfoldable pub Served : ℕ → Result (Mgr × List ℕ) → Type 0
Served c (fault f) = f ≡ out_of_fuel → ⊥
Served c (ok (v, sent)) =
    (conn : Conn) × (find c v.conns ≡ some conn)
    × (conn.processing ≡ false)
    × (conn.msg_queue ≡ [])
    × (conn.status ≡ stopped → ⊥)

module _ (memory : ℕ → List ℕ) (content : ErrorText → List ℕ → List ℕ) (members : List ℕ → List ℕ)
    (outcome : ℕ → Option (List ℕ) × Option (List ℕ)) (c : ℕ) where
  Served-then :
      (sent : List ℕ) (r : Result (Mgr × List ℕ))
      → Served c r
      → Served c (do (v, later) ← r; ok (v, sent ++ later))
  unfolding Served
  Served-then sent (fault f) h = h
  Served-then sent (ok (v, later)) h = h

  Served->>= :
      (n : ℕ) (r : Result (Mgr × List ℕ)) (rest : Mgr → Result (Mgr × List ℕ))
      → Within (load_of c) n r
      → ((v : Mgr) → load c v ≤ n → Served c (rest v))
      → Served c (do (v, sent) ← r; (w, later) ← rest v; ok (w, sent ++ later))
  unfolding Served Within
  Served->>= n (fault f) rest h next = h
  Served->>= n (ok (v, sent)) rest h next = Served-then sent (rest v) (next v h)

  serve_session-Served :
      (fuel : ℕ) (m : Mgr)
      → load c m < fuel
      → Served c (serve_session memory content (on_message members) outcome c fuel m)
  unfolding serve_session Served worths set_conn
  serve_session-Served zero m enough = absurd (omega arith)
  serve_session-Served (suc fuel) m enough = elim (next_msg-Turn c m) [
    | gone e ↦ rw (serve_session, e) (λ e. cc)
    | idle conn queue e ↦
        rw (serve_session, e)
          (
            rested conn,
            find-assign_self c (rested conn) m.conns,
            refl,
            queue,
            rested-started conn.status,
          )
    | taken v msg e less ↦
        rw (serve_session, e)
          (Served->>= (fuel - 1) _
            (serve_session memory content (on_message members) outcome c fuel)
            (work_msg-Within memory content c members msg (outcome fuel).0 (outcome fuel).1 v
              (fuel - 1) (omega (arith, less, worth-positive msg)))
            (λ w left. serve_session-Served fuel w (omega (arith, less, worth-positive msg))))
  ]

  pub work_round-taken :
      (cs : List ℕ) (fuel : ℕ) (m : Mgr)
      → m.session_queue ≡ c ∷ cs
      → work_round memory content (on_message members) outcome fuel m
        ≡ serve_session memory content
            (on_message members)
            outcome
            c
            fuel
            (record m { session_queue = cs })
  unfolding work_round
  work_round-taken cs fuel m filed =
      ap
        (λ (r : Mgr × Option ℕ). elim r.1 [
          | none ↦ ok (r.0, [])
          | some c ↦ serve_session memory content (on_message members) outcome c fuel r.0
        ])
        (take_session-first c cs m filed)

  -- A worker that takes a session, with fuel for the rounds that its queue is worth: its loop does not run
  -- out of fuel, however the writes to the socket end, when the application is `on_message`. It leaves the
  -- session idle unless a round of it is undefined or aborts.
  pub work_round-Served :
      (cs : List ℕ) (fuel : ℕ) (m : Mgr)
      → m.session_queue ≡ c ∷ cs
      → load c m < fuel
      → Served c (work_round memory content (on_message members) outcome fuel m)
  unfolding load
  work_round-Served cs fuel m filed enough =
      rw (work_round-taken cs fuel m filed)
        (serve_session-Served fuel (record m { session_queue = cs }) enough)
