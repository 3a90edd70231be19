-- ===== src/Legacy/Connection/Interleaving.antt =====
-- 0old/server/net_mgr/net_mgr.cpp: socket threads and workers, with any interleaving of the steps under the
-- queues' mutexes.
use f1985gfw.Base.{
  fault≢ok, ℕ, ◌<◌, ◌≡◌, refl, sym, ap, subst, false, Option, none, some, List, [], ◌∷◌, ◌++◌,
  arith, inl, inr, Option-cases, some-eq, none≢some, ◌⊎◌, ok,
}
use f1985gfw.Base.Dict.{find}
use f1985gfw.Worker.Closing.{ok-injective}
use f1985gfw.Legacy.Queue.{MsgType, NetMsg}
use f1985gfw.Legacy.Connection.{
  Conn, ConnStatus, useless, started, stopped, Mgr, ErrorText, get_conn, set_conn, set_status,
  push_msg, take_session, next_msg,
}
use f1985gfw.Legacy.Connection.Wake.{
  occurs, occurs-append, assigned, set_conn-Awake, push_msg-Awake, set_status-Awake, Awake,
}

module _ (memory : ℕ → List ℕ) (content : ErrorText → List ℕ → List ℕ) where
  -- A step of the manager, beside the list of the sessions that workers are busy with: a socket thread or
  -- a callback pushes a message, or sets a status; a worker takes a session, takes the next message of
  -- one that it has, or finds that there is none and lets go of the session.
  pub data Step : Mgr → List ℕ → Mgr → List ℕ → Type 0 where
    pushes :
        {m v : Mgr} {ws : List ℕ} (c : ℕ) (kind : MsgType) (id : ℕ) (source : Option (List ℕ))
        (size : ℕ)
        → push_msg memory content c kind id source size m ≡ ok v
        → Step m ws v ws
    marks :
        {m v : Mgr} {ws : List ℕ} (c : ℕ) (status : ConnStatus)
        → set_status c status m ≡ ok v
        → Step m ws v ws
    takes : {m v : Mgr} {ws : List ℕ} (c : ℕ) → take_session m ≡ (v, some c) → Step m ws v (c ∷ ws)
    goes_on :
        {m v : Mgr} {ws : List ℕ} (c : ℕ) (msg : NetMsg)
        → 0 < occurs c ws
        → next_msg c m ≡ ok (v, some msg)
        → Step m ws v ws
    lets_go :
        {m v : Mgr} (us vs : List ℕ) (c : ℕ)
        → next_msg c m ≡ ok (v, none)
        → Step m (us ++ c ∷ vs) v (us ++ vs)

  pub data Steps (m : Mgr) (ws : List ℕ) : Mgr → List ℕ → Type 0 where
    still : Steps m ws m ws
    then_step : {v u : Mgr} {vs us : List ℕ} → Steps m ws v vs → Step v vs u us → Steps m ws u us

queue-cases {ℓ} : {A : Type ℓ} (xs : List A) → (xs ≡ []) ⊎ ((y : A) × (ys : List A) × (xs ≡ y ∷ ys))
queue-cases [] = inl refl
queue-cases (y ∷ ys) = inr (y, ys, refl)

take_session-Awake :
    (c : ℕ) (m v : Mgr) (ws : List ℕ) → take_session m ≡ (v, some c) → Awake m ws → Awake v (c ∷ ws)
unfolding take_session occurs
take_session-Awake c m v ws e inv = elim (queue-cases m.session_queue) [
  | inl empty ↦
      absurd (none≢some (ap (λ (r : Mgr × Option ℕ). r.1) (rw (take_session, empty) at e)))
  | inr (d, ds, filed) ↦
      let taken : (record m { session_queue = ds }, some d) ≡ (v, some c) =
        rw (take_session, filed) at e in
      subst (λ (u : Mgr). Awake u (c ∷ ws)) (ap (λ (r : Mgr × Option ℕ). r.0) taken)
        (record {
          once = λ j conn there. ground (
            arith,
            inv.once j conn there,
            filed,
            some-eq (ap (λ (r : Mgr × Option ℕ). r.1) taken),
          );
          idle = inv.idle;
        })
]

next_msg-Awake :
    (c : ℕ) (msg : NetMsg) (m v : Mgr) (ws : List ℕ)
    → 0 < occurs c ws
    → next_msg c m ≡ ok (v, some msg)
    → Awake m ws
    → Awake v ws
unfolding next_msg get_conn
next_msg-Awake c msg m v ws busy e inv = elim (Option-cases (find c m.conns)) [
  | inl missing ↦ absurd (fault≢ok (rw (next_msg, missing) at e))
  | inr (conn, found) ↦ elim (queue-cases conn.msg_queue) [
    | inl empty ↦ absurd (
        none≢some
          (ap (λ (r : Mgr × Option NetMsg). r.1) (ok-injective (rw (next_msg, found, empty) at e))))
    | inr (first, rest, queued) ↦
        subst (λ (r : Mgr × Option NetMsg). Awake r.0 ws)
          (ok-injective (rw (next_msg, found, queued) at e))
          (set_conn-Awake m ws c conn (record conn { msg_queue = rest }) found refl
            (λ free. absurd (in_use conn found free)) inv)
  ]
]
  where
    in_use : (conn : Conn) → find c m.conns ≡ some conn → conn.processing ≡ false → ⊥
    in_use conn found free = ground (arith, inv.once c conn found, free, busy)

released-Awake :
    (us vs : List ℕ) (c : ℕ) (m v : Mgr)
    → next_msg c m ≡ ok (v, none)
    → Awake m (us ++ c ∷ vs)
    → Awake v (us ++ vs)
unfolding next_msg get_conn set_conn occurs
released-Awake us vs c m v e inv = elim (Option-cases (find c m.conns)) [
  | inl missing ↦ absurd (fault≢ok (rw (next_msg, missing) at e))
  | inr (conn, found) ↦ elim (queue-cases conn.msg_queue) [
    | inr (first, rest, queued) ↦ absurd (
        none≢some (
          sym (
            ap (λ (r : Mgr × Option NetMsg). r.1)
              (ok-injective (rw (next_msg, found, queued) at e)))))
    | inl empty ↦
        subst (λ (r : Mgr × Option NetMsg). Awake r.0 (us ++ vs))
          (ok-injective (rw (next_msg, found, empty) at e))
          (record {
            once = λ j other there. elim (assigned c j (freed conn) other m.conns there) [
              | inl (at, is) ↦ ground (
                arith,
                inv.once c conn found,
                at,
                is,
                occurs-append c us (c ∷ vs),
                occurs-append c us vs,
              )
              | inr (away, there') ↦ ground (
                arith,
                inv.once j other there',
                away,
                occurs-append j us (c ∷ vs),
                occurs-append j us vs,
              )
            ];
            idle = λ j other there f. elim (assigned c j (freed conn) other m.conns there) [
              | inl (at, is) ↦ ground (arith, is, empty)
              | inr (_, there') ↦ inv.idle j other there' f
            ];
          })
  ]
]
  where
    freed : Conn → Conn
    freed conn = record conn {
      processing = false;
      status = elim conn.status [ useless ↦ useless | started ↦ started | stopped ↦ useless ];
    }

module _ (memory : ℕ → List ℕ) (content : ErrorText → List ℕ → List ℕ) where
  Step-Awake :
      {m v : Mgr} {ws vs : List ℕ} → Step memory content m ws v vs → Awake m ws → Awake v vs
  Step-Awake (pushes c kind id source size e) inv =
      push_msg-Awake memory content c kind id source size _ _ _ e inv
  Step-Awake (marks c status e) inv = set_status-Awake c status _ _ _ e inv
  Step-Awake (takes c e) inv = take_session-Awake c _ _ _ e inv
  Step-Awake (goes_on c msg busy e) inv = next_msg-Awake c msg _ _ _ busy e inv
  Step-Awake (lets_go us vs c e) inv = released-Awake us vs c _ _ e inv

  -- However the steps of socket threads and workers are interleaved from a state where it holds: a
  -- session is filed or worked on exactly once while it is marked as processing and never otherwise,
  -- so that no two workers ever have the same connection, and a session that is not so marked has no
  -- message waiting, so that none is forgotten.
  pub Steps-Awake :
      {m : Mgr} {ws : List ℕ}
      → Awake m ws
      → {v : Mgr} {vs : List ℕ} → Steps memory content m ws v vs
      → Awake v vs
  Steps-Awake inv still = inv
  Steps-Awake inv (then_step before step) = Step-Awake step (Steps-Awake inv before)
