-- ===== src/Server/Effects.antt =====
-- server/wan_server.cpp: what a login and a disconnection do to the sessions and the players.
use f1985gfw.Base.{
  ℕ, ◌%◌, ◌<◌, ◌≤◌, ◌≡◌, ◌≢◌, refl, sym, ap, ◌∙◌, Bool, true, false, none, some, List, [], ◌∷◌,
  ◌++◌, length, take, ltb, ◌==◌, if◌then◌else◌, arith, Result, ok, fault, u16_mod, frame, inl, inr,
  >>=-split, Bool-cases, Option-cases, null_pointer, out_of_bounds, ◌&&◌,
}
use f1985gfw.Base.Dict.{find, assign, erase, find-erase, find-assign, find-assign_self}
use f1985gfw.Worker.Closing.{ok-injective}
use f1985gfw.Packet.Pack.{IsAmple}
use f1985gfw.Worker.State.{Pointer, connected, Net, Env, World}
use f1985gfw.Server.Players.{
  online_state, offline_state, enter, leave, state_of, state_of-enter, state_of-leave,
}
use f1985gfw.Server.Reply.{send_guard-frame}
use f1985gfw.Server.Sessions.{
  Enter, int_max, set_uid, emc_s2c_enter, eec_success, Proto, App, Session, send_guard,
  handle_enter, handle_hello, del_session,
}

-- The reply as it goes out: its size is a uint16_t.
abbrev pub cut : List ℕ → List ℕ
cut reply = take (length reply % u16_mod) reply

module _ (env : Env) (proto : Proto) (id : ℕ) (body : List ℕ) (w : World App) where
  module _ (msg : Enter) (parsed : proto.parse_enter body ≡ some msg) where
    -- A login message on a slot that has no session follows a null pointer.
    pub enter-stray :
        find id w.app.sessions ≡ none → handle_enter env proto id body w ≡ fault null_pointer
    unfolding handle_enter
    enter-stray missing = rw (handle_enter, parsed, missing) refl

    -- A login message on a connected slot with a session, with memory at hand, a reply of at
    -- most INT_MAX bytes and a socket that takes it: the session takes the uid, the player enters, and the
    -- reply goes out through the slot in one frame.
    pub enter-done :
        (s : Session) (p : Pointer)
        → find id w.app.sessions ≡ some s
        → find id w.net.pointers ≡ some p
        → p.status ≡ connected
        → IsAmple env.allocator
        → length (proto.enter_bytes eec_success) ≤ int_max
        → env.writable id (frame emc_s2c_enter (cut (proto.enter_bytes eec_success))) ≡ true
        → handle_enter env proto id body w
          ≡ ok (
            record {
              net = record w.net {
                sent =
                    w.net.sent
                    ++ (id, frame emc_s2c_enter (cut (proto.enter_bytes eec_success))) ∷ [];
              };
              app = record {
                sessions = assign id (set_uid msg.uid s) w.app.sessions;
                players = enter msg.uid w.app.players;
              };
            },
            true,
          )
    unfolding handle_enter
    enter-done s p has found online ample small writable =
        rw
          (
            handle_enter,
            parsed,
            has,
            (send_guard-frame env id emc_s2c_enter (proto.enter_bytes eec_success) w.net p found
                  online ample (omega arith)).0
                small writable,
          )
          refl

  -- A message that does not parse changes nothing and asks the worker to close the slot.
  pub enter-unparsed :
      proto.parse_enter body ≡ none → handle_enter env proto id body w ≡ ok (w, false)
  unfolding handle_enter
  enter-unparsed bad = rw (handle_enter, bad) refl

  -- A hello message without a member aborts the server.
  pub hello-empty :
      (n : ℕ)
      → proto.parse_hello body ≡ some (record { id = n; member = [] })
      → handle_hello env proto id body w ≡ fault out_of_bounds
  unfolding handle_hello
  hello-empty n parsed = rw (handle_hello, parsed) refl

module _ (id : ℕ) (w v : World App) (s : Session) (has : find id w.app.sessions ≡ some s)
    (e : del_session id w ≡ ok v) where
  del-app : v.app ≡ record {
    sessions = erase id w.app.sessions;
    players = (if ltb 0 s.uid then leave s.uid w.app.players else w.app.players);
  }
  unfolding del_session
  del-app = sym (ap (λ (u : World App). u.app) (ok-injective (rw (del_session, has) at e)))

  -- A disconnection erases the session, and only it.
  pub left-sessions :
      (j : ℕ) → find j v.app.sessions ≡ (if id == j then none else find j w.app.sessions)
  left-sessions j = rw (del-app, find-erase j id w.app.sessions) refl

  -- After a disconnection of a slot with a session, the player of the session is offline if there is
  -- one and its uid is not 0; the others are as before.
  pub left-players :
      (j : ℕ)
      → state_of j v.app.players ≡ (
          if ltb 0 s.uid && s.uid == j
          then elim (state_of s.uid w.app.players) [ none ↦ none | some x ↦ some offline_state ]
          else state_of j w.app.players)
  left-players j = elim (Bool-cases (ltb 0 s.uid)) [
    | inl known ↦ rw (del-app, known, state_of-leave j s.uid w.app.players) refl
    | inr zero_uid ↦ rw (del-app, zero_uid) refl
  ]

abbrev pub answer : Net → App → Bool → Result (World App × Bool)
answer net app good = ok (record { net = net; app = app }, good)

module _ (env : Env) (proto : Proto) (id : ℕ) where
  -- What a login that ends without a fault does to the application's state.
  pub enter-app :
      (body : List ℕ) (w v : World App) (good : Bool) (msg : Enter)
      → proto.parse_enter body ≡ some msg
      → handle_enter env proto id body w ≡ ok (v, good)
      → (s : Session) × (find id w.app.sessions ≡ some s)
        × (v.app ≡ record {
          sessions = assign id (set_uid msg.uid s) w.app.sessions;
          players = enter msg.uid w.app.players;
        })
  unfolding handle_enter
  enter-app body w v good msg parsed e = elim (Option-cases (find id w.app.sessions)) [
    | inl missing ↦ cc (sym (enter-stray env proto id body w msg parsed missing) ∙ e)
    | inr (s, has) ↦
        let app : App = record {
          sessions = assign id (set_uid msg.uid s) w.app.sessions;
          players = enter msg.uid w.app.players;
        } in
        let (net, sent, e1) =
          >>=-split (send_guard env id emc_s2c_enter (proto.enter_bytes eec_success) w.net)
            (λ net. answer net app true) (rw (handle_enter, parsed, has) at e) in
        (s, has, sym (ap (λ (r : World App × Bool). r.0.app) (ok-injective e1)))
  ]

  -- A login that ends without a fault: there is a session for the slot, which takes the uid and keeps the
  -- rest; the player with the uid is online; the other sessions and the states of the other players are as
  -- before.
  pub enter-online :
      (body : List ℕ) (w v : World App) (good : Bool) (msg : Enter)
      → proto.parse_enter body ≡ some msg
      → handle_enter env proto id body w ≡ ok (v, good)
      → (s : Session) × (find id w.app.sessions ≡ some s)
        × (find id v.app.sessions ≡ some (record s { uid = msg.uid }))
        × (state_of msg.uid v.app.players ≡ some online_state)
        × ((j : ℕ) → (id == j) ≡ false → find j v.app.sessions ≡ find j w.app.sessions)
        × ((j : ℕ) → (msg.uid == j) ≡ false → state_of j v.app.players ≡ state_of j w.app.players)
  unfolding set_uid
  enter-online body w v good msg parsed e =
      let (s, has, app) = enter-app body w v good msg parsed e in
      (
        s,
        has,
        rw app (find-assign_self id (set_uid msg.uid s) w.app.sessions),
        rw (app, state_of-enter msg.uid msg.uid w.app.players) (ground arith),
        λ j away.
            rw (app, find-assign j id (set_uid msg.uid s) w.app.sessions) (ground (arith, away)),
        λ j away. rw (app, state_of-enter j msg.uid w.app.players) (ground (arith, away)),
      )

  -- After a login and a second one on the same connection, the uid of the session is the second one.
  module _ (body other : List ℕ) (u w v x : World App) (good well : Bool) (msg again : Enter)
      (parsed : proto.parse_enter body ≡ some msg) (reparsed : proto.parse_enter other ≡ some again)
      (first : handle_enter env proto id body u ≡ ok (w, good))
      (second : handle_enter env proto id other w ≡ ok (v, well))
      (gone : del_session id v ≡ ok x) where
    -- If a client logs in under one uid, then under another one, and disconnects, all without a
    -- fault, the first player is still online.
    pub relogin-stays : msg.uid ≢ again.uid → state_of msg.uid x.app.players ≡ some online_state
    unfolding set_uid
    relogin-stays apart =
        let (s, has, app1) = enter-app body u w good msg parsed first in
        let (t, had, app2) = enter-app other w v well again reparsed second in
        let there : find id v.app.sessions ≡ some (set_uid again.uid t) =
          rw (app2) (find-assign_self id (set_uid again.uid t) w.app.sessions) in
        let before : state_of msg.uid v.app.players ≡ some online_state =
          rw
            (
              app2,
              state_of-enter msg.uid again.uid w.app.players,
              app1,
              state_of-enter msg.uid msg.uid u.app.players,
            )
            (ground arith) in
        left-players id v x (set_uid again.uid t) there gone msg.uid ∙ rest t before
      where
        rest :
            (t : Session)
            → state_of msg.uid v.app.players ≡ some online_state
            → (if ltb 0 (set_uid again.uid t).uid && (set_uid again.uid t).uid == msg.uid
                then elim (state_of (set_uid again.uid t).uid v.app.players) [
                  | none ↦ none
                  | some x ↦ some offline_state
                ]
                else state_of msg.uid v.app.players)
              ≡ some online_state
        rest t before = ground (arith, apart)

  -- A client that logs in and disconnects, without a fault and with a uid that is not 0, is offline,
  -- and its session is gone.
  pub logout-offline :
      (body : List ℕ) (w v x : World App) (good : Bool) (msg : Enter)
      → proto.parse_enter body ≡ some msg
      → handle_enter env proto id body w ≡ ok (v, good)
      → del_session id v ≡ ok x
      → 0 < msg.uid
      → (state_of msg.uid x.app.players ≡ some offline_state) × (find id x.app.sessions ≡ none)
  unfolding set_uid
  logout-offline body w v x good msg parsed first gone nonzero =
      let (s, has, app1) = enter-app body w v good msg parsed first in
      let there : find id v.app.sessions ≡ some (set_uid msg.uid s) =
        rw (app1) (find-assign_self id (set_uid msg.uid s) w.app.sessions) in
      let before : state_of msg.uid v.app.players ≡ some online_state =
        rw (app1, state_of-enter msg.uid msg.uid w.app.players) (ground arith) in
      (
        left-players id v x (set_uid msg.uid s) there gone msg.uid
            ∙ ground (arith, before, nonzero),
        left-sessions id v x (set_uid msg.uid s) there gone id ∙ ground arith,
      )
