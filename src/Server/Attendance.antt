-- ===== src/Server/Attendance.antt =====
-- server/wan_server.cpp with source/net_worker.hpp: the server has a session for each connection.
use Prim.Native.String.{String}
use f1985gfw.Base.{
  ℕ, ◌≡◌, refl, sym, ap, ◌∙◌, inl, inr, Bool, true, false, Option, none, some, List, [], ◌∷◌, ltb,
  if◌then◌else◌, ◌==◌, Result, ok, fault, null_pointer, out_of_bounds, ◌>>=◌, or_fault, >>=-split,
  or_fault-some, Bool-cases, Option-cases, some-eq, ==_iff,
}
use f1985gfw.Base.Dict.{Dict, find, assign, erase, find-assign, find-emplace, find-erase}
use f1985gfw.Worker.Closing.{ok-injective, close-inward}
use f1985gfw.Worker.State.{Pointer, Net, World, Env}
use f1985gfw.Worker.Slot.{set_pointer, set_unconnect}
use f1985gfw.Worker.Close.{parse_msg, on_msg, on_connect, on_disconnect}
use f1985gfw.Worker.Events.{handle_read}
use f1985gfw.Worker.Presence.{IsRegister}
use f1985gfw.Server.Players.{leave}
use f1985gfw.Server.Sessions.{
  App, Session, Proto, set_uid, new_session, send_guard, handle_enter, handle_hello, add_session,
  del_session, init, emc_s2c_hello,
}
use f1985gfw.Server.Login.{found_handler, answer}

abbrev is_there {ℓ} : {V : Type ℓ} → Option V → Bool
is_there none = false
is_there (some v) = true

-- Whether there is a session for a slot.
unfoldable pub has_session : App → ℕ → Bool
has_session app j = is_there (find j app.sessions)

-- An entry that is replaced stays an entry.
there-assign {ℓ} :
    {V : Type ℓ} (id j : ℕ) (v w : V) (m : Dict V)
    → find id m ≡ some v
    → is_there (find j (assign id w m)) ≡ is_there (find j m)
there-assign id j v w m found = rw (find-assign j id w m) (elim (Bool-cases (id == j)) [
  | inr other ↦ rw other refl
  | inl own ↦ rw own (ap is_there (sym found) ∙ ap (λ k. is_there (find k m)) ((==_iff id j).0 own))
])

there-some {ℓ} : {V : Type ℓ} (o : Option V) → is_there o ≡ true → (v : V) × (o ≡ some v)
there-some none e = cc
there-some (some v) e = (v, refl)

-- A handler that replies beside a change to the application.
replied :
    (app : App) (r : Result Net) (v : World App) (good : Bool)
    → (r >>= λ net. answer net app true) ≡ ok (v, good)
    → v.app ≡ app
replied app r v good e =
    let (net, _, done) = >>=-split r (λ net. answer net app true) e in
    ap (λ (p : World App × Bool). p.0.app) (sym (ok-injective done))

unchanged :
    (w v : World App) (good : Bool) → answer w.net w.app false ≡ ok (v, good) → v.app ≡ w.app
unchanged w v good e = ap (λ (p : World App × Bool). p.0.app) (sym (ok-injective e))

module _ (env : Env) (proto : Proto) where
  handle_enter-sessions :
      (id j : ℕ) (body : List ℕ) (w v : World App) (good : Bool)
      → handle_enter env proto id body w ≡ ok (v, good)
      → has_session v.app j ≡ has_session w.app j
  unfolding handle_enter has_session
  handle_enter-sessions id j body w v good e = elim (Option-cases (proto.parse_enter body)) [
    | inl bad ↦
        ap (λ (a : App). is_there (find j a.sessions))
          (unchanged w v good (rw (handle_enter, bad) at e))
    | inr (msg, parsed) ↦
        let (s, got, e1) =
          >>=-split (or_fault (find id w.app.sessions) null_pointer) _
            (rw (handle_enter, parsed) at e) in
        ap (λ (a : App). is_there (find j a.sessions)) (replied _ _ v good e1)
        ∙ there-assign id j s (set_uid msg.uid s) w.app.sessions
            (or_fault-some null_pointer (find id w.app.sessions) got)
  ]

  handle_hello-app :
      (id : ℕ) (body : List ℕ) (w v : World App) (good : Bool)
      → handle_hello env proto id body w ≡ ok (v, good)
      → v.app ≡ w.app
  unfolding handle_hello
  handle_hello-app id body w v good e = elim (Option-cases (proto.parse_hello body)) [
    | inl bad ↦ unchanged w v good (rw (handle_hello, bad) at e)
    | inr (msg, parsed) ↦ go msg.member (rw (handle_hello, parsed) at e)
  ]
    where
      go :
          (member : List ℕ)
          → elim member [
            | [] ↦ fault out_of_bounds
            | m ∷ _ ↦
                send_guard env id emc_s2c_hello (proto.hello_bytes 100 (3434 ∷ [])) w.net >>= λ net.
                answer net w.app true
          ]
            ≡ ok (v, good)
          → v.app ≡ w.app
      go [] x = cc
      go (m ∷ _) x = replied w.app _ v good x

  messages-sessions :
      (id n j : ℕ) (body : List ℕ) (w v : World App) (good : Bool)
      → parse_msg (init env proto) id n body w ≡ ok (v, good)
      → has_session v.app j ≡ has_session w.app j
  unfolding parse_msg
  messages-sessions id n j body w v good e =
      elim (Option-cases (find n (init env proto).msg_handlers)) [
        | inl missing ↦
            ap (λ (a : App). has_session a j) (unchanged w v good (rw (parse_msg, missing) at e))
        | inr (handler, found) ↦ elim (found_handler env proto n handler found) [
          | inl is ↦ handle_enter-sessions id j body w v good (rw (parse_msg, found, is) at e)
          | inr is ↦
              ap (λ (a : App). has_session a j)
                (handle_hello-app id body w v good (rw (parse_msg, found, is) at e))
        ]
      ]

  add_session-sessions :
      (id port : ℕ) (ip : String) (w v : World App)
      → add_session id ip port w ≡ ok v
      → (has_session v.app id ≡ true)
        × ((j : ℕ) → (id == j) ≡ false → has_session v.app j ≡ has_session w.app j)
  unfolding add_session has_session
  add_session-sessions id port ip w v e =
      let same = ap (λ (x : World App). x.app.sessions) (sym (ok-injective e)) in
      (
        ap (λ m. is_there (find id m)) same
            ∙ ap is_there (find-emplace id id (new_session id ip port) w.app.sessions)
            ∙ rw ((==_iff id id).1 refl) (there_now (find id w.app.sessions)),
        λ j other.
            ap (λ m. is_there (find j m)) same
            ∙ ap is_there (find-emplace j id (new_session id ip port) w.app.sessions)
            ∙ rw other refl,
      )
    where
      there_now :
          (o : Option Session)
          → is_there (elim o [ none ↦ some (new_session id ip port) | some s ↦ some s ]) ≡ true
      there_now none = refl
      there_now (some s) = refl

  del_session-sessions :
      (id : ℕ) (w v : World App)
      → del_session id w ≡ ok v
      → (has_session v.app id ≡ false)
        × ((j : ℕ) → (id == j) ≡ false → has_session v.app j ≡ has_session w.app j)
  unfolding del_session has_session
  del_session-sessions id w v e =
      let (s, got, done) = >>=-split (or_fault (find id w.app.sessions) null_pointer) _ e in
      let same = ap (λ (x : World App). x.app.sessions) (sym (ok-injective done)) in
      (
        ap (λ m. is_there (find id m)) same
            ∙ ap is_there (find-erase id id w.app.sessions)
            ∙ rw ((==_iff id id).1 refl) refl,
        λ j other.
            ap (λ m. is_there (find j m)) same
            ∙ ap is_there (find-erase j id w.app.sessions)
            ∙ rw other refl,
      )

  -- The callbacks of the server keep a session for each connection.
  pub init-IsRegister : IsRegister (init env proto) has_session
  unfolding init on_msg on_connect on_disconnect
  init-IsRegister = record {
    messages = messages-sessions;
    connects = λ id port ip w v handler set e.
        add_session-sessions id port ip w v (rw (sym (some-eq set)) at e);
    disconnects = λ id w v handler set e. del_session-sessions id w v (rw (sym (some-eq set)) at e);
  }

  -- While a connected slot has a session, the end of its connection is no fault.
  pub lost :
      (id at : ℕ) (p : Pointer) (w : World App)
      → find id w.net.pointers ≡ some p
      → w.net.outwards ≡ []
      → has_session w.app id ≡ true
      → (v : World App) × (handle_read (init env proto) id at none w ≡ ok v)
        × (has_session v.app id ≡ false)
  unfolding handle_read init on_msg on_connect on_disconnect has_session del_session find
  lost id at p w found inward there =
      let (s, filed) = there-some (find id w.app.sessions) there in
      (
        record w {
          net = set_pointer id (set_unconnect p) w.net;
          app = record {
            sessions = erase id w.app.sessions;
            players = if ltb 0 s.uid then leave s.uid w.app.players else w.app.players;
          };
        },
        close-inward (init env proto) id w p found del_session (rw inward refl) refl
            ∙ rw filed refl,
        ap is_there (find-erase id id w.app.sessions) ∙ rw ((==_iff id id).1 refl) refl,
      )
