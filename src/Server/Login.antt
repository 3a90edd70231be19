-- ===== src/Server/Login.antt =====
-- The server's callbacks (server/wan_server.cpp) keep to what they owe the worker.
use Prim.Native.String.{String}
use f1985gfw.Base.{
  ℕ, ◌%◌, ◌≡◌, refl, sym, ap, Bool, true, false, Option, none, some, List, [], ◌∷◌, length, arith,
  Result, ok, fault, ◌>>=◌, write_at, u16_mod, inl, inr, ◌⊎◌, >>=-split, or_fault, Option-cases,
  some-eq, ltb, if◌then◌else◌, Bool-cases, null_pointer, out_of_bounds, subst,
}
use f1985gfw.Base.Dict.{find, emplace, assign}
use f1985gfw.Packet.{Packet, create, write_data}
use f1985gfw.Worker.State.{MsgHandler, Net, Env, World}
use f1985gfw.Worker.Slot.{send}
use f1985gfw.Worker.Close.{parse_msg, on_msg, on_connect, on_disconnect}
use f1985gfw.Worker.Contract.{OnlySends, IsSendOnly, send-OnlySends}
use f1985gfw.Worker.Closing.{ok-injective}
use f1985gfw.Server.Players.{enter}
use f1985gfw.Server.Sessions.{
  Enter, int_max, set_uid, Proto, App, Session, send_guard, handle_enter, handle_hello,
  emc_s2c_enter, emc_s2c_hello, eec_success, add_session, del_session, init,
}

send_guard-OnlySends :
    (env : Env) (id msg_id : ℕ) (reply : List ℕ) (w v : Net)
    → send_guard env id msg_id reply w ≡ ok v
    → OnlySends w v
unfolding send_guard
send_guard-OnlySends env id msg_id reply w v e =
    let (r, _, e1) =
      >>=-split (write_data env.allocator (create env.allocator) none (length reply)) written e in
    elim (Bool-cases (ltb int_max (length reply))) [
      | inl long ↦ subst (OnlySends w) (ok-injective (rw long at e1)) refl
      | inr short ↦ sent r (rw short at e1)
    ]
  where
    sending : Packet → List ℕ → Result Net
    sending p mem = send env id msg_id mem (p.offset % u16_mod) w >>= λ d. ok d.0

    placed : Packet → ℕ → Result Net
    placed p at = write_at p.mem at reply >>= sending p

    written : Packet × Option ℕ → Result Net
    written r =
        if ltb int_max (length reply) then ok w else or_fault r.1 null_pointer >>= placed r.0

    sent :
        (r : Packet × Option ℕ) → (or_fault r.1 null_pointer >>= placed r.0) ≡ ok v → OnlySends w v
    sent r e1 =
        let (at, _, e2) = >>=-split (or_fault r.1 null_pointer) (placed r.0) e1 in
        let (mem, _, e3) = >>=-split (write_at r.0.mem at reply) (sending r.0) e2 in
        let (done, gone, e4) =
          >>=-split (send env id msg_id mem (r.0.offset % u16_mod) w) (λ d. ok d.0) e3 in
        subst (OnlySends w) (ok-injective e4)
          (send-OnlySends env id msg_id mem _ w done.0 done.1 gone)

abbrev pub answer : Net → App → Bool → Result (World App × Bool)
answer net app good = ok (record { net = net; app = app }, good)

module _ (env : Env) (proto : Proto) where
  -- A reply and what the handler does beside it.
  replied :
      (id msg_id : ℕ) (reply : List ℕ) (app : App) (w : Net) (v : World App) (good : Bool)
      → (send_guard env id msg_id reply w >>= λ net. answer net app true) ≡ ok (v, good)
      → OnlySends w v.net
  replied id msg_id reply app w v good e =
      let (net, sent, e1) =
        >>=-split (send_guard env id msg_id reply w) (λ net. answer net app true) e in
      subst (λ (r : World App × Bool). OnlySends w r.0.net) (ok-injective e1)
        (send_guard-OnlySends env id msg_id reply w net sent)

  unparsed :
      (w v : World App) (good : Bool)
      → answer w.net w.app false ≡ ok (v, good)
      → OnlySends w.net v.net
  unparsed w v good e =
      subst (λ (r : World App × Bool). OnlySends w.net r.0.net) (ok-injective e) refl

  handle_enter-OnlySends :
      (id : ℕ) (body : List ℕ) (w v : World App) (good : Bool)
      → handle_enter env proto id body w ≡ ok (v, good)
      → OnlySends w.net v.net
  unfolding handle_enter
  handle_enter-OnlySends id body w v good e = elim (Option-cases (proto.parse_enter body)) [
    | inl bad ↦ unparsed w v good (rw (handle_enter, bad) at e)
    | inr (msg, parsed) ↦
        let (s, _, e1) =
          >>=-split (or_fault (find id w.app.sessions) null_pointer) (entered msg)
            (rw (handle_enter, parsed) at e) in
        replied id emc_s2c_enter _ _ w.net v good e1
  ]
    where
      entered : Enter → Session → Result (World App × Bool)
      entered msg s =
          send_guard env id emc_s2c_enter (proto.enter_bytes eec_success) w.net >>= λ net.
          answer net
            (record w.app {
              sessions = assign id (set_uid msg.uid s) w.app.sessions;
              players = enter msg.uid w.app.players;
            })
            true

  handle_hello-OnlySends :
      (id : ℕ) (body : List ℕ) (w v : World App) (good : Bool)
      → handle_hello env proto id body w ≡ ok (v, good)
      → OnlySends w.net v.net
  unfolding handle_hello
  handle_hello-OnlySends id body w v good e = elim (Option-cases (proto.parse_hello body)) [
    | inl bad ↦ unparsed w v good (rw (handle_hello, bad) at e)
    | inr (msg, parsed) ↦ go msg.member (rw (handle_hello, parsed) at e)
  ]
    where
      go :
          (member : List ℕ)
          → elim member [
            | [] ↦ fault out_of_bounds
            | m ∷ _ ↦
                send_guard env id emc_s2c_hello (proto.hello_bytes 100 (3434 ∷ [])) w.net >>= λ net.
                answer net w.app true
          ]
            ≡ ok (v, good)
          → OnlySends w.net v.net
      go [] x = cc
      go (m ∷ _) x = replied id emc_s2c_hello _ _ w.net v good x

  pub found_handler :
      (n : ℕ) (handler : MsgHandler App)
      → find n (init env proto).msg_handlers ≡ some handler
      → (handler ≡ handle_enter env proto) ⊎ (handler ≡ handle_hello env proto)
  unfolding init on_msg on_connect on_disconnect emplace find
  found_handler n handler e = ground arith

  init-messages :
      (id n : ℕ) (body : List ℕ) (w v : World App) (good : Bool)
      → parse_msg (init env proto) id n body w ≡ ok (v, good)
      → OnlySends w.net v.net
  unfolding parse_msg
  init-messages id n body w v good e = elim (Option-cases (find n (init env proto).msg_handlers)) [
    | inl missing ↦ unparsed w v good (rw (parse_msg, missing) at e)
    | inr (handler, found) ↦ elim (found_handler n handler found) [
      | inl is ↦ handle_enter-OnlySends id body w v good (rw (parse_msg, found, is) at e)
      | inr is ↦ handle_hello-OnlySends id body w v good (rw (parse_msg, found, is) at e)
    ]
  ]

  add_session-net :
      (id : ℕ) (ip : String) (port : ℕ) (w v : World App)
      → add_session id ip port w ≡ ok v
      → w.net ≡ v.net
  unfolding add_session
  add_session-net id ip port w v e = ap (λ (u : World App). u.net) (ok-injective e)

  del_session-net : (id : ℕ) (w v : World App) → del_session id w ≡ ok v → w.net ≡ v.net
  unfolding del_session
  del_session-net id w v e = ground arith

  still : {w v : Net} → w ≡ v → OnlySends w v
  still {w = w} e = subst (OnlySends w) e refl

  -- The callbacks that wan_server::init sets only send through the worker: whatever message, connection
  -- or disconnection they handle without a fault, the worker's slots, targets, limits and pending
  -- operations stay as they were.
  pub init-IsSendOnly : IsSendOnly (init env proto)
  unfolding init on_msg on_connect on_disconnect
  init-IsSendOnly = record {
    messages = init-messages;
    connects = λ id ip port w v handler set e.
        still (add_session-net id ip port w v (rw (sym (some-eq set)) at e));
    disconnects =
        λ id w v handler set e. still (del_session-net id w v (rw (sym (some-eq set)) at e));
  }
