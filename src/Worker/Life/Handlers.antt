-- ===== src/Worker/Life/Handlers.antt =====
-- source/net_worker.hpp: what each handler of a completed operation leaves for the slots.
use Prim.Native.String.{String}
use f1985gfw.Base.{
  ℕ, ◌+◌, ◌≡◌, ap, ◌∙◌, subst, ◌⊎◌, inl, inr, Bool, true, false, Option, none, some, List, [], ◌∷◌,
  length, ok, fault, null_pointer, bad_function, or_fault, >>=-split, fault≢ok, Option-cases,
  write_at,
}
use f1985gfw.Base.Dict.{find}
use f1985gfw.Worker.State.{waiting, connected, Pointer, Net, World, Hooks, Env, ConnectHandler}
use f1985gfw.Worker.Slot.{get_pointer, set_pointer, read_start, start}
use f1985gfw.Worker.Parse.{parse_data}
use f1985gfw.Worker.Events.{
  start_accept, Accepted, refused, arrived, accept_peer, handle_accept, handle_connect, handle_read,
}
use f1985gfw.Worker.Closing.{ok-injective}
use f1985gfw.Worker.Contract.{IsSendOnly}
use f1985gfw.Worker.Life.{spent, Sound, Open}
use f1985gfw.Worker.Life.Opening.{Open-set_pointer, Sound-sent, shut}
use f1985gfw.Worker.Life.Parsing.{close-Closed, Ran, goes_on, stops, parse_data-Ran, got-same}
use f1985gfw.Worker.Life.Starting.{
  start_accept-Sound, read_start-Sound, read_start-Closed, start-Sound,
}

module _ {ℓ} {A : Type ℓ} (h : Hooks A) (only : IsSendOnly h) (env : Env) where
  pub handle_read-Sound :
      (id at : ℕ) (chunk : Option (List ℕ)) (p : Pointer) (w v : World A)
      → Open id p w.net
      → p.status ≡ connected
      → handle_read h id at chunk w ≡ ok v
      → Sound v.net
  unfolding handle_read
  handle_read-Sound id at none p w v o online e = (close-Closed h only id p w v o e).sound
  handle_read-Sound id at (some []) p w v o online e = (close-Closed h only id p w v o e).sound
  handle_read-Sound id at (some (b ∷ bs)) p w v o online e =
      let (p', got, e1) = >>=-split (get_pointer id w.net) _ e in
      let same = got-same id p p' w.net o.found got in
      let (buf, _, e2) = >>=-split (write_at p'.recv_buf at (b ∷ bs)) _ e1 in
      let q : Pointer = record p' { recv_buf = buf; recv_size = p'.recv_size + length (b ∷ bs) } in
      let (u, parsed, e3) =
        >>=-split (parse_data h id (record w { net = set_pointer id q w.net })) _ e2 in
      let (net, reading, e4) = >>=-split (read_start id u.net) _ e3 in
      let opened = Open-set_pointer id p q w.net (ap (λ (r : Pointer). r.id) same) o in
      let ran =
        parse_data-Ran h only id q _ u opened (ap (λ (r : Pointer). r.status) same ∙ online)
          parsed in
      subst Sound (ap (λ (x : World A). x.net) (ok-injective e4)) (after ran net reading)
    where
      after : {u : Net} → Ran h only id u → (net : Net) → read_start id u ≡ ok net → Sound net
      after {u} (goes_on q online o) net e = read_start-Sound id q u net o online e
      after {u} (stops c) net e = read_start-Closed id u net c e

  pub handle_connect-Sound :
      (id : ℕ) (failed : Bool) (p : Pointer) (w v : World A)
      → Open id p w.net
      → handle_connect h id failed w ≡ ok v
      → Sound v.net
  unfolding handle_connect
  handle_connect-Sound id true p w v o e = (close-Closed h only id p w v o e).sound
  handle_connect-Sound id false p w v o e =
      let (out, _, e1) = >>=-split (or_fault (find id w.net.outwards) null_pointer) _ e in
      let (net, started, e2) = >>=-split (start id false false w.net) _ e1 in
      subst Sound (ap (λ (x : World A). x.net) (ok-injective e2))
        (start-Sound id false false p w.net net o started)

  pub accept_peer-Sound :
      (ws : Bool) (id : ℕ) (ip : String) (port : ℕ) (handshake : Bool) (p : Pointer) (w v : World A)
      → Open id p w.net
      → accept_peer h ws id ip port handshake w ≡ ok v
      → Sound v.net
  unfolding accept_peer
  accept_peer-Sound ws id ip port handshake p w v o e =
      let (q, got, e1) = >>=-split (get_pointer id w.net) _ e in
      let same = got-same id p q w.net o.found got in
      let (net, started, e2) =
        >>=-split (start id ws handshake (set_pointer id (record q { socket_open = true }) w.net)) _
          e1 in
      let sound =
        start-Sound id ws handshake (record q { socket_open = true }) _ net
          (Open-set_pointer id p (record q { socket_open = true }) w.net
            (ap (λ (r : Pointer). r.id) same) o)
          started in
      told net sound (Option-cases h.connect_handler) e2
    where
      told :
          (net : Net)
          → Sound net
          → (h.connect_handler ≡ none)
            ⊎ ((handler : ConnectHandler A) × (h.connect_handler ≡ some handler))
          → elim h.connect_handler [
            | none ↦ fault bad_function
            | some handler ↦ handler id ip port (record w { net = net })
          ]
            ≡ ok v
          → Sound v.net
      told net sound (inl unset) e = absurd (fault≢ok (rw unset at e))
      told net sound (inr (handler, set)) e =
          Sound-sent net v.net
            (only.connects id ip port (record w { net = net }) v handler set (rw set at e)) sound

  pub handle_accept-Sound :
      (ws : Bool) (id : ℕ) (outcome : Accepted) (p : Pointer) (w v : World A)
      → Open id p w.net
      → p.status ≡ waiting
      → find id w.net.outwards ≡ none
      → handle_accept h ws id outcome w ≡ ok v
      → Sound v.net
  unfolding handle_accept
  handle_accept-Sound ws id refused p w v o waits inward e =
      let (net, next, e1) = >>=-split (start_accept ws w.net) _ e in
      subst Sound (ap (λ (x : World A). x.net) (ok-injective e1))
        (start_accept-Sound ws w.net net (shut id p w.net o (rw inward (spent p waits))) next)
  handle_accept-Sound ws id (arrived none handshake) p w v o waits inward e = absurd (fault≢ok e)
  handle_accept-Sound ws id (arrived (some (ip, port)) handshake) p w v o waits inward e =
      let (u, met, e1) = >>=-split (accept_peer h ws id ip port handshake w) _ e in
      let (net, next, e2) = >>=-split (start_accept ws u.net) _ e1 in
      subst Sound (ap (λ (x : World A). x.net) (ok-injective e2)) (
        start_accept-Sound ws u.net net (accept_peer-Sound ws id ip port handshake p w u o met)
          next)
