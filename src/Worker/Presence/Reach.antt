-- ===== src/Worker/Presence/Reach.antt =====
-- source/net_worker.hpp: the entries of an application over all orders of the completions of a worker's
-- operations.
use f1985gfw.Base.{ℕ, sym, ap, ◌∙◌, subst, Bool, none, some, List, ◌++◌, >>=-split, none≢some}
use f1985gfw.Base.Dict.{find}
use f1985gfw.Worker.Closing.{ok-injective}
use f1985gfw.Worker.State.{Net, World, Hooks, Env, accepts, connects, reads, reconnects, Pending}
use f1985gfw.Worker.Events.{start_accept, refused, arrived, accept_peer, handle_accept}
use f1985gfw.Worker.Contract.{IsSendOnly, send-OnlySends}
use f1985gfw.Worker.Life.{Sound}
use f1985gfw.Worker.Life.Opening.{
  only_op, accept-waits, connect-waits, reconnect-waits, read-connected,
}
use f1985gfw.Worker.Life.Handlers.{accept_peer-Sound}
use f1985gfw.Worker.Life.Reach.{
  Step, accepted, connected_to, has_read, timed, sends, leaving, Steps, still, then_step,
  Steps-Sound, opened,
}
use f1985gfw.Worker.Presence.{online_slot, IsRegister, Agrees}
use f1985gfw.Worker.Presence.Reading.{Agrees-net}
use f1985gfw.Worker.Presence.Handlers.{start_accept-Agrees, accept_peer-Agrees, handle_read-Agrees}

module _ {ℓ} {A : Type ℓ} (h : Hooks A) (env : Env) (only : IsSendOnly h) (has : A → ℕ → Bool)
    (register : IsRegister h has) where
  Agrees-leaving :
      (ops : List Pending) (w : World A) → Agrees h has w → Agrees h has (leaving h env ops w)
  Agrees-leaving ops w a = record { no_targets = a.no_targets; entries = a.entries }

  Step-Agrees : (w v : World A) → Step h env w v → Sound w.net → Agrees h has w → Agrees h has v
  unfolding handle_accept find
  Step-Agrees w v (accepted us vs ws id refused pending e) s a =
      let (net, next, e1) = >>=-split (start_accept ws (leaving h env (us ++ vs) w).net) _ e in
      subst (Agrees h has) (ok-injective e1) (
        start_accept-Agrees h env only has register ws (leaving h env (us ++ vs) w) net s.table next
          (Agrees-leaving (us ++ vs) w a))
  Step-Agrees w v (accepted us vs ws id (arrived none handshake) pending e) s a = cc
  Step-Agrees w v (accepted us vs ws id (arrived (some (ip, port)) handshake) pending e) s a =
      let (u, met, e1) =
        >>=-split (accept_peer h ws id ip port handshake (leaving h env (us ++ vs) w)) _ e in
      let (net, next, e2) = >>=-split (start_accept ws u.net) _ e1 in
      let (p, found, waits, _) = accept-waits (only_op (accepts ws id) us vs w.net pending s).1 in
      let sound =
        accept_peer-Sound h only env ws id ip port handshake p (leaving h env (us ++ vs) w) u
          (opened h env only (accepts ws id) us vs p w.net pending found s) met in
      let joined =
        accept_peer-Agrees h env only has register ws id ip port handshake
          (leaving h env (us ++ vs) w) u met (Agrees-leaving (us ++ vs) w a) in
      subst (Agrees h has) (ok-injective e2)
        (start_accept-Agrees h env only has register ws u net sound.table next joined)
  Step-Agrees w v (connected_to us vs id failed pending e) s a =
      let (_, out, _, _, target) = connect-waits (only_op (connects id) us vs w.net pending s).1 in
      absurd (none≢some (ap (find id) (sym a.no_targets) ∙ target))
  Step-Agrees w v (has_read us vs id at size chunk pending fits e) s a =
      let (p, found, _) = read-connected (only_op (reads id at size) us vs w.net pending s).1 in
      handle_read-Agrees h env only has register id at chunk p (leaving h env (us ++ vs) w) v found
        e (Agrees-leaving (us ++ vs) w a)
  Step-Agrees w _ (timed us vs id delay pending e) s a =
      let (_, out, _, _, target) =
        reconnect-waits (only_op (reconnects id delay) us vs w.net pending s).1 in
      absurd (none≢some (ap (find id) (sym a.no_targets) ∙ target))
  Step-Agrees w _ (sends {net = net} id msg_id size body done e) s a =
      let sent = send-OnlySends env id msg_id body size w.net net done e in
      Agrees-net h only has register w net (ap (λ (x : Net). x.outwards) sent)
        (λ j. ap (λ (x : Net). online_slot (find j x.pointers)) sent) a

  -- A worker without targets, with callbacks that send at most and keep a register of the connections: if its
  -- slots have the operations that they should have, and the register has an entry for each connected slot and
  -- no other, the register still has after any completions in any order.
  pub Steps-Agrees :
      (w v : World A) → Sound w.net → Agrees h has w → Steps h env w v → Agrees h has v
  Steps-Agrees w _ s a still = a
  Steps-Agrees w _ s a (then_step {v} {u} before last) =
      Step-Agrees v u last (Steps-Sound h env only w v s before) (Steps-Agrees w v s a before)
