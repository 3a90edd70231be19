-- ===== src/Worker/Life/Reach.antt =====
-- source/net_worker.hpp: the operations of a worker complete, one after another and in any order.
use f1985gfw.Base.{ℕ, ◌≤◌, ◌≡◌, refl, Bool, false, Option, some, List, ◌∷◌, ◌++◌, length, ok}
use f1985gfw.Base.Dict.{find}
use f1985gfw.Worker.State.{
  Pointer, Pending, accepts, connects, reads, reconnects, Net, World, Hooks, Env,
}
use f1985gfw.Worker.Slot.{send}
use f1985gfw.Worker.Events.{handle_reconnect, Accepted, handle_accept, handle_connect, handle_read}
use f1985gfw.Worker.Contract.{IsSendOnly, send-OnlySends}
use f1985gfw.Worker.Life.{Sound, Open, slot_of}
use f1985gfw.Worker.Life.Opening.{
  Sound-sent, complete, only_op, accept-waits, connect-waits, reconnect-waits, read-connected,
}
use f1985gfw.Worker.Life.Starting.{start_connect-Sound}
use f1985gfw.Worker.Life.Handlers.{handle_read-Sound, handle_connect-Sound, handle_accept-Sound}

module _ {ℓ} {A : Type ℓ} (h : Hooks A) (env : Env) where
  -- The world with other pending operations.
  abbrev pub leaving : List Pending → World A → World A
  leaving ops w = record w { net = record w.net { pending = ops } }

  -- A step of the worker: an operation that is pending completes and its handler ends without a fault, or
  -- the application sends. A timer runs to its end: it is set only where none runs, which would cancel it.
  pub data Step : World A → World A → Type ℓ where
    accepted :
        {w v : World A} (us vs : List Pending) (ws : Bool) (id : ℕ) (outcome : Accepted)
        → w.net.pending ≡ us ++ accepts ws id ∷ vs
        → handle_accept h ws id outcome (leaving (us ++ vs) w) ≡ ok v
        → Step w v
    connected_to :
        {w v : World A} (us vs : List Pending) (id : ℕ) (failed : Bool)
        → w.net.pending ≡ us ++ connects id ∷ vs
        → handle_connect h id failed (leaving (us ++ vs) w) ≡ ok v
        → Step w v
    has_read :
        {w v : World A} (us vs : List Pending) (id at size : ℕ) (chunk : Option (List ℕ))
        → w.net.pending ≡ us ++ reads id at size ∷ vs
        → ((bytes : List ℕ) → chunk ≡ some bytes → length bytes ≤ size)
        → handle_read h id at chunk (leaving (us ++ vs) w) ≡ ok v
        → Step w v
    timed :
        {w : World A} {net : Net} (us vs : List Pending) (id delay : ℕ)
        → w.net.pending ≡ us ++ reconnects id delay ∷ vs
        → handle_reconnect env id false (record w.net { pending = us ++ vs }) ≡ ok net
        → Step w (record w { net = net })
    sends :
        {w : World A} {net : Net} (id msg_id size : ℕ) (body : List ℕ) (done : Bool)
        → send env id msg_id body size w.net ≡ ok (net, done)
        → Step w (record w { net = net })

  pub data Steps (w : World A) : World A → Type ℓ where
    still : Steps w w
    then_step : {v u : World A} → Steps w v → Step v u → Steps w u

  module _ (only : IsSendOnly h) where
    pub opened :
        (op : Pending) (us vs : List Pending) (p : Pointer) (w : Net)
        → w.pending ≡ us ++ op ∷ vs
        → find (slot_of op) w.pointers ≡ some p
        → Sound w
        → Open (slot_of op) p (record w { pending = us ++ vs })
    opened op us vs p w pending found s =
        complete (slot_of op) op us vs p w refl pending found (only_op op us vs w pending s).0 s

    pub Step-Sound : (w v : World A) → Step w v → Sound w.net → Sound v.net
    unfolding handle_reconnect
    Step-Sound w v (accepted us vs ws id outcome pending e) s =
        let (p, found, waits, inward) =
          accept-waits (only_op (accepts ws id) us vs w.net pending s).1 in
        handle_accept-Sound h only env ws id outcome p (leaving (us ++ vs) w) v
          (opened (accepts ws id) us vs p w.net pending found s) waits inward e
    Step-Sound w v (connected_to us vs id failed pending e) s =
        let (p, out, found, waits, target) =
          connect-waits (only_op (connects id) us vs w.net pending s).1 in
        handle_connect-Sound h only env id failed p (leaving (us ++ vs) w) v
          (opened (connects id) us vs p w.net pending found s) e
    Step-Sound w v (has_read us vs id at size chunk pending fits e) s =
        let (p, found, online) =
          read-connected (only_op (reads id at size) us vs w.net pending s).1 in
        handle_read-Sound h only env id at chunk p (leaving (us ++ vs) w) v
          (opened (reads id at size) us vs p w.net pending found s) online e
    Step-Sound w _ (timed {net = net} us vs id delay pending e) s =
        let (p, out, found, waits, target) =
          reconnect-waits (only_op (reconnects id delay) us vs w.net pending s).1 in
        start_connect-Sound env id p _ net
          (opened (reconnects id delay) us vs p w.net pending found s) waits e
    Step-Sound w _ (sends {net = net} id msg_id size body done e) s =
        Sound-sent w.net net (send-OnlySends env id msg_id body size w.net net done e) s

    -- A worker with callbacks that send at most, whatever completes and in whatever order: a free slot of
    -- the table has no operation; a connected one has exactly one read; one that waits has exactly one
    -- connect or timer if it is a target's, and else an accept or, as after an accept that failed, nothing.
    pub Steps-Sound : (w v : World A) → Sound w.net → Steps w v → Sound v.net
    Steps-Sound w _ s still = s
    Steps-Sound w _ s (then_step {v} {u} before last) =
        Step-Sound v u last (Steps-Sound w v s before)
