-- ===== src/Worker/Life/Again.antt =====
-- source/net_worker.hpp: an acceptor's accepts follow one another.
use f1985gfw.Base.{
  ℕ, ◌≡◌, sym, ap, ◌∙◌, none, some, List, [], ◌∷◌, ◌++◌, ok, >>=-split, Bool, fault≢ok, append-nil,
  refl, ==_iff,
}
use f1985gfw.Base.Dict.{find}
use f1985gfw.Worker.State.{Pointer, Pending, accepts, waiting, Net, World, Hooks, Env}
use f1985gfw.Worker.Slot.{get_pointer, pop_pointer}
use f1985gfw.Worker.Events.{start_accept, Accepted, refused, arrived, accept_peer, handle_accept}
use f1985gfw.Worker.Contract.{IsSendOnly}
use f1985gfw.Worker.Closing.{ok-injective}
use f1985gfw.Worker.Life.{Sound, mine, mine-append}
use f1985gfw.Worker.Life.Opening.{only_op, accept-waits}
use f1985gfw.Worker.Life.Reach.{leaving, Steps, accepted, Step-Sound, Steps-Sound}

start_accept-posts :
    (ws : Bool) (w v : Net)
    → start_accept ws w ≡ ok v
    → (j : ℕ) × (ops : List Pending) × (v.pending ≡ ops ++ accepts ws j ∷ [])
unfolding start_accept
start_accept-posts ws w v e =
    let id = (pop_pointer w.pointers).1 in
    let (_, _, done) =
      >>=-split (get_pointer id (record w { pointers = (pop_pointer w.pointers).0 })) _ e in
    (id, w.pending, ap (λ (n : Net). n.pending) (sym (ok-injective done)))

module _ {ℓ} {A : Type ℓ} (h : Hooks A) (only : IsSendOnly h) (env : Env) where
  handle_accept-posts :
      (ws : Bool) (id : ℕ) (outcome : Accepted) (w v : World A)
      → handle_accept h ws id outcome w ≡ ok v
      → (j : ℕ) × (ops : List Pending) × (v.net.pending ≡ ops ++ accepts ws j ∷ [])
  unfolding handle_accept
  handle_accept-posts ws id refused w v e =
      let (net, posted, done) = >>=-split (start_accept ws w.net) _ e in
      let (j, ops, last) = start_accept-posts ws w.net net posted in
      (j, ops, ap (λ (x : World A). x.net.pending) (sym (ok-injective done)) ∙ last)
  handle_accept-posts ws id (arrived none handshake) w v e = absurd (fault≢ok e)
  handle_accept-posts ws id (arrived (some (ip, port)) handshake) w v e =
      let (u, _, e1) = >>=-split (accept_peer h ws id ip port handshake w) _ e in
      let (net, posted, done) = >>=-split (start_accept ws u.net) _ e1 in
      let (j, ops, last) = start_accept-posts ws u.net net posted in
      (j, ops, ap (λ (x : World A). x.net.pending) (sym (ok-injective done)) ∙ last)

  -- A worker with callbacks that send at most, after any completions in any order from a state in which
  -- every slot has the operations that it should have: when a pending accept completes, with a connection or
  -- with an error, and its handler ends without a fault, there is a slot of the table that waits, is not a
  -- target's, and for which exactly one operation is under way, an accept of the same kind.
  pub accept-again :
      (w v u : World A) (us vs : List Pending) (ws : Bool) (id : ℕ) (outcome : Accepted)
      → Sound w.net
      → Steps h env w v
      → v.net.pending ≡ us ++ accepts ws id ∷ vs
      → handle_accept h ws id outcome (leaving h env (us ++ vs) v) ≡ ok u
      → (j : ℕ) × (p : Pointer) × (find j u.net.pointers ≡ some p)
        × (p.status ≡ waiting)
        × (find j u.net.outwards ≡ none)
        × (mine j u.net.pending ≡ accepts ws j ∷ [])
  unfolding mine
  accept-again w v u us vs ws id outcome s steps pending e =
      let (j, ops, last) = handle_accept-posts ws id outcome (leaving h env (us ++ vs) v) u e in
      let sound =
        Step-Sound h env only v u (accepted us vs ws id outcome pending e)
          (Steps-Sound h env only w v s steps) in
      let only_one = only_op (accepts ws j) ops [] u.net last sound in
      let (p, found, waits, inward) = accept-waits only_one.1 in
      (j, p, found, waits, inward, own j ops last only_one.0)
    where
      single : (j : ℕ) → mine j (accepts ws j ∷ []) ≡ accepts ws j ∷ []
      single j = rw (mine, (==_iff j j).1 refl) refl

      own :
          (j : ℕ) (ops : List Pending)
          → u.net.pending ≡ ops ++ accepts ws j ∷ []
          → mine j (ops ++ []) ≡ []
          → mine j u.net.pending ≡ accepts ws j ∷ []
      own j ops last none_before =
          ap (mine j) last
          ∙ mine-append j ops (accepts ws j ∷ [])
          ∙ ap (λ (xs : List Pending). xs ++ mine j (accepts ws j ∷ []))
              (ap (mine j) (sym (append-nil ops)) ∙ none_before)
          ∙ single j
