-- ===== src/Worker/Life/Aiming.antt =====
-- source/net_worker.hpp and client/main.cpp: a worker that is given a target and shoots.
use Prim.Native.String.{String}
use f1985gfw.Base.{
  ℕ, ◌≡◌, ap, ◌∙◌, subst, inl, inr, none, List, [], ◌∷◌, ok, >>=-split, or_fault, null_pointer,
  fault≢ok, Bool-cases,
}
use f1985gfw.Base.Dict.{find, assign, find-assign}
use f1985gfw.Worker.State.{Outward, Net, Env}
use f1985gfw.Worker.Slot.{set_pointer, set_waiting, pop_pointer, get_pointer}
use f1985gfw.Worker.Events.{push_bullet, shoot, shoot_all, start_connect}
use f1985gfw.Worker.Pool.{Popped, exhausted, taken, pop_pointer-Popped}
use f1985gfw.Worker.Exhaustion.{find-zero}
use f1985gfw.Worker.Life.{Sound, Open}
use f1985gfw.Worker.Life.Opening.{Open-set_pointer, free-idle}
use f1985gfw.Worker.Life.Parsing.{set_waiting-keeps}
use f1985gfw.Worker.Life.Starting.{valid-unconnect, start_connect-Sound}

-- There is no slot 0 to connect through.
start_connect-zero :
    (env : Env) (w v : Net) → find 0 w.pointers ≡ none → start_connect env 0 w ≡ ok v → ⊥
unfolding start_connect get_pointer
start_connect-zero env w v missing e =
    let (out, _, e1) = >>=-split (or_fault (find 0 w.outwards) null_pointer) _ e in
    elim (Bool-cases (env.is_address out.ip)) [
      | inl good ↦
          let (p, got, _) =
            >>=-split (or_fault (find 0 w.pointers) null_pointer) _ (rw good at e1) in
          fault≢ok (rw missing at got)
      | inr bad ↦ fault≢ok (rw bad at e1)
    ]

shoot_all-one :
    (env : Env) (id : ℕ) (out : Outward) (outs : List (ℕ × Outward)) (w v : Net)
    → outs ≡ (id, out) ∷ []
    → shoot_all env outs w ≡ ok v
    → start_connect env id w ≡ ok v
unfolding shoot_all
shoot_all-one env id out outs w v one e =
    let (u, first, rest) = >>=-split (start_connect env id w) (shoot_all env []) (rw one at e) in
    first ∙ rest

-- A worker without targets in which every slot has the operations that it should have, and which is given one
-- target and shoots without a fault, still has them: the target's slot waits for its connect.
pub shoot-Sound :
    (env : Env) (name ip : String) (port : ℕ) (w v : Net)
    → Sound w
    → w.outwards ≡ []
    → shoot env (push_bullet name ip port w) ≡ ok v
    → Sound v
unfolding shoot push_bullet assign set_pointer
shoot-Sound env name ip port w v s fresh e = go (pop_pointer-Popped w.pointers s.table)
  where
    id : ℕ
    id = (pop_pointer w.pointers).1

    target : Outward
    target = record { name = name; ip = ip; port = port; pointer_id = id }

    loaded : Net
    loaded = record w {
      pointers = (pop_pointer w.pointers).0;
      outwards = assign id target w.outwards;
    }

    shot : start_connect env id loaded ≡ ok v
    shot =
        shoot_all-one env id target (assign id target w.outwards) loaded v
          (ap (assign id target) fresh) e

    go : Popped w.pointers (pop_pointer w.pointers).0 (pop_pointer w.pointers).1 → Sound v
    go (exhausted no_more same zero_id) = absurd (
        start_connect-zero env loaded v (ap (find 0) same ∙ find-zero w.pointers s.table)
          (subst (λ i. start_connect env i loaded ≡ ok v) zero_id shot))
    go (taken p positive found is_free changed count) =
        let (_, idle) = free-idle p (s.owed id) found (valid-unconnect p is_free) in
        let (same, waits) = set_waiting-keeps p in
        let opened : Open id p (record w { outwards = assign id target w.outwards }) = record {
          table = s.table;
          owed = λ j other. rw (find-assign j id target w.outwards, other) (s.owed j);
          found = found;
          nothing = idle;
        } in
        let waiting_one = Open-set_pointer id p (set_waiting p) _ same opened in
        start_connect-Sound env id (set_waiting p) _ v waiting_one waits (
          subst
            (λ m.
              start_connect env id
                (record w { pointers = m; outwards = assign id target w.outwards })
              ≡ ok v)
            changed shot)
