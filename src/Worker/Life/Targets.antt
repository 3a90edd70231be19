-- ===== src/Worker/Life/Targets.antt =====
-- source/net_worker.hpp: the targets of a worker, and the slots of one that has just been made.
use f1985gfw.Base.{
  ℕ, zero, suc, ◌+◌, ◌≡◌, ◌≢◌, refl, sym, ap, ◌∙◌, subst, ◌⊎◌, inl, inr, Bool, true, ◌&&◌, Option,
  none, some, List, [], ◌∷◌, ◌++◌, ◌==◌, ==_iff, ok, Bool-cases, Option-cases, some-eq,
}
use f1985gfw.Base.Dict.{Dict, find, assign, find-assign}
use f1985gfw.Packet.{Allocator}
use f1985gfw.Worker.State.{
  unconnect, connected, Pointer, Outward, Pending, connects, reconnects, Net, World, Hooks, Env,
}
use f1985gfw.Worker.Slot.{init, init_slots, init_pointer, get_pointer, set_pointer}
use f1985gfw.Worker.Events.{start_connect, handle_reconnect, open_port}
use f1985gfw.Worker.Closing.{ok-injective}
use f1985gfw.Worker.Contract.{IsSendOnly}
use f1985gfw.Worker.Pool.{init-IsTable}
use f1985gfw.Worker.Life.{
  Owed, absent, free, spent, accepting, connecting, resting, live, Sound, mine, mine-append,
  slot_of,
}
use f1985gfw.Worker.Life.Starting.{start_accept-Sound}
use f1985gfw.Worker.Life.Reach.{Step, timed, Steps, Steps-Sound}

-- Every slot of the table is free.
unfoldable pub AllFree : Dict Pointer → Type 0
AllFree m = (j : ℕ) (p : Pointer) → find j m ≡ some p → p.status ≡ unconnect

pub init_slots-AllFree :
    (a : Allocator) (size n id : ℕ) (m : Dict Pointer)
    → AllFree m
    → AllFree (init_slots a size n id m)
unfolding AllFree init_slots init_pointer
init_slots-AllFree a size zero id m all = all
init_slots-AllFree a size (suc n) id m all =
    init_slots-AllFree a size n (id + 1) (assign id (init_pointer a size id) m) (λ j p e.
      elim (Bool-cases (id == j)) [
        | inl same ↦
            ap (λ (q : Pointer). q.status)
              (sym (some-eq (rw (find-assign j id (init_pointer a size id) m, same) at e)))
        | inr other ↦ all j p (rw (find-assign j id (init_pointer a size id) m, other) at e)
      ])

pub init-Sound : (a : Allocator) (size interval n : ℕ) → Sound (init a size interval n)
unfolding init mine AllFree find
init-Sound a size interval n = record {
  table = (init-IsTable a size interval n).0;
  owed = λ j. elim (Option-cases (find j (init_slots a size n 1 []))) [
    | inl missing ↦ rw missing (absent none)
    | inr (p, found) ↦ rw found (free p (init_slots-AllFree a size n 1 [] (λ k q e. cc) j p found))
  ];
}

-- A worker that is made and opens its port has the operations that it should have: no slot has one, but for
-- the one that waits for the first connection if the port opens.
pub open_port-Sound :
    (a : Allocator) (size interval n : ℕ) (ws opened reusable bound listening : Bool) (v : Net)
    → open_port ws opened reusable bound listening (init a size interval n) ≡ ok v
    → Sound v
unfolding open_port
open_port-Sound a size interval n ws opened reusable bound listening v e =
    elim (Bool-cases (opened && reusable && bound && listening)) [
      | inl all ↦
          start_accept-Sound ws (init a size interval n) v (init-Sound a size interval n)
            (rw all at e)
      | inr failed ↦ subst Sound (ok-injective (rw failed at e)) (init-Sound a size interval n)
    ]

-- The slot of a target that is not connected has a connect or a timer.
target_cases :
    {j : ℕ} {o : Option Pointer} {out : Option Outward} {ops : List Pending} (p : Pointer)
    (t : Outward)
    → Owed j o out ops
    → o ≡ some p
    → out ≡ some t
    → p.status ≢ connected
    → (ops ≡ connects j ∷ []) ⊎ ((delay : ℕ) × (ops ≡ reconnects j delay ∷ []))
target_cases p t (absent _) e f off = cc
target_cases p t (free _ _) e f off = cc
target_cases p t (spent _ _) e f off = cc
target_cases p t (accepting _ _ _) e f off = cc
target_cases p t (connecting _ _ _) e f off = inl refl
target_cases p t (resting _ _ delay _) e f off = inr (delay, refl)
target_cases p t (live q _ at size online) e f off =
    absurd (off (ap (λ (r : Pointer). r.status) (sym (some-eq e)) ∙ online))

head_eq : {x y : Pending} {xs ys : List Pending} → x ∷ xs ≡ y ∷ ys → x ≡ y
head_eq e = cc

tail_eq : {x y : Pending} {xs ys : List Pending} → x ∷ xs ≡ y ∷ ys → xs ≡ ys
tail_eq e = cc

-- An operation of a slot is somewhere among the pending ones.
locate :
    (j : ℕ) (op : Pending) (ops : List Pending)
    → mine j ops ≡ op ∷ []
    → (us : List Pending) × (vs : List Pending) × (ops ≡ us ++ op ∷ vs) × (mine j (us ++ vs) ≡ [])
unfolding mine
locate j op [] e = cc
locate j op (x ∷ ops) e = elim (Bool-cases (slot_of x == j)) [
  | inl own ↦
      let here : x ∷ mine j ops ≡ op ∷ [] = rw own at e in
      ([], ops, ap (λ y. y ∷ ops) (head_eq here), tail_eq here)
  | inr other ↦
      let (us, vs, split, empty) = locate j op ops (rw other at e) in
      (x ∷ us, vs, ap (◌∷◌ x) split, rw other empty)
]

module _ {ℓ} {A : Type ℓ} (h : Hooks A) (only : IsSendOnly h) (env : Env) where
  start_connect-goes :
      (id : ℕ) (p : Pointer) (t : Outward) (w : Net)
      → find id w.pointers ≡ some p
      → find id w.outwards ≡ some t
      → env.is_address t.ip ≡ true
      → start_connect env id w
        ≡ ok (record w {
          pointers = assign id (record p { socket_open = true }) w.pointers;
          pending = w.pending ++ connects id ∷ [];
        })
  unfolding start_connect get_pointer set_pointer
  start_connect-goes id p t w found target address = rw (target, address, found) refl

  -- A target is never given up: in any state that a worker reaches from one with the operations that it should
  -- have, a target with a valid address whose slot is not connected is being connected to, and nothing else is
  -- under way for it, or the end of its timer leads to that.
  pub target-retried :
      (w v : World A) (id : ℕ) (p : Pointer) (t : Outward)
      → Sound w.net
      → Steps h env w v
      → find id v.net.pointers ≡ some p
      → find id v.net.outwards ≡ some t
      → p.status ≢ connected
      → env.is_address t.ip ≡ true
      → (mine id v.net.pending ≡ connects id ∷ [])
        ⊎ ((u : World A) × Step h env v u × (mine id u.net.pending ≡ connects id ∷ []))
  unfolding handle_reconnect mine
  target-retried w v id p t s steps found target off address =
      let sound = Steps-Sound h env only w v s steps in
      elim (target_cases p t (sound.owed id) found target off) [
        | inl trying ↦ inl trying
        | inr (delay, rests) ↦
            let (us, vs, where_it_is, empty) =
              locate id (reconnects id delay) v.net.pending rests in
            inr (
              record v {
                net = record v.net {
                  pointers = assign id (record p { socket_open = true }) v.net.pointers;
                  pending = (us ++ vs) ++ connects id ∷ [];
                };
              },
              timed us vs id delay where_it_is (
                  start_connect-goes id p t (record v.net { pending = us ++ vs }) found target
                    address),
              mine-append id (us ++ vs) (connects id ∷ []) ∙ rw (empty, (==_iff id id).1 refl) refl,
            )
      ]
