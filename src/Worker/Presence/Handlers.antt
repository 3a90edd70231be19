-- ===== src/Worker/Presence/Handlers.antt =====
-- source/net_worker.hpp: the entries of an application over all orders of the completions of a worker's
-- operations.
use Prim.Native.String.{String}
use f1985gfw.Base.{
  ℕ, ◌+◌, ◌-◌, ◌≡◌, refl, sym, ap, ◌∙◌, subst, ◌⊎◌, inl, inr, Bool, true, false, Option, none, some,
  List, [], ◌∷◌, ◌++◌, length, if◌then◌else◌, ◌==◌, ==_iff, ok, fault, bad_argument, bad_function,
  >>=-split, fault≢ok, Bool-cases, Option-cases, write_at,
}
use f1985gfw.Base.Dict.{find, find-assign, find-assign_self}
use f1985gfw.Worker.State.{Pointer, Net, World, Hooks, Env, connected, reads, ConnectHandler}
use f1985gfw.Worker.Slot.{
  get_pointer, set_pointer, set_waiting, pop_pointer, is_connected, read_start, start,
}
use f1985gfw.Worker.Parse.{parse_data}
use f1985gfw.Worker.Events.{start_accept, accept_peer, handle_read}
use f1985gfw.Worker.Closing.{ok-injective, find-set_pointer}
use f1985gfw.Worker.Contract.{IsSendOnly}
use f1985gfw.Worker.Pool.{IsTable, Popped, exhausted, taken, pop_pointer-Popped}
use f1985gfw.Worker.Life.Parsing.{got-same, set_waiting-keeps}
use f1985gfw.Worker.Life.Starting.{valid-unconnect}
use f1985gfw.Worker.Presence.{online_slot, IsRegister, Agrees}
use f1985gfw.Worker.Presence.Reading.{online-assign, Agrees-net, close-Agrees, parse_data-Agrees}

read_start-slots :
    (id : ℕ) (w v : Net)
    → read_start id w ≡ ok v
    → (v.outwards ≡ w.outwards) × (v.pointers ≡ w.pointers)
unfolding read_start
read_start-slots id w v e =
    let (p, _, e1) = >>=-split (get_pointer id w) _ e in go (is_connected p.status) p e1
  where
    go :
        (on : Bool) (p : Pointer)
        → (if on
            then ok (record w {
              pending = w.pending ++ reads id p.recv_size (w.max_recv_size - p.recv_size) ∷ [];
            })
            else ok w)
          ≡ ok v
        → (v.outwards ≡ w.outwards) × (v.pointers ≡ w.pointers)
    go true p e = (
      ap (λ (x : Net). x.outwards) (sym (ok-injective e)),
      ap (λ (x : Net). x.pointers) (sym (ok-injective e)),
    )
    go false p e = (
      ap (λ (x : Net). x.outwards) (sym (ok-injective e)),
      ap (λ (x : Net). x.pointers) (sym (ok-injective e)),
    )

-- The slot is connected, and the others are what they were.
record Connects (id : ℕ) (w v : Net) : Type 0 where
  pub outs : v.outwards ≡ w.outwards
  pub own : online_slot (find id v.pointers) ≡ true
  pub others : (j : ℕ) → (id == j) ≡ false → find j v.pointers ≡ find j w.pointers

connected-Connects :
    (id : ℕ) (q : Pointer) (w v : Net)
    → q.status ≡ connected
    → read_start id (set_pointer id q w) ≡ ok v
    → Connects id w v
unfolding set_pointer
connected-Connects id q w v on e =
    let (outs, slots) = read_start-slots id (set_pointer id q w) v e in
    record {
      outs = outs;
      own =
          ap (λ m. online_slot (find id m)) slots
          ∙ ap online_slot (find-assign_self id q w.pointers)
          ∙ ap is_connected on;
      others = λ j other. ap (find j) slots ∙ find-assign j id q w.pointers ∙ rw other refl;
    }

start-Connects :
    (id : ℕ) (ws handshake : Bool) (w v : Net) → start id ws handshake w ≡ ok v → Connects id w v
unfolding start
start-Connects id ws handshake w v e =
    let (q, _, e1) = >>=-split (get_pointer id w) _ e in go ws handshake q e1
  where
    go :
        (ws handshake : Bool) (q : Pointer)
        → (if ws
            then (if handshake
                then read_start id (
                    set_pointer id
                      (record q { status = connected; ws = true; socket_open = false })
                      w)
                else fault bad_argument)
            else read_start id (set_pointer id (record q { status = connected }) w))
          ≡ ok v
        → Connects id w v
    go true true q e = connected-Connects id _ w v refl e
    go true false q e = absurd (fault≢ok e)
    go false _ q e = connected-Connects id _ w v refl e

-- A slot that is taken to wait was not connected and is not.
start_accept-slots :
    (ws : Bool) (w v : Net)
    → IsTable w.pointers
    → start_accept ws w ≡ ok v
    → (v.outwards ≡ w.outwards)
      × ((j : ℕ) → online_slot (find j v.pointers) ≡ online_slot (find j w.pointers))
unfolding start_accept set_pointer
start_accept-slots ws w v t e =
    let (_, _, done) =
      >>=-split
        (get_pointer (pop_pointer w.pointers).1
          (record w { pointers = (pop_pointer w.pointers).0 }))
        _ e in
    let same = ok-injective done in
    (
      ap (λ (x : Net). x.outwards) (sym same),
      λ j.
          ap (λ (x : Net). online_slot (find j x.pointers)) (sym same)
          ∙ popped j (pop_pointer-Popped w.pointers t),
    )
  where
    popped :
        (j : ℕ)
        → Popped w.pointers (pop_pointer w.pointers).0 (pop_pointer w.pointers).1
        → online_slot (find j (pop_pointer w.pointers).0) ≡ online_slot (find j w.pointers)
    popped j (exhausted _ same _) = ap (λ m. online_slot (find j m)) same
    popped j (taken p _ found is_free changed _) =
        ap (λ m. online_slot (find j m)) changed
        ∙ online-assign (pop_pointer w.pointers).1 j p (set_waiting p) w found (
            ap is_connected (set_waiting-keeps p).1
            ∙ ap is_connected (sym (valid-unconnect p is_free)))

module _ {ℓ} {A : Type ℓ} (h : Hooks A) (env : Env) (only : IsSendOnly h) (has : A → ℕ → Bool)
    (register : IsRegister h has) where
  pub start_accept-Agrees :
      (ws : Bool) (w : World A) (net : Net)
      → IsTable w.net.pointers
      → start_accept ws w.net ≡ ok net
      → Agrees h has w
      → Agrees h has (record w { net = net })
  start_accept-Agrees ws w net t e a =
      let (outs, slots) = start_accept-slots ws w.net net t e in
      Agrees-net h only has register w net outs slots a

  pub accept_peer-Agrees :
      (ws : Bool) (id : ℕ) (ip : String) (port : ℕ) (handshake : Bool) (w v : World A)
      → accept_peer h ws id ip port handshake w ≡ ok v
      → Agrees h has w
      → Agrees h has v
  unfolding accept_peer set_pointer
  accept_peer-Agrees ws id ip port handshake w v e a =
      let (q, _, e1) = >>=-split (get_pointer id w.net) _ e in
      let (net, started, e2) =
        >>=-split (start id ws handshake (set_pointer id (record q { socket_open = true }) w.net)) _
          e1 in
      told q net (start-Connects id ws handshake _ net started) (Option-cases h.connect_handler) e2
    where
      told :
          (q : Pointer) (net : Net)
          → Connects id (set_pointer id (record q { socket_open = true }) w.net) net
          → (h.connect_handler ≡ none)
            ⊎ ((handler : ConnectHandler A) × (h.connect_handler ≡ some handler))
          → elim h.connect_handler [
            | none ↦ fault bad_function
            | some handler ↦ handler id ip port (record w { net = net })
          ]
            ≡ ok v
          → Agrees h has v
      told q net c (inl unset) e = absurd (fault≢ok (rw unset at e))
      told q net c (inr (handler, set)) e =
          let run : handler id ip port (record w { net = net }) ≡ ok v = rw set at e in
          let sent = only.connects id ip port (record w { net = net }) v handler set run in
          let (made, others) =
            register.connects id port ip (record w { net = net }) v handler set run in
          record {
            no_targets = ap (λ (x : Net). x.outwards) sent ∙ c.outs ∙ a.no_targets;
            entries = λ j. elim (Bool-cases (id == j)) [
              | inr other ↦
                  others j other
                  ∙ a.entries j
                  ∙ ap online_slot (
                      sym (
                        ap (λ (x : Net). find j x.pointers) sent
                        ∙ c.others j other
                        ∙ find-assign j id (record q { socket_open = true }) w.net.pointers
                        ∙ rw other refl))
              | inl own ↦
                  subst (λ k. has v.app k ≡ online_slot (find k v.net.pointers))
                    ((==_iff id j).0 own)
                    (made ∙ sym (ap (λ (x : Net). online_slot (find id x.pointers)) sent ∙ c.own))
            ];
          }

  pub handle_read-Agrees :
      (id at : ℕ) (chunk : Option (List ℕ)) (p : Pointer) (w v : World A)
      → find id w.net.pointers ≡ some p
      → handle_read h id at chunk w ≡ ok v
      → Agrees h has w
      → Agrees h has v
  unfolding handle_read set_pointer
  handle_read-Agrees id at none p w v found e a =
      close-Agrees h only has register id p w v found e a
  handle_read-Agrees id at (some []) p w v found e a =
      close-Agrees h only has register id p w v found e a
  handle_read-Agrees id at (some (b ∷ bs)) p w v found e a =
      let (p', got, e1) = >>=-split (get_pointer id w.net) _ e in
      let same = got-same id p p' w.net found got in
      let (buf, _, e2) = >>=-split (write_at p'.recv_buf at (b ∷ bs)) _ e1 in
      let q : Pointer = record p' { recv_buf = buf; recv_size = p'.recv_size + length (b ∷ bs) } in
      let (u, parsed, e3) =
        >>=-split (parse_data h id (record w { net = set_pointer id q w.net })) _ e2 in
      let (net, reading, e4) = >>=-split (read_start id u.net) _ e3 in
      let moved =
        Agrees-net h only has register w (set_pointer id q w.net) refl
          (λ j.
            online-assign id j p q w.net found (ap (λ (r : Pointer). is_connected r.status) same))
          a in
      let after =
        parse_data-Agrees h only has register id q _ u (find-set_pointer id q w.net) moved parsed in
      let (outs, slots) = read_start-slots id u.net net reading in
      subst (Agrees h has) (ok-injective e4) (
        Agrees-net h only has register u net outs (λ j. ap (λ m. online_slot (find j m)) slots)
          after)
