-- ===== src/Worker/Life/Starting.antt =====
-- source/net_worker.hpp: an accept, an attempt to connect and a read are started.
use f1985gfw.Base.{
  ℕ, ◌-◌, ◌≡◌, refl, sym, ap, ◌∙◌, subst, inl, inr, Bool, true, false, [], ◌∷◌, ◌++◌, if◌then◌else◌,
  ok, fault, null_pointer, bad_argument, or_fault, >>=-split, fault≢ok, or_fault-some, Bool-cases,
  arith,
}
use f1985gfw.Base.Dict.{find}
use f1985gfw.Worker.State.{
  unconnect, waiting, connected, Pointer, accepts, connects, reads, Net, Env,
}
use f1985gfw.Worker.Slot.{
  get_pointer, set_pointer, set_waiting, pop_pointer, is_connected, read_start, start, valid,
}
use f1985gfw.Worker.Events.{start_accept, start_connect}
use f1985gfw.Worker.Closing.{ok-injective}
use f1985gfw.Worker.Pool.{Popped, exhausted, taken, pop_pointer-Popped}
use f1985gfw.Worker.Exhaustion.{start_accept-exhausted}
use f1985gfw.Worker.Life.{accepting, connecting, live, Sound, Open}
use f1985gfw.Worker.Life.Opening.{Open-set_pointer, start_op, free-idle}
use f1985gfw.Worker.Life.Parsing.{Closed, got-same, set_waiting-keeps}

pub valid-unconnect : (p : Pointer) → valid p ≡ true → p.status ≡ unconnect
unfolding valid
valid-unconnect p e = ground arith

-- A free slot waits for a connection.
pub start_accept-Sound : (ws : Bool) (w v : Net) → Sound w → start_accept ws w ≡ ok v → Sound v
unfolding start_accept set_pointer
start_accept-Sound ws w v s e = go (pop_pointer-Popped w.pointers s.table)
  where
    go : Popped w.pointers (pop_pointer w.pointers).0 (pop_pointer w.pointers).1 → Sound v
    go (exhausted no_more same id) =
        absurd (fault≢ok (sym (start_accept-exhausted ws w s.table no_more) ∙ e))
    go (taken p positive found is_free changed count) =
        let id = (pop_pointer w.pointers).1 in
        let (inward, idle) = free-idle p (s.owed id) found (valid-unconnect p is_free) in
        let opened : Open id p w = record {
          table = s.table;
          owed = λ j other. s.owed j;
          found = found;
          nothing = idle;
        } in
        let (same, waits) = set_waiting-keeps p in
        let (_, _, done) =
          >>=-split (get_pointer id (record w { pointers = (pop_pointer w.pointers).0 })) _ e in
        subst Sound
          (ap (λ m. record w { pointers = m; pending = w.pending ++ accepts ws id ∷ [] })
              (sym changed)
            ∙ ok-injective done)
          (start_op id (set_waiting p) (accepts ws id) (set_pointer id (set_waiting p) w) refl
            (Open-set_pointer id p (set_waiting p) w same opened)
            (rw inward (accepting (set_waiting p) ws waits)))

-- An attempt to connect to a target.
pub start_connect-Sound :
    (env : Env) (id : ℕ) (p : Pointer) (w v : Net)
    → Open id p w
    → p.status ≡ waiting
    → start_connect env id w ≡ ok v
    → Sound v
unfolding start_connect set_pointer
start_connect-Sound env id p w v o waits e =
    let (out, target, e1) = >>=-split (or_fault (find id w.outwards) null_pointer) _ e in
    elim (Bool-cases (env.is_address out.ip)) [
      | inr bad ↦ absurd (fault≢ok (rw bad at e1))
      | inl good ↦
          let (q, got, e2) = >>=-split (get_pointer id w) _ (rw good at e1) in
          let same = got-same id p q w o.found got in
          let opened =
            Open-set_pointer id p (record q { socket_open = true }) w
              (ap (λ (r : Pointer). r.id) same) o in
          subst Sound (ok-injective e2) (
            start_op id (record q { socket_open = true }) (connects id) _ refl opened
              (rw (or_fault-some null_pointer (find id w.outwards) target) (
                connecting (record q { socket_open = true }) out
                  (ap (λ (r : Pointer). r.status) same ∙ waits))))
    ]

-- A read into the rest of the buffer.
pub read_start-Sound :
    (id : ℕ) (p : Pointer) (w v : Net)
    → Open id p w
    → p.status ≡ connected
    → read_start id w ≡ ok v
    → Sound v
unfolding read_start
read_start-Sound id p w v o online e =
    let (q, got, e1) = >>=-split (get_pointer id w) _ e in
    let same = got-same id p q w o.found got in
    let read_on : (if is_connected q.status
          then ok (record w {
            pending = w.pending ++ reads id q.recv_size (w.max_recv_size - q.recv_size) ∷ [];
          })
          else ok w)
        ≡ ok v =
      e1 in
    let live_q = ap (λ (r : Pointer). r.status) same ∙ online in
    subst Sound (ok-injective (rw live_q at read_on)) (
      start_op id p (reads id q.recv_size (w.max_recv_size - q.recv_size)) w refl o
        (live p (find id w.outwards) q.recv_size (w.max_recv_size - q.recv_size) online))

-- A slot that is closed does not read on.
pub read_start-Closed : (id : ℕ) (w v : Net) → Closed id w → read_start id w ≡ ok v → Sound v
unfolding read_start
read_start-Closed id w v c e =
    let (q, got, e1) = >>=-split (get_pointer id w) _ e in
    let same = got-same id c.slot q w c.found got in
    let off = ap (λ (r : Pointer). is_connected r.status) same ∙ c.offline in
    subst Sound (ok-injective (rw off at e1)) c.sound

-- A connection starts to read.
pub start-Sound :
    (id : ℕ) (ws handshake : Bool) (p : Pointer) (w v : Net)
    → Open id p w
    → start id ws handshake w ≡ ok v
    → Sound v
unfolding start
start-Sound id ws handshake p w v o e =
    let (q, got, e1) = >>=-split (get_pointer id w) _ e in
    let same = got-same id p q w o.found got in
    go ws handshake q (ap (λ (r : Pointer). r.id) same) e1
  where
    go :
        (ws handshake : Bool) (q : Pointer)
        → q.id ≡ p.id
        → (if ws
            then (if handshake
                then read_start id (
                    set_pointer id
                      (record q { status = connected; ws = true; socket_open = false })
                      w)
                else fault bad_argument)
            else read_start id (set_pointer id (record q { status = connected }) w))
          ≡ ok v
        → Sound v
    go true true q own e =
        read_start-Sound id (record q { status = connected; ws = true; socket_open = false }) _ v
          (Open-set_pointer id p (record q { status = connected; ws = true; socket_open = false }) w
            own o)
          refl e
    go true false q own e = absurd (fault≢ok e)
    go false _ q own e =
        read_start-Sound id (record q { status = connected }) _ v
          (Open-set_pointer id p (record q { status = connected }) w own o) refl e
