-- ===== src/Worker/Events.antt =====
-- The handlers of net_worker's asynchronous operations, and the methods that start them.
use Prim.Native.String.{String}
use f1985gfw.Base.{
  ℕ, ◌+◌, Bool, true, false, ◌&&◌, Option, none, some, List, [], ◌∷◌, ◌++◌, length, if◌then◌else◌,
  Result, ok, fault, null_pointer, bad_function, bad_argument, ◌>>=◌, or_fault, write_at,
}
use f1985gfw.Base.Dict.{find, assign}
use f1985gfw.Worker.State.{Outward, accepts, connects, Net, World, Hooks, Env}
use f1985gfw.Worker.Slot.{get_pointer, set_pointer, pop_pointer, read_start, start}
use f1985gfw.Worker.Close.{close}
use f1985gfw.Worker.Parse.{parse_data}

-- `push_bullet`. With no free slot the target is filed under slot 0.
unfoldable pub push_bullet : String → String → ℕ → Net → Net
push_bullet name ip port w =
    let (pointers, id) = pop_pointer w.pointers in
    record w {
      pointers = pointers;
      outwards =
          assign id (record { name = name; ip = ip; port = port; pointer_id = id }) w.outwards;
    }

-- `start_accept`: a free slot waits for the next connection.
unfoldable pub start_accept : Bool → Net → Result Net
start_accept ws w = do
  let (pointers, id) = pop_pointer w.pointers
  let w = record w { pointers = pointers }
  p ← get_pointer id w
  ok (record w { pending = w.pending ++ accepts ws id ∷ [] })

-- `open`, given whether the acceptor's open, set_option, bind and listen succeed.
unfoldable pub open_port : Bool → Bool → Bool → Bool → Bool → Net → Result Net
open_port ws opened reusable bound listening w =
    if opened && reusable && bound && listening then start_accept ws w else ok w

-- `start_connect`; the socket is opened by the attempt.
unfoldable pub start_connect : Env → ℕ → Net → Result Net
start_connect env id w = do
  out ← or_fault (find id w.outwards) null_pointer
  if env.is_address out.ip
      then (do
        p ← get_pointer id w
        let w = set_pointer id (record p { socket_open = true }) w
        ok (record w { pending = w.pending ++ connects id ∷ [] }))
      else fault bad_argument

-- `shoot`, over the targets that are left.
unfoldable pub shoot_all : Env → List (ℕ × Outward) → Net → Result Net
shoot_all env [] w = ok w
shoot_all env ((id, out) ∷ outs) w = do w ← start_connect env id w; shoot_all env outs w

unfoldable pub shoot : Env → Net → Result Net
unfolding shoot_all
shoot env w = shoot_all env w.outwards w

-- `handle_reconnect`; a timer that was cancelled completes with an error.
unfoldable pub handle_reconnect : Env → ℕ → Bool → Net → Result Net
handle_reconnect env id cancelled w = if cancelled then ok w else start_connect env id w

-- How an accept ends: with an error, or with a connection whose peer may be known (remote_endpoint
-- throws if not) and whose websocket handshake may succeed.
pub data Accepted : Type 0 where
  refused : Accepted
  arrived : Option (String × ℕ) → Bool → Accepted

module _ {ℓ} {A : Type ℓ} (h : Hooks A) where
  -- The handler of async_accept, for a connection whose peer is known.
  unfoldable pub accept_peer : Bool → ℕ → String → ℕ → Bool → World A → Result (World A)
  accept_peer ws id ip port handshake w = do
    p ← get_pointer id w.net
    net ← start id ws handshake (set_pointer id (record p { socket_open = true }) w.net)
    let w = record w { net = net }
    elim h.connect_handler [ none ↦ fault bad_function | some handler ↦ handler id ip port w ]

  -- The handler of async_accept. Either way it starts the next accept.
  unfoldable pub handle_accept : Bool → ℕ → Accepted → World A → Result (World A)
  handle_accept ws id refused w = do net ← start_accept ws w.net; ok (record w { net = net })
  handle_accept ws id (arrived none handshake) w = fault bad_argument
  handle_accept ws id (arrived (some (ip, port)) handshake) w = do
    w ← accept_peer ws id ip port handshake w
    net ← start_accept ws w.net
    ok (record w { net = net })

  -- The handler of async_connect.
  unfoldable pub handle_connect : ℕ → Bool → World A → Result (World A)
  handle_connect id failed w = if failed then close h id w else do
    out ← or_fault (find id w.net.outwards) null_pointer
    net ← start id false false w.net
    ok (record w { net = net })

  -- The handler of async_read_some: none is an error, else the bytes that have been stored at `at`.
  unfoldable pub handle_read : ℕ → ℕ → Option (List ℕ) → World A → Result (World A)
  handle_read id at none w = close h id w
  handle_read id at (some []) w = close h id w
  handle_read id at (some (b ∷ bs)) w = do
    p ← get_pointer id w.net
    buf ← write_at p.recv_buf at (b ∷ bs)
    let p = record p { recv_buf = buf; recv_size = p.recv_size + length (b ∷ bs) }
    w ← parse_data h id (record w { net = set_pointer id p w.net })
    net ← read_start id w.net
    ok (record w { net = net })
