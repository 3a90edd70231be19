-- ===== src/Worker/Slot.antt =====
-- The methods of `pointer` that touch only their slot, and the worker's table of slots.
use f1985gfw.Base.{
  ℕ, zero, suc, ◌+◌, ◌-◌, Bool, true, false, none, some, List, [], ◌∷◌, ◌++◌, if◌then◌else◌, Result,
  ok, fault, null_pointer, bad_argument, ◌>>=◌, or_fault,
}
use f1985gfw.Base.Dict.{Dict, find, assign}
use f1985gfw.Packet.{Allocator, pack}
use f1985gfw.Worker.State.{Status, unconnect, waiting, connected, Pointer, reads, Net, Env}

abbrev pub is_unconnect : Status → Bool
is_unconnect unconnect = true
is_unconnect waiting = false
is_unconnect connected = false

abbrev pub is_connected : Status → Bool
is_connected unconnect = false
is_connected waiting = false
is_connected connected = true

-- The constructor of `pointer`, and its `init`. It does not look at what malloc returned.
unfoldable pub init_pointer : Allocator → ℕ → ℕ → Pointer
init_pointer a max_recv_size id = record {
  id = id;
  socket_open = false;
  ws = false;
  recv_buf = elim (a.malloc max_recv_size) [ none ↦ [] | some b ↦ b ];
  recv_size = 0;
  status = unconnect;
}

unfoldable pub valid : Pointer → Bool
valid p = is_unconnect p.status

unfoldable pub set_waiting : Pointer → Pointer
set_waiting p =
    let q = record p { status = waiting } in
    if q.socket_open then record q { socket_open = false } else q

unfoldable pub set_unconnect : Pointer → Pointer
set_unconnect p =
    let q = record p { status = unconnect } in
    if q.socket_open then record q { socket_open = false; ws = false } else q

-- `m_pointer_ptr_umap[id]->`: a missing entry is inserted as a null pointer, and following it is a
-- fault.
unfoldable pub get_pointer : ℕ → Net → Result Pointer
get_pointer id w = or_fault (find id w.pointers) null_pointer

unfoldable pub set_pointer : ℕ → Pointer → Net → Net
set_pointer id p w = record w { pointers = assign id p w.pointers }

-- The loop of `net_worker::init`, for the slots from `id` on.
unfoldable pub init_slots : Allocator → ℕ → ℕ → ℕ → Dict Pointer → Dict Pointer
init_slots a max_recv_size zero id m = m
init_slots a max_recv_size (suc n) id m =
    init_slots a max_recv_size n (id + 1) (assign id (init_pointer a max_recv_size id) m)

-- `net_worker::init` on a new worker.
unfoldable pub init : Allocator → ℕ → ℕ → ℕ → Net
unfolding init_slots
init a max_recv_size reconnect_interval pointer_num = record {
  pointers = init_slots a max_recv_size pointer_num 1 [];
  outwards = [];
  max_recv_size = max_recv_size;
  reconnect_interval = reconnect_interval;
  pending = [];
  sent = [];
}

-- `pop_pointer`: the first free slot in the order of iteration becomes waiting; 0 if there is none.
unfoldable pub pop_pointer : Dict Pointer → Dict Pointer × ℕ
pop_pointer [] = ([], 0)
pop_pointer ((k, p) ∷ m) =
    let (rest, id) = pop_pointer m in
    if valid p then ((k, set_waiting p) ∷ m, p.id) else ((k, p) ∷ rest, id)

-- `pointer::read_start`: a read into the free part of the buffer, if the slot is still connected.
-- Both kinds of stream have the same handler.
unfoldable pub read_start : ℕ → Net → Result Net
read_start id w = do
  p ← get_pointer id w
  if is_connected p.status
      then ok (record w {
        pending = w.pending ++ reads id p.recv_size (w.max_recv_size - p.recv_size) ∷ [];
      })
      else ok w

-- `pointer::start`. A websocket takes the socket over, so that `m_socket` is no longer open, and
-- throws if the handshake fails.
unfoldable pub start : ℕ → Bool → Bool → Net → Result Net
start id ws handshake w = do
  p ← get_pointer id w
  let p = record p { status = connected }
  if ws
      then (if handshake
          then read_start id (set_pointer id (record p { ws = true; socket_open = false }) w)
          else fault bad_argument)
      else read_start id (set_pointer id p w)

-- `net_worker::send` and `pointer::send`: false without a slot or a connection; otherwise the frame is
-- packed and written.
unfoldable pub send : Env → ℕ → ℕ → List ℕ → ℕ → Net → Result (Net × Bool)
send env id msg_id body size w = elim (find id w.pointers) [
  | none ↦ ok (w, false)
  | some p ↦
      if is_connected p.status
      then (do
        bytes ← pack env.allocator msg_id body size
        if env.writable id bytes
            then ok (record w { sent = w.sent ++ (id, bytes) ∷ [] }, true)
            else fault bad_argument)
      else ok (w, false)
]
