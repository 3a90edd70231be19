-- ===== src/Worker/Reuse.antt =====
-- What stays behind in a slot of net_worker (source/net_worker.hpp) when its connection is closed and
-- the slot is used again.
use f1985gfw.Base.{
  ℕ, ◌-◌, ◌≡◌, refl, ap, ◌∙◌, Bool, true, false, some, List, [], ◌∷◌, ◌++◌, take, length,
  if◌then◌else◌, Result, ok,
}
use f1985gfw.Base.Dict.{find, find-assign_self}
use f1985gfw.Worker.State.{World, Pointer, reads, Net, connected, unconnect}
use f1985gfw.Worker.Slot.{set_unconnect, set_pointer, start, read_start, get_pointer}
use f1985gfw.Worker.Closing.{set_unconnect-SameBuffer, SameBuffer}
use f1985gfw.Worker.Reading.{Got}
use f1985gfw.Worker.Frames.{Msg}

-- The state of a slot that start leaves.
abbrev started : Bool → Pointer → Pointer
started ws p = record p {
  status = connected;
  ws = if ws then true else p.ws;
  socket_open = if ws then false else p.socket_open;
}

-- start, with a good handshake if the stream is a websocket: the slot is connected, and one read is
-- pending, behind the bytes that the slot's buffer held before.
pub start_lem :
    (id : ℕ) (ws : Bool) (w : Net) (p : Pointer)
    → find id w.pointers ≡ some p
    → start id ws true w
      ≡ ok (record (set_pointer id (started ws p) w) {
        pending = w.pending ++ reads id p.recv_size (w.max_recv_size - p.recv_size) ∷ [];
      })
unfolding start read_start get_pointer set_pointer
start_lem id true w p found =
    rw (found, start) (rw (find-assign_self id (started true p) w.pointers) refl)
start_lem id false w p found =
    rw (found, start) (rw (find-assign_self id (started false p) w.pointers) refl)

-- A websocket is neither closed nor released by set_unconnect, for the slot's socket was moved into
-- it: only the status changes, and the stream stays in the slot.
pub set_unconnect-websocket :
    (p : Pointer)
    → (set_unconnect (started true p) ≡ record (started true p) { status = unconnect })
      × ((set_unconnect (started true p)).ws ≡ true)
unfolding set_unconnect
set_unconnect-websocket p = (refl, refl)

-- A slot whose connection is closed and that is used again for the next one.
unfoldable pub reuse : ℕ → Bool → Pointer → Net → Result Net
reuse id ws p w =
    let freed = set_unconnect p in
    start id ws true (set_pointer id (record freed { socket_open = true }) w)

-- If a slot with unread bytes is closed and started for the next connection, that connection begins
-- with the bytes that the last one left: they count as its own, and stand before all that it sends.
pub reuse-Got :
    {id size : ℕ} {msgs : List Msg} {unused : List ℕ} {w : World (List Msg)} (ws : Bool)
    → (g : Got id size msgs unused w)
    → (v : Net) × (reuse id ws g.slot w.net ≡ ok v) × Got id size msgs unused (record w { net = v })
unfolding reuse set_pointer
reuse-Got {id} {w} ws g = (
  _,
  start_lem id ws _ (record (set_unconnect g.slot) { socket_open = true })
      (find-assign_self id _ w.net.pointers),
  record {
    slot = started ws (record (set_unconnect g.slot) { socket_open = true });
    found = find-assign_self id _ _;
    online = refl;
    buffer = record {
      header = rw kept.buf g.buffer.header;
      within = rw (kept.buf, kept.size) g.buffer.within;
    };
    same_size = ap length kept.buf ∙ g.same_size;
    bytes =
        ap (λ (n : ℕ). take n (set_unconnect g.slot).recv_buf) kept.size
        ∙ ap (take g.slot.recv_size) kept.buf
        ∙ g.bytes;
    app = g.app;
  },
)
  where
    kept : SameBuffer g.slot (set_unconnect g.slot)
    kept = set_unconnect-SameBuffer g.slot
