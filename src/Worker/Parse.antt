-- ===== src/Worker/Parse.antt =====
-- pointer::parse_data of source/net_worker.hpp: the frames in a slot's receive buffer.
use f1985gfw.Base.{
  ℕ, zero, suc, ◌+◌, ◌-◌, true, false, List, take, drop, ltb, leb, if◌then◌else◌, Result, ok, fault,
  out_of_bounds, overlap, out_of_fuel, ◌>>=◌, or_fault, u16_read, write_at,
}
use f1985gfw.Worker.State.{Pointer, World, Hooks}
use f1985gfw.Worker.Slot.{get_pointer, set_pointer}
use f1985gfw.Worker.Close.{close, parse_msg}

-- The body of a message: `size` bytes of the buffer behind the header.
unfoldable pub body_at : List ℕ → ℕ → List ℕ
body_at buf size = take size (drop 4 buf)

-- What follows a good message: its bytes are dropped, and what remains is copied to the front by memcpy,
-- which is undefined if the bytes that remain reach over those that were dropped.
unfoldable pub consume : ℕ → Pointer → Result Pointer
consume package_size p =
    let left = p.recv_size - package_size in
    if ltb 0 left
    then (if ltb package_size left then fault overlap else do
      buf ← write_at p.recv_buf 0 (take left (drop package_size p.recv_buf))
      ok (record p { recv_buf = buf; recv_size = left }))
    else ok (record p { recv_size = left })

module _ {ℓ} {A : Type ℓ} (h : Hooks A) (id : ℕ) where
  -- The do-while loop. `package_size > m_recv_size` compares 32-bit numbers, both small.
  unfoldable pub parse_loop : ℕ → World A → Result (World A)
  parse_loop zero w = fault out_of_fuel
  parse_loop (suc fuel) w = do
    p ← get_pointer id w.net
    msg_id ← or_fault (u16_read p.recv_buf) out_of_bounds
    body_size ← or_fault (u16_read (drop 2 p.recv_buf)) out_of_bounds
    let package_size = body_size + 4
    if ltb p.recv_size package_size then ok w else do
      (w, good) ← parse_msg h id msg_id (body_at p.recv_buf body_size) w
      if good
          then (do
            p ← get_pointer id w.net
            p ← consume package_size p
            let w = record w { net = set_pointer id p w.net }
            elim (leb 4 p.recv_size) [ true ↦ parse_loop fuel w | false ↦ ok w ])
          else close h id w

  -- `parse_data`. After the close for a short buffer it goes on into the loop.
  unfoldable pub parse_data : World A → Result (World A)
  parse_data w = do
    p ← get_pointer id w.net
    w ← (if ltb p.recv_size 4 then close h id w else ok w)
    parse_loop (suc p.recv_size) w
