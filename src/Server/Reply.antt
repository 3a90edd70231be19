-- ===== src/Server/Reply.antt =====
-- Replies of the server: msg_send_guard of source/common.hpp over net_worker's send.
use f1985gfw.Base.{
  ℕ, ◌+◌, ◌%◌, ◌≤◌, ◌<◌, ◌≡◌, ◌≢◌, refl, true, false, none, some, List, [], ◌∷◌, ◌++◌, length, take,
  drop, arith, ok, write_at-fits, Option-cases, u16_mod, frame, inl, inr, lt→ltb, le→ltb,
  length-append, take-append,
}
use f1985gfw.Base.Dict.{find}
use f1985gfw.Packet.{Allocator, Packet, IsValid, create, write_data, size_mod}
use f1985gfw.Packet.Write.{write_data-null}
use f1985gfw.Packet.Pack.{IsAmple, create-IsValid, create-offset, pack-frame}
use f1985gfw.Worker.State.{Pointer, Status, unconnect, waiting, connected, Net, Env}
use f1985gfw.Worker.Slot.{send, is_connected}
use f1985gfw.Server.Sessions.{send_guard, int_max}

-- `send` through a connected slot, with memory at hand and a socket that takes the bytes: one frame
-- goes out, with the first `size` bytes of the body.
pub send-frame :
    (env : Env) (id msg_id : ℕ) (body : List ℕ) (size : ℕ) (w : Net) (p : Pointer)
    → find id w.pointers ≡ some p
    → p.status ≡ connected
    → IsAmple env.allocator
    → size ≤ length body
    → size < u16_mod
    → env.writable id (frame msg_id (take size body)) ≡ true
    → send env id msg_id body size w
      ≡ ok (record w { sent = w.sent ++ (id, frame msg_id (take size body)) ∷ [] }, true)
unfolding send
send-frame env id msg_id body size w p found online ample enough small writable =
    rw (found, send, online, pack-frame env.allocator ample msg_id body size enough small, writable)
      refl

not_connected : (s : Status) → s ≢ connected → is_connected s ≡ false
not_connected unconnect h = refl
not_connected waiting h = refl
not_connected connected h = absurd (h refl)

-- A message that is sent to a slot that is not connected is dropped: nothing is sent and the result
-- is false.
pub send-offline :
    (env : Env) (id msg_id : ℕ) (body : List ℕ) (size : ℕ) (w : Net)
    → ((p : Pointer) → find id w.pointers ≡ some p → p.status ≢ connected)
    → send env id msg_id body size w ≡ ok (w, false)
unfolding send
send-offline env id msg_id body size w offline = elim (Option-cases (find id w.pointers)) [
  | inl missing ↦ rw (missing, send) refl
  | inr (p, found) ↦ rw (found, send, not_connected p.status (offline p found)) refl
]

module _ (env : Env) (id msg_id : ℕ) (reply : List ℕ) (w : Net) (p : Pointer)
    (found : find id w.pointers ≡ some p) (online : p.status ≡ connected)
    (ample : IsAmple env.allocator) (small : length reply < size_mod) where
  -- Through a connected slot, with memory at hand: a reply of at most INT_MAX bytes is sent in one frame,
  -- if the socket takes it, of which the size is taken modulo 65536, so that a longer reply is cut; a reply
  -- of more than INT_MAX and less than 2 ^ 64 bytes is not sent.
  pub send_guard-frame :
      (length reply ≤ int_max
        → env.writable id (frame msg_id (take (length reply % u16_mod) reply)) ≡ true
        → send_guard env id msg_id reply w
          ≡ ok (record w {
            sent = w.sent ++ (id, frame msg_id (take (length reply % u16_mod) reply)) ∷ [];
          }))
      × (int_max < length reply → send_guard env id msg_id reply w ≡ ok w)
  unfolding send_guard
  send_guard-frame = (sent, dropped)
    where
      a : Allocator
      a = env.allocator

      valid : IsValid (create a)
      valid = create-IsValid a (ample.creates _)

      start : (create a).offset ≡ 0
      start = create-offset a

      written :
          (q : Packet) × (write_data a (create a) none (length reply)
            ≡ ok (q, some (create a).offset))
          × IsValid q
          × (q.offset ≡ (create a).offset + length reply)
      written = elim (write_data-null a (create a) valid (length reply) (omega (arith, start))) [
        | inl (_, _, e) ↦ absurd (ample.extends _ _ e)
        | inr (q, e, v, at_end, _) ↦ (q, e, v, at_end)
      ]

      dropped : int_max < length reply → send_guard env id msg_id reply w ≡ ok w
      dropped long = let (q, e, _, _) = written in rw (e, lt→ltb int_max (length reply) long) refl

      sent :
          length reply ≤ int_max
          → env.writable id (frame msg_id (take (length reply % u16_mod) reply)) ≡ true
          → send_guard env id msg_id reply w
            ≡ ok (record w {
              sent = w.sent ++ (id, frame msg_id (take (length reply % u16_mod) reply)) ∷ [];
            })
      sent short writable =
          let (q, e, v, at_end) = written in
          let size : q.offset ≡ length reply = omega (arith, start, at_end) in
          let room : 0 + length reply ≤ length q.mem = omega (arith, v.block, v.within, size) in
          let front =
            take-append (length reply % u16_mod) reply (drop (0 + length reply) q.mem)
              (omega arith) in
          rw (e, le→ltb int_max (length reply) short, start, write_at-fits q.mem 0 reply room)
            (rw
              (
                size,
                send-frame env id msg_id (reply ++ drop (0 + length reply) q.mem)
                    (length reply % u16_mod) w p found online ample
                    (omega (arith, length-append reply (drop (0 + length reply) q.mem)))
                    (omega arith) (rw front writable),
                front,
              )
              refl)
