-- ===== src/Legacy/Connection/Ending.antt =====
-- 0old/server/net_mgr/net_mgr.cpp: a worker that serves a session with messages that it can handle comes to an
-- end.
use f1985gfw.Base.{
  ℕ, ◌+◌, ◌≤◌, ◌≡◌, refl, ◌∙◌, true, false, Option, none, some, List, [], ◌∷◌, ◌++◌, length,
  length-take, take, drop, arith, inl, inr, ◌⊎◌, Bool-cases, Result, ok, fault, ◌>>=◌,
  write_at-fits, length-write, u16_bytes,
}
use f1985gfw.Base.Dict.{find, find-assign_self}
use f1985gfw.Legacy.Queue.{MsgType, enmt_read, enmt_write, enmt_none, NetMsg}
use f1985gfw.Legacy.Connection.{
  Conn, Mgr, ErrorText, close_failed, get_conn, set_conn, push_msg, push_error, close_socket,
  fill_send_buf, buffer_size, emir_disconnect, emir_error,
}
use f1985gfw.Legacy.Connection.Parsing.{wake-find}
use f1985gfw.Legacy.Connection.Load.{is_reserved}
use f1985gfw.Legacy.Connection.Telling.{pushed}
use f1985gfw.Legacy.Connection.Working.{}

-- A result that is not a fault, with a property.
unfoldable pub Ends {ℓ} : {A : Type ℓ} → (A → Type 0) → Result A → Type 0
Ends P (fault f) = ⊥
Ends P (ok v) = P v

pub Ends->>= {ℓ₁ ℓ₂} :
    {A : Type ℓ₁} {B : Type ℓ₂} (P : A → Type 0) (Q : B → Type 0) (r : Result A)
    (next : A → Result B)
    → Ends P r
    → ((v : A) → P v → Ends Q (next v))
    → Ends Q (r >>= next)
unfolding Ends
Ends->>= P Q (fault f) next e rest = absurd e
Ends->>= P Q (ok v) next e rest = rest v e

-- A connection's send buffer stays as it is, and holds what a message of so many bytes needs.
pub fill_send_buf-room :
    (memory : ℕ → List ℕ) (content : ErrorText → List ℕ → List ℕ) (id : ℕ) (source : List ℕ)
    (size : ℕ) (conn : Conn)
    → length conn.send_buf ≡ buffer_size
    → size ≤ 65531
    → (buf : List ℕ) × (fill_send_buf memory content id source size conn
        ≡ ok (record conn { send_buf = buf }))
      × (length buf ≡ buffer_size)
unfolding fill_send_buf
fill_send_buf-room memory content id source size conn room small =
    let one = take 0 conn.send_buf ++ u16_bytes id ++ drop (0 + 2) conn.send_buf in
    let two = take 2 one ++ u16_bytes size ++ drop (2 + 2) one in
    let body = take size source in
    let three = take 4 two ++ body ++ drop (4 + length body) two in
    let one_size : length one ≡ buffer_size =
      length-write conn.send_buf 0 (u16_bytes id) (omega (arith, room)) ∙ room in
    let two_size : length two ≡ buffer_size =
      length-write one 2 (u16_bytes size) (omega (arith, one_size)) ∙ one_size in
    let fits : 4 + length body ≤ length two =
      omega (arith, two_size, length-take size source, small) in
    (
      three,
      rw
          (
            write_at-fits conn.send_buf 0 (u16_bytes id) (omega (arith, room)),
            write_at-fits one 2 (u16_bytes size) (omega (arith, one_size)),
            write_at-fits two 4 body fits,
          )
          refl,
      length-write two 4 body fits ∙ two_size,
    )

module _ (memory : ℕ → List ℕ) (content : ErrorText → List ℕ → List ℕ)
    (members : List ℕ → List ℕ) where
  -- A message that a worker can handle: one to write fits the send buffer, and so does one of a client, which
  -- has a member.
  unfoldable pub Fine : NetMsg → Type 0
  Fine msg = elim msg.kind [
    | enmt_none ↦ Unit {0}
    | enmt_read ↦
        (is_reserved msg.id ≡ true)
        ⊎ ((is_reserved msg.id ≡ false)
            × (msg.size ≤ 65531)
            × (x : ℕ) × (xs : List ℕ) × (members msg.buffer ≡ x ∷ xs))
    | enmt_write ↦ msg.size ≤ 65531
  ]

  unfoldable pub AllFine : List NetMsg → Type 0
  AllFine [] = Unit {0}
  AllFine (msg ∷ msgs) = Fine msg × AllFine msgs

  AllFine-append : (xs ys : List NetMsg) → AllFine xs → AllFine ys → AllFine (xs ++ ys)
  unfolding AllFine
  AllFine-append [] ys hx hy = hy
  AllFine-append (x ∷ xs) ys hx hy = (hx.0, AllFine-append xs ys hx.1 hy)

  module _ (c : ℕ) where
    -- A connection that a worker can serve.
    pub record Tame (m : Mgr) : Type 0 where
      pub conn : Conn
      pub found : find c m.conns ≡ some conn
      pub room : length conn.send_buf ≡ buffer_size
      pub fine : AllFine conn.msg_queue

    pub set_conn-Tame :
        (conn : Conn) (m : Mgr)
        → length conn.send_buf ≡ buffer_size
        → AllFine conn.msg_queue
        → Tame (set_conn c conn m)
    unfolding set_conn
    set_conn-Tame conn m room fine = record {
      conn = conn;
      found = find-assign_self c conn m.conns;
      room = room;
      fine = fine;
    }

    pub push_msg-Tame :
        (kind : MsgType) (id : ℕ) (source : Option (List ℕ)) (size : ℕ) (m : Mgr)
        → Tame m
        → Fine (pushed memory kind id source size)
        → Ends Tame (push_msg memory content c kind id source size m)
    unfolding push_msg get_conn Ends AllFine
    push_msg-Tame kind id source size m t fine =
        let msg = pushed memory kind id source size in
        rw (push_msg, t.found)
          (record {
            conn = record t.conn { msg_queue = t.conn.msg_queue ++ msg ∷ []; processing = true };
            found = wake-find c (record t.conn { msg_queue = t.conn.msg_queue ++ msg ∷ [] }) m;
            room = t.room;
            fine = AllFine-append t.conn.msg_queue (msg ∷ []) t.fine (fine, tt);
          })

    pub push_error-Tame :
        (text : ErrorText) (detail : List ℕ) (m : Mgr)
        → Tame m
        → Ends Tame (push_error memory content c text detail m)
    unfolding push_error Fine is_reserved
    push_error-Tame text detail m t = push_msg-Tame enmt_read emir_error _ _ m t (inl refl)

    pub close_socket-Tame :
        (failed : Option (List ℕ)) (m : Mgr)
        → Tame m
        → Ends Tame (close_socket memory content c failed m)
    unfolding close_socket get_conn Ends Fine is_reserved
    close_socket-Tame failed m t = elim (Bool-cases t.conn.socket_open) [
      | inl opened ↦
          rw (close_socket, t.found, opened)
            (Ends->>= Tame Tame _ _
              (told failed (set_conn c (record t.conn { socket_open = false }) m)
                (set_conn-Tame (record t.conn { socket_open = false }) m t.room t.fine))
              (λ v u. push_msg-Tame enmt_read emir_disconnect none 0 v u (inl refl)))
      | inr closed ↦ rw (close_socket, t.found, closed) t
    ]
      where
        told :
            (failed : Option (List ℕ)) (v : Mgr)
            → Tame v
            → Ends Tame (elim failed [
              | none ↦ ok v
              | some detail ↦ push_error memory content c close_failed detail v
            ])
        told none v u = u
        told (some detail) v u = push_error-Tame close_failed detail v u
