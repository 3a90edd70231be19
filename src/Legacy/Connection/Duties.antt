-- ===== src/Legacy/Connection/Duties.antt =====
-- 0old/server/net_mgr/net_mgr.cpp: what a worker does with a message leaves less to do than the message.
use f1985gfw.Base.{
  ℕ, suc, ◌+◌, ◌*◌, ◌≤◌, refl, Bool, true, false, Option, none, some, List, [], ◌∷◌, length, take,
  ◌==◌, if◌then◌else◌, arith, inl, inr, Bool-cases, Option-cases, Result, ok, fault, bad_argument,
  ◌>>=◌, write_at, leb, u16_bytes,
}
use f1985gfw.Base.Dict.{find}
use f1985gfw.Legacy.Queue.{enmt_write, NetMsg}
use f1985gfw.Legacy.Connection.{
  Conn, stopped, Mgr, ErrorText, get_conn, set_conn, set_status, push_error, close_socket,
  fill_send_buf, write_msg, write_some, emir_disconnect, on_message, push_replies, work_msg,
}
use f1985gfw.Legacy.Connection.Load.{
  is_reserved, worth, worths, load, Within, Within->>=, load_of, load-set_conn, load-found,
  get_conn-Within, set_status-Within, kinds,
}
use f1985gfw.Legacy.Connection.Telling.{
  pushed, worth-write, push_msg-Within, push_error-Within, close_socket-Within,
}

module _ (memory : ℕ → List ℕ) (content : ErrorText → List ℕ → List ℕ) (c : ℕ) where
  write_at-Within :
      (mem : List ℕ) (at : ℕ) (xs : List ℕ) → Within (λ (buf : List ℕ). 0) 0 (write_at mem at xs)
  unfolding write_at Within
  write_at-Within mem at xs = elim (Bool-cases (leb (at + length xs) (length mem))) [
    | inl fits ↦ rw (write_at, fits) (omega arith)
    | inr over ↦ rw (write_at, over) (λ e. cc)
  ]

  -- The send buffer has no part in the work to do.
  fill_send_buf-Within :
      (id : ℕ) (source : List ℕ) (size : ℕ) (conn : Conn)
      → Within
          (λ (v : Conn). worths v.msg_queue)
          (worths conn.msg_queue)
          (fill_send_buf memory content id source size conn)
  unfolding fill_send_buf Within
  fill_send_buf-Within id source size conn =
      Within->>= (λ (buf : List ℕ). 0) (λ (v : Conn). worths v.msg_queue) 0 _ _ _
        (write_at-Within conn.send_buf 0 (u16_bytes id))
        (λ one _.
          Within->>= (λ (buf : List ℕ). 0) (λ (v : Conn). worths v.msg_queue) 0 _ _ _
            (write_at-Within one 2 (u16_bytes size))
            (λ two _.
              Within->>= (λ (buf : List ℕ). 0) (λ (v : Conn). worths v.msg_queue) 0 _ _ _
                (write_at-Within two 4 (take size source)) (λ three _. omega arith)))

  -- `write_msg` tells of at most three things.
  write_msg-Within :
      (id : ℕ) (source : List ℕ) (size : ℕ) (error failed : Option (List ℕ)) (m : Mgr) (n : ℕ)
      → load c m + 3 ≤ n
      → Within (load_of c) n (write_msg memory content c id source size error failed m)
  unfolding write_msg get_conn Within
  write_msg-Within id source size error failed m n room = elim (Option-cases (find c m.conns)) [
    | inl missing ↦ rw (write_msg, missing) (λ e. cc)
    | inr (conn, found) ↦
        rw (write_msg, found)
          (Within->>= (λ (v : Conn). worths v.msg_queue) (load_of c) (worths conn.msg_queue) n _ _
            (fill_send_buf-Within id source size conn)
            (λ filled less.
              Within->>= (load c) (load_of c) n n _ _
                (told error (set_conn c filled m)
                  (omega (arith, load-set_conn c filled m, load-found c conn m found)))
                (λ v done. done)))
  ]
    where
      told :
          (error : Option (List ℕ)) (v : Mgr)
          → load c v + 3 ≤ n
          → Within (load c) n (elim error [
            | none ↦ ok v
            | some detail ↦ do
              v ← push_error memory content c write_some detail v
              close_socket memory content c failed v
          ])
      told none v h = omega arith
      told (some detail) v h =
          Within->>= (load c) (load c) (load c v + 1) n _ _
            (push_error-Within memory content c write_some detail v (load c v + 1) (omega arith))
            (λ w less. close_socket-Within memory content c failed w n (omega arith))

  push_replies-Within :
      (replies : List (ℕ × List ℕ × ℕ)) (m : Mgr) (n : ℕ)
      → load c m + 4 * length replies ≤ n
      → Within (load c) n (push_replies memory content c replies m)
  unfolding push_replies Within
  push_replies-Within [] m n room = omega arith
  push_replies-Within ((id, body, size) ∷ replies) m n room =
      Within->>= (load c) (load c) (load c m + 4) n _ _
        (push_msg-Within memory content c enmt_write id (some body) size m (load c m + 4)
          (omega (arith, worth-write (pushed memory enmt_write id (some body) size) refl)))
        (λ v less. push_replies-Within replies v n (omega arith))

  module _ (members : List ℕ → List ℕ) where
    -- `on_message` answers no reserved message, and any other with one message or with an abort.
    on_message-Within :
        (cid : ℕ) (msg : NetMsg)
        → Within length (if is_reserved msg.id then 0 else 1) (on_message members cid msg)
    unfolding on_message is_reserved Within
    on_message-Within cid msg = elim (Bool-cases (is_reserved msg.id)) [
      | inl reserved ↦ rw (on_message, reserved) (omega arith)
      | inr free ↦ rw (on_message, free) (answered (members msg.buffer))
    ]
      where
        answered :
            (found : List ℕ)
            → Within length 1 (elim found as (λ xs. Result (List (ℕ × List ℕ × ℕ))) [
              | [] ↦ fault bad_argument
              | _ ∷ _ ↦ ok ((msg.id, msg.buffer, msg.size) ∷ [])
            ])
        answered [] = λ e. cc
        answered (x ∷ xs) = omega arith

    read-Within :
        (msg : NetMsg) (m : Mgr) (n : ℕ)
        → load c m + 4 * (if is_reserved msg.id then 0 else 1) ≤ n
        → Within (load_of c) n (do
          m ← (if msg.id == emir_disconnect then set_status c stopped m else ok m)
          conn ← get_conn c m
          replies ← on_message members conn.cid msg
          m ← push_replies memory content c replies m
          ok (m, []))
    unfolding Within
    read-Within msg m n room =
        Within->>= (load c) (load_of c) (load c m) n _ _ (marked (msg.id == emir_disconnect))
          (λ v same.
            Within->>= (λ (conn : Conn). 0) (load_of c) 0 n _ _ (get_conn-Within c v)
              (λ conn _.
                Within->>= length (load_of c) _ n _ _ (on_message-Within conn.cid msg)
                  (λ replies few.
                    Within->>= (load c) (load_of c) n n _ _
                      (push_replies-Within replies v n (omega arith)) (λ w done. done))))
      where
        marked :
            (ends : Bool)
            → Within (load c) (load c m) (if ends then set_status c stopped m else ok m)
        marked true = set_status-Within c stopped m
        marked false = omega arith

    -- What a worker does with a message leaves less to do than the message was worth.
    pub work_msg-Within :
        (msg : NetMsg) (error failed : Option (List ℕ)) (m : Mgr) (n : ℕ)
        → load c m + worth msg ≤ suc n
        → Within (load_of c) n (work_msg memory content (on_message members) c msg error failed m)
    unfolding work_msg worth Within
    work_msg-Within msg error failed m n room = elim (kinds msg.kind) [
      | inl other ↦ rw (work_msg, other) (omega (arith, rw (worth, other) at room))
      | inr (inl reading) ↦
          rw (work_msg, reading)
            (read-Within msg m n (spare (is_reserved msg.id) (rw (worth, reading) at room)))
      | inr (inr writing) ↦
          rw (work_msg, writing)
            (write_msg-Within msg.id msg.buffer msg.size error failed m n
              (omega (arith, rw (worth, writing) at room)))
    ]
      where
        spare :
            (b : Bool)
            → load c m + (if b then 1 else 5) ≤ suc n
            → load c m + 4 * (if b then 0 else 1) ≤ n
        spare true h = omega arith
        spare false h = omega arith
