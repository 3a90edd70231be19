-- ===== src/Legacy/Connection/Echo.antt =====
-- 0old/server: a message that a client sends comes back.
use f1985gfw.Base.{
  ℕ, ◌≤◌, ◌<◌, ◌≡◌, refl, false, Option, none, some, List, [], ◌∷◌, ◌++◌, length, take, take-length,
  ◌==◌, arith, ok, frame,
}
use f1985gfw.Base.Dict.{find}
use f1985gfw.Legacy.Queue.{MsgType, enmt_read, enmt_write, NetMsg}
use f1985gfw.Legacy.Connection.{
  Conn, Mgr, ErrorText, get_conn, set_conn, wake, push_msg, on_message, push_replies, work_msg,
  write_msg, emir_error, buffer_size,
}
use f1985gfw.Legacy.Connection.Sending.{fill_send_buf-frame, fill_send_buf-keeps}

module _ (memory : ℕ → List ℕ) (content : ErrorText → List ℕ → List ℕ) (members : List ℕ → List ℕ)
    (c : ℕ) (m : Mgr) (conn : Conn) (found : find c m.conns ≡ some conn) (id : ℕ)
    (body : List ℕ) where
  abbrev pub message : MsgType → NetMsg
  message kind = record { kind = kind; id = id; size = length body; buffer = body }

  -- A worker that handles a client's message with a member, and a number that is not reserved, queues the
  -- same message to be written.
  pub work-echo :
      (x : ℕ) (xs : List ℕ) (error failed : Option (List ℕ))
      → emir_error < id
      → members body ≡ x ∷ xs
      → work_msg memory content (on_message members) c (message enmt_read) error failed m
        ≡ ok (wake c (record conn { msg_queue = conn.msg_queue ++ message enmt_write ∷ [] }) m, [])
  unfolding work_msg on_message push_replies push_msg get_conn
  work-echo x xs error failed high some_member =
      rw
        (
          apart 2 (omega arith),
          found,
          on_message,
          apart 1 (omega arith),
          apart 3 (omega arith),
          some_member,
          found,
          all,
        )
        refl
    where
      apart : (k : ℕ) → k < id → (id == k) ≡ false
      apart k h = ground arith

      all : take (length body) body ≡ body
      all = take-length (length body) body refl

  -- A worker that handles a message to write, of at most 65531 bytes, with a send buffer of 65535
  -- bytes and no error of the socket, gives its frame to write_some and leaves the queue alone.
  pub work-frame :
      length conn.send_buf ≡ buffer_size
      → length body ≤ 65531
      → (filled : Conn) × (work_msg memory content
            (on_message members)
            c
            (message enmt_write)
            none
            none
            m
          ≡ ok (set_conn c filled m, frame id body))
        × (filled.msg_queue ≡ conn.msg_queue)
  unfolding work_msg write_msg get_conn
  work-frame size small =
      let (filled, done, bytes) = (fill_send_buf-frame memory content id body conn size).0 small in
      (
        filled,
        rw (found, done, bytes) refl,
        fill_send_buf-keeps memory content id body (length body) conn filled done,
      )
