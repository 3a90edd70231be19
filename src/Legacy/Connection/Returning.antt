-- ===== src/Legacy/Connection/Returning.antt =====
-- 0old/server: a message's way, from the bytes of a client through a worker and back to the socket.
use f1985gfw.Base.{
  ℕ, suc, ◌+◌, ◌-◌, ◌%◌, ◌≤◌, ◌<◌, ◌≡◌, refl, ap, sym, subst, ◌∙◌, true, false, none, some, List,
  [], ◌∷◌, ◌++◌, length, length-append, drop, arith, Result, ok, frame, le→ltb, lt→ltb, u16_bytes,
  u16_mod, append-nil, write_at, write_at-fits,
}
use f1985gfw.Base.Dict.{find, find-assign_self}
use f1985gfw.Legacy.Queue.{NetMsg, enmt_read, enmt_write}
use f1985gfw.Legacy.Connection.{
  Conn, Mgr, ErrorText, get_conn, set_conn, wake, push_msg, parse_msg, handle_read, next_msg,
  work_msg, on_message, buffer_size, header_len, emir_error,
}
use f1985gfw.Legacy.Connection.Parsing.{wake-find, Front, frame-Front}
use f1985gfw.Legacy.Connection.Echo.{work-echo, work-frame}
use f1985gfw.Legacy.Connection.Working.{
  serve_session, work_round, rested, next_msg-none, next_msg-some, work_round-taken,
}

module _ (memory : ℕ → List ℕ) (content : ErrorText → List ℕ → List ℕ) (members : List ℕ → List ℕ)
    (c id : ℕ) (body : List ℕ) (small : length body ≤ 65531) where
  abbrev read_msg : NetMsg
  read_msg = record { kind = enmt_read; id = id; size = length body; buffer = body }

  abbrev write_back : NetMsg
  write_back = record { kind = enmt_write; id = id; size = length body; buffer = body }

  -- The connection after its one message was taken out of the buffer.
  abbrev emptied : Conn → Conn
  emptied conn = record conn { recv_size = conn.recv_size - header_len - length body }

  abbrev filed : Conn → Conn
  filed conn = record (emptied conn) { msg_queue = conn.msg_queue ++ read_msg ∷ [] }

  wake-files :
      (conn : Conn) (m : Mgr)
      → conn.processing ≡ false
      → (wake c conn m).session_queue ≡ m.session_queue ++ c ∷ []
  unfolding wake
  wake-files conn m idle = rw (wake, idle) refl

  parse_msg-done :
      (fuel : ℕ) (m : Mgr) (conn : Conn)
      → find c m.conns ≡ some conn
      → conn.recv_size < header_len
      → parse_msg memory content (suc fuel) c none m ≡ ok m
  unfolding parse_msg get_conn
  parse_msg-done fuel m conn found few =
      let short = lt→ltb conn.recv_size header_len few in ground (arith, found, short)

  parse_msg-one :
      (fuel : ℕ) (m : Mgr) (conn : Conn)
      → find c m.conns ≡ some conn
      → Front id body conn.recv_buf
      → conn.recv_size ≡ 4 + length body
      → parse_msg memory content (suc (suc fuel)) c none m
        ≡ ok (wake c (filed conn) (set_conn c (emptied conn) m))
  unfolding parse_msg get_conn push_msg set_conn
  parse_msg-one fuel m conn found front size = rw found (
      rw
        (
          le→ltb conn.recv_size 4 (omega arith),
          front.id_read,
          front.size_read,
          le→ltb 65531 (length body) small,
          found,
          le→ltb (conn.recv_size - 4) (length body) (omega arith),
          find-assign_self c (emptied conn) m.conns,
          front.body_there,
        )
        (parse_msg-done fuel _ (record (filed conn) { processing = true })
          (wake-find c (filed conn) (set_conn c (emptied conn) m)) (omega arith)))

  module _ (conn : Conn) (idle : conn.processing ≡ false) (quiet : conn.msg_queue ≡ [])
      (empty : conn.recv_size ≡ 0) (room : length conn.recv_buf ≡ buffer_size)
      (sendable : length conn.send_buf ≡ buffer_size) where
    -- What a worker finds when the message has arrived.
    record Arrived (v : Mgr) : Type 0 where
      conn_then : Conn
      found : find c v.conns ≡ some conn_then
      queued : conn_then.msg_queue ≡ read_msg ∷ []
      busy : conn_then.processing ≡ true
      sendable_then : length conn_then.send_buf ≡ buffer_size
      filed_then : v.session_queue ≡ c ∷ []

    handle_read-Arrived :
        (m : Mgr)
        → id < u16_mod
        → find c m.conns ≡ some conn
        → m.session_queue ≡ []
        → (v : Mgr) × (handle_read memory content c (some (frame id body)) none m ≡ ok (v, true))
          × Arrived v
    unfolding handle_read get_conn frame set_conn
    handle_read-Arrived m fits found none_filed = (v, rw (found, stored, parsed) refl, arrived)
      where
        filled : Conn
        filled = record conn {
          recv_buf = frame id body ++ drop (0 + length (frame id body)) conn.recv_buf;
          recv_size = (conn.recv_size + length (frame id body)) % u16_mod;
        }

        v : Mgr
        v = wake c (filed filled) (set_conn c (emptied filled) (set_conn c filled m))

        n : ℕ
        n = length body

        whole : length (frame id body) ≡ 4 + n
        whole = omega (arith, length-append (u16_bytes id ++ u16_bytes n) body)

        stored :
            write_at conn.recv_buf conn.recv_size (frame id body)
            ≡ ok (frame id body ++ drop (0 + length (frame id body)) conn.recv_buf)
        stored =
            rw empty (write_at-fits conn.recv_buf 0 (frame id body) (omega (arith, room, whole)))

        size : filled.recv_size ≡ suc (3 + n)
        size = omega (arith, whole, empty)

        parsed : parse_msg memory content (suc filled.recv_size) c none (set_conn c filled m) ≡ ok v
        parsed =
            subst (λ (k : ℕ). parse_msg memory content (suc k) c none (set_conn c filled m) ≡ ok v)
              (sym size)
              (parse_msg-one (3 + n) (set_conn c filled m) filled
                (find-assign_self c filled m.conns)
                (frame-Front id body (drop (0 + length (frame id body)) conn.recv_buf) fits
                  (omega arith))
                (omega (arith, size)))

        arrived : Arrived v
        arrived = record {
          conn_then = record (filed filled) { processing = true };
          found = wake-find c (filed filled) (set_conn c (emptied filled) (set_conn c filled m));
          queued = ap (λ (msgs : List NetMsg). msgs ++ read_msg ∷ []) quiet;
          busy = refl;
          sendable_then = sendable;
          filed_then =
              wake-files (filed filled) (set_conn c (emptied filled) (set_conn c filled m)) idle
              ∙ ap (λ (cs : List ℕ). cs ++ c ∷ []) none_filed;
        }

    abbrev serve : ℕ → Mgr → Result (Mgr × List ℕ)
    serve = serve_session memory content (on_message members) (λ k. (none, none)) c

    turn :
        (fuel : ℕ) (m v w u : Mgr) (msg : NetMsg) (sent later : List ℕ)
        → next_msg c m ≡ ok (v, some msg)
        → work_msg memory content (on_message members) c msg none none v ≡ ok (w, sent)
        → serve fuel w ≡ ok (u, later)
        → serve (suc fuel) m ≡ ok (u, sent ++ later)
    unfolding serve_session
    turn fuel m v w u msg sent later next work rest = rw (serve_session, next, work, rest) refl

    last_turn :
        (fuel : ℕ) (m : Mgr) (at : Conn)
        → find c m.conns ≡ some at
        → at.msg_queue ≡ []
        → serve (suc fuel) m ≡ ok (set_conn c (rested at) m, [])
    unfolding serve_session
    last_turn fuel m at found queue = rw (serve_session, next_msg-none c m at found queue) refl

    wake-busy : (at : Conn) (m : Mgr) → at.processing ≡ true → wake c at m ≡ set_conn c at m
    unfolding wake
    wake-busy at m busy = rw (wake, busy) refl

    -- The worker's three turns: the message is answered, the answer is written, the queue is empty.
    work_round-Arrived :
        (x : ℕ) (xs : List ℕ) (m : Mgr)
        → emir_error < id
        → members body ≡ x ∷ xs
        → Arrived m
        → (w : Mgr) × (work_round memory content (on_message members) (λ k. (none, none)) 3 m
            ≡ ok (w, frame id body))
    unfolding set_conn
    work_round-Arrived x xs m high member arrived = (
      set_conn c (rested filled) (set_conn c filled m3),
      work_round-taken memory content members (λ k. (none, none)) c [] 3 m arrived.filed_then
          ∙ turn 2 m0 m1 m2 _ read_msg [] (frame id body ++ [])
              (next_msg-some c m0 old read_msg [] arrived.found arrived.queued)
              (work-echo memory content members c m1 taken (find-assign_self c taken m.conns) id
                  body x xs none none high member
                ∙ ap (λ (u : Mgr). ok (u, [])) (wake-busy answered m1 arrived.busy))
              (turn 1 m2 m3 _ _ write_back (frame id body) []
                (next_msg-some c m2 answered write_back [] (find-assign_self c answered m1.conns)
                  refl)
                write_done.1
                (last_turn 0 (set_conn c filled m3) filled (find-assign_self c filled m3.conns)
                  write_done.2))
          ∙ ap (λ (bytes : List ℕ). ok (set_conn c (rested filled) (set_conn c filled m3), bytes))
              (append-nil (frame id body)),
    )
      where
        old : Conn
        old = arrived.conn_then

        taken : Conn
        taken = record old { msg_queue = [] }

        answered : Conn
        answered = record old { msg_queue = write_back ∷ [] }

        m0 : Mgr
        m0 = record m { session_queue = [] }

        m1 : Mgr
        m1 = set_conn c taken m0

        m2 : Mgr
        m2 = set_conn c answered m1

        m3 : Mgr
        m3 = set_conn c taken m2

        write_done :
            (filled : Conn) × (work_msg memory content
                (on_message members)
                c
                write_back
                none
                none
                m3
              ≡ ok (set_conn c filled m3, frame id body))
            × (filled.msg_queue ≡ [])
        write_done =
            work-frame memory content members c m3 taken (find-assign_self c taken m2.conns) id body
              arrived.sendable_then small

        filled : Conn
        filled = write_done.0

    -- A message of at most 65531 bytes, with a member and a number above those that are reserved, that
    -- arrives as one frame on an idle connection with an empty receive buffer, while no session is
    -- filed: the socket's handler files the session and reads on, and the worker that takes it gives
    -- the same frame to write_some, in three rounds, if that ends without an error.
    pub message-returns :
        (x : ℕ) (xs : List ℕ) (m : Mgr)
        → id < u16_mod
        → emir_error < id
        → members body ≡ x ∷ xs
        → find c m.conns ≡ some conn
        → m.session_queue ≡ []
        → (v w : Mgr) × (handle_read memory content c (some (frame id body)) none m ≡ ok (v, true))
          × (work_round memory content (on_message members) (λ k. (none, none)) 3 v
              ≡ ok (w, frame id body))
    message-returns x xs m fits high member found none_filed =
        let (v, read, arrived) = handle_read-Arrived m fits found none_filed in
        let (w, written) = work_round-Arrived x xs v high member arrived in (v, w, read, written)
