-- ===== src/Legacy/Connection/Parsing.antt =====
-- 0old/server/net_mgr/net_mgr.cpp: what `_parse_msg` hands over.
use f1985gfw.Base.{
  ℕ, zero, suc, ◌+◌, ◌-◌, ◌*◌, ◌≤◌, ◌<◌, ◌≡◌, refl, sym, ap, ◌∙◌, subst, true, Option, some, List,
  [], ◌∷◌, ◌++◌, length, take, drop, replicate, ltb, arith, inl, inr, Bool-cases, ltb→le, lt→ltb,
  le→ltb, ok, u16_read, u16_bytes-value, u16_mod, frame, append_assoc, append-nil,
  take-append_front,
}
use f1985gfw.Base.Dict.{find, find-assign_self}
use f1985gfw.Legacy.Queue.{enmt_read, NetMsg}
use f1985gfw.Legacy.Connection.{
  Conn, Mgr, ErrorText, buffer_size, header_len, get_conn, set_conn, wake, push_msg, parse_msg,
}

pub wake-find :
    (c : ℕ) (conn : Conn) (m : Mgr)
    → find c (wake c conn m).conns ≡ some (record conn { processing = true })
unfolding wake set_conn
wake-find c conn m = ground (
  arith,
  find-assign_self c conn m.conns,
  find-assign_self c (record conn { processing = true }) m.conns,
)

-- The header and the body at the front of a buffer.
pub record Front (id : ℕ) (body : List ℕ) (buf : List ℕ) : Type 0 where
  pub id_read : u16_read buf ≡ some id
  pub size_read : u16_read (drop 2 buf) ≡ some (length body)
  pub body_there : take (length body) (drop header_len buf) ≡ body

pub frame-Front :
    (id : ℕ) (body more : List ℕ)
    → id < u16_mod
    → length body < u16_mod
    → Front id body (frame id body ++ more)
unfolding frame
frame-Front id body more h k = record {
  id_read = ap some (u16_bytes-value id h);
  size_read = ap some (u16_bytes-value (length body) k);
  body_there = take-append_front (length body) body more refl;
}

module _ (memory : ℕ → List ℕ) (content : ErrorText → List ℕ → List ℕ) (c : ℕ)
    (failed : Option (List ℕ)) where
  -- What the loop leaves: `k` times the same message behind those that were queued, and `r` bytes.
  pub record Repeated (conn : Conn) (msg : NetMsg) (k r : ℕ) (v : Mgr) : Type 0 where
    pub conn_after : Conn
    pub found : find c v.conns ≡ some conn_after
    pub queued : conn_after.msg_queue ≡ conn.msg_queue ++ replicate k msg
    pub left : conn_after.recv_size ≡ r
    pub buffer : conn_after.recv_buf ≡ conn.recv_buf

  module _ (id : ℕ) (body more : List ℕ) (id_fits : id < u16_mod)
      (fits : length body ≤ buffer_size - header_len) where
    abbrev pub first_msg : NetMsg
    first_msg = record { kind = enmt_read; id = id; size = length body; buffer = body }

    repeats :
        (fuel k r : ℕ) (m : Mgr) (conn : Conn)
        → find c m.conns ≡ some conn
        → Front id body conn.recv_buf
        → conn.recv_size ≡ k * (4 + length body) + r
        → r < 4 + length body
        → k < fuel
        → (v : Mgr) × (parse_msg memory content fuel c failed m ≡ ok v)
          × Repeated conn first_msg k r v
    unfolding parse_msg get_conn push_msg set_conn
    repeats zero k r m conn found front size part enough = absurd (omega arith)
    repeats (suc fuel) zero r m conn found front size part enough =
        elim (Bool-cases (ltb conn.recv_size header_len)) [
          | inl short ↦ (m, ground (arith, found, short), still)
          | inr long ↦ (
            m,
            rw found (
                rw
                  (
                    long,
                    front.id_read,
                    front.size_read,
                    le→ltb 65531 (length body) fits,
                    found,
                    lt→ltb (conn.recv_size - 4) (length body) (omega (arith, ltb→le _ _ long)),
                  )
                  refl),
            still,
          )
        ]
      where
        still : Repeated conn first_msg 0 r m
        still = record {
          conn_after = conn;
          found = found;
          queued = sym (append-nil conn.msg_queue);
          left = size ∙ omega arith;
          buffer = refl;
        }
    repeats (suc fuel) (suc k) r m conn found front size part enough =
        let again = wake-find c pushed next in
        let (v, done, rest) =
          repeats fuel k r (wake c pushed next) (record pushed { processing = true }) again front
            (omega arith) part (omega arith) in
        (
          v,
          rw found (
              rw
                (
                  le→ltb conn.recv_size 4 (omega arith),
                  front.id_read,
                  front.size_read,
                  le→ltb 65531 (length body) fits,
                  found,
                  le→ltb (conn.recv_size - 4) (length body) (omega arith),
                  find-assign_self c shorter m.conns,
                  front.body_there,
                )
                done),
          record {
            conn_after = rest.conn_after;
            found = rest.found;
            queued =
                rest.queued ∙ append_assoc conn.msg_queue (first_msg ∷ []) (replicate k first_msg);
            left = rest.left;
            buffer = rest.buffer;
          },
        )
      where
        shorter : Conn
        shorter = record conn { recv_size = conn.recv_size - header_len - length body }

        next : Mgr
        next = set_conn c shorter m

        pushed : Conn
        pushed = record shorter { msg_queue = conn.msg_queue ++ first_msg ∷ [] }

    -- `_parse_msg` never moves the bytes behind a message to the front. On a buffer that begins with
    -- a message of at most 65531 bytes whose number fits 16 bits, and of which `k` times the size of
    -- that message's frame and fewer bytes than one more are filled, it hands over that first
    -- message `k` times, whatever the other bytes are, and counts the few bytes as unread.
    pub parse_msg-Repeated :
        (k r : ℕ) (m : Mgr) (conn : Conn)
        → find c m.conns ≡ some conn
        → conn.recv_buf ≡ frame id body ++ more
        → conn.recv_size ≡ k * (4 + length body) + r
        → r < 4 + length body
        → (v : Mgr) × (parse_msg memory content (suc conn.recv_size) c failed m ≡ ok v)
          × Repeated conn first_msg k r v
    parse_msg-Repeated k r m conn found starts size part =
        repeats (suc conn.recv_size) k r m conn found
          (subst (Front id body) (sym starts) (frame-Front id body more id_fits (omega arith))) size
          part (omega (arith, rounds k))
      where
        rounds : (k : ℕ) → k ≤ k * (4 + length body)
        rounds zero = omega arith
        rounds (suc k) = omega (arith, rounds k)
