-- ===== src/Legacy/Connection/Sending.antt =====
-- 0old/server/net_mgr/net_mgr.cpp: the send buffer.
use f1985gfw.Base.{
  >>=-split, sym, ℕ, ◌+◌, ◌≤◌, ◌<◌, ◌≡◌, refl, ap, ◌∙◌, List, ◌++◌, length, take, drop, arith,
  lt→leb, ok, fault, out_of_bounds, u16_bytes, frame, write_at, write_at-fits, length-write,
  take-length, take-write,
}
use f1985gfw.Worker.Closing.{ok-injective}
use f1985gfw.Legacy.Connection.{Conn, ErrorText, buffer_size, fill_send_buf}

-- `write_msg` puts the frame of a message into the send buffer of 65535 bytes if its body has at most
-- 65531 bytes, and writes beyond the buffer if it has more.
pub fill_send_buf-frame :
    (memory : ℕ → List ℕ) (content : ErrorText → List ℕ → List ℕ) (id : ℕ) (body : List ℕ)
    (conn : Conn)
    → length conn.send_buf ≡ buffer_size
    → (length body ≤ 65531
        → (v : Conn) × (fill_send_buf memory content id body (length body) conn ≡ ok v)
          × (take (4 + length body) v.send_buf ≡ frame id body))
      × (65531 < length body
          → fill_send_buf memory content id body (length body) conn ≡ fault out_of_bounds)
unfolding fill_send_buf write_at frame
fill_send_buf-frame memory content id body conn size = (fitting, overflow)
  where
    n : ℕ
    n = length body

    one : List ℕ
    one = take 0 conn.send_buf ++ u16_bytes id ++ drop (0 + 2) conn.send_buf

    two : List ℕ
    two = take 2 one ++ u16_bytes n ++ drop (2 + 2) one

    three : List ℕ
    three = take 4 two ++ body ++ drop (4 + n) two

    one_size : length one ≡ buffer_size
    one_size = length-write conn.send_buf 0 (u16_bytes id) (omega (arith, size)) ∙ size

    two_size : length two ≡ buffer_size
    two_size = length-write one 2 (u16_bytes n) (omega (arith, one_size)) ∙ one_size

    all : take n body ≡ body
    all = take-length n body refl

    first : write_at conn.send_buf 0 (u16_bytes id) ≡ ok one
    first = write_at-fits conn.send_buf 0 (u16_bytes id) (omega (arith, size))

    second : write_at one 2 (u16_bytes n) ≡ ok two
    second = write_at-fits one 2 (u16_bytes n) (omega (arith, one_size))

    header : take 4 two ≡ u16_bytes id ++ u16_bytes n
    header =
        take-write one 2 (u16_bytes n) (omega (arith, one_size))
        ∙ ap (λ (xs : List ℕ). xs ++ u16_bytes n)
            (take-write conn.send_buf 0 (u16_bytes id) (omega (arith, size)))

    fitting :
        length body ≤ 65531
        → (v : Conn) × (fill_send_buf memory content id body (length body) conn ≡ ok v)
          × (take (4 + length body) v.send_buf ≡ frame id body)
    fitting h = (
      record conn { send_buf = three },
      rw (first, second, all, write_at-fits two 4 body (omega (arith, two_size))) refl,
      take-write two 4 body (omega (arith, two_size)) ∙ ap (λ (xs : List ℕ). xs ++ body) header,
    )

    overflow :
        65531 < length body
        → fill_send_buf memory content id body (length body) conn ≡ fault out_of_bounds
    overflow h =
        rw (first, second, all, write_at, lt→leb (4 + n) (length two) (omega (arith, two_size)))
          refl

pub fill_send_buf-keeps :
    (memory : ℕ → List ℕ) (content : ErrorText → List ℕ → List ℕ) (id : ℕ) (source : List ℕ)
    (size : ℕ) (conn v : Conn)
    → fill_send_buf memory content id source size conn ≡ ok v
    → v.msg_queue ≡ conn.msg_queue
unfolding fill_send_buf
fill_send_buf-keeps memory content id source size conn v e =
    let (_, _, e1) = >>=-split (write_at conn.send_buf 0 (u16_bytes id)) _ e in
    let (two, _, e2) = >>=-split (write_at _ 2 (u16_bytes size)) _ e1 in
    let (_, _, e3) = >>=-split (write_at two 4 (take size source)) _ e2 in
    ap (λ (conn : Conn). conn.msg_queue) (sym (ok-injective e3))
