-- ===== src/Legacy/Connection.antt =====
-- 0old/server/net_mgr/net_mgr.{h,cpp}: the connections and their sessions. The two queues are lists here,
-- oldest first, which is what the linked queues are seen as.
pub mod Parsing
pub mod Sending
pub mod Wake
pub mod Interleaving
pub mod Echo
pub mod Load
pub mod Telling
pub mod Duties
pub mod Working
pub mod Returning
pub mod Ending
pub mod Idling
use f1985gfw.Base.{
  ℕ, zero, suc, ◌+◌, ◌-◌, ◌%◌, ◌≡◌, Bool, true, false, not, ◌&&◌, Option, none, some, List, [], ◌∷◌,
  ◌++◌, length, take, drop, ltb, ◌==◌, if◌then◌else◌, Result, ok, fault, null_pointer,
  out_of_bounds, out_of_fuel, bad_argument, ◌||◌, ◌>>=◌, or_fault, u16_read, u16_bytes, u16_mod,
  write_at,
}
use f1985gfw.Base.Dict.{Dict, find, assign}
use f1985gfw.Legacy.Queue.{MsgType, enmt_read, enmt_write, enmt_none, NetMsg}

abbrev pub header_len : ℕ
header_len = 4

-- RECV_BUFFER_SIZE and SEND_BUFFER_SIZE.
abbrev pub buffer_size : ℕ
buffer_size = 65535

-- EMsgIDReserve.
abbrev pub emir_connect : ℕ
emir_connect = 1

abbrev pub emir_disconnect : ℕ
emir_disconnect = 2

abbrev pub emir_error : ℕ
emir_error = 3

-- EConnectionStatus.
pub data ConnStatus : Type 0 where
  useless started stopped : ConnStatus

-- `connection`, with its session: `recv_buf` is the memory at m_recv_buf_ptr.
pub record Conn : Type 0 where
  pub cid : ℕ
  pub status : ConnStatus
  pub socket_open : Bool
  pub recv_buf : List ℕ
  pub recv_size : ℕ
  pub send_buf : List ℕ
  pub msg_queue : List NetMsg
  pub processing : Bool

-- `net_mgr`: its connections by number, and the session queue.
pub record Mgr : Type 0 where
  pub conns : Dict Conn
  pub session_queue : List ℕ

-- The texts of the error messages: the source's words, and what the system's error says.
pub data ErrorText : Type 0 where
  remote_endpoint remote_address write_some read_some read_zero close_failed too_big : ErrorText

unfoldable pub get_conn : ℕ → Mgr → Result Conn
get_conn c m = or_fault (find c m.conns) null_pointer

unfoldable pub set_conn : ℕ → Conn → Mgr → Mgr
set_conn c conn m = record m { conns = assign c conn m.conns }

unfoldable pub set_status : ℕ → ConnStatus → Mgr → Result Mgr
set_status c status m = do conn ← get_conn c m; ok (set_conn c (record conn { status = status }) m)

-- The callback of `push_msg`, under the queue's mutex: the session is filed for the workers unless it is
-- filed or worked on already.
unfoldable pub wake : ℕ → Conn → Mgr → Mgr
wake c conn m =
    if conn.processing
    then set_conn c conn m
    else record (set_conn c (record conn { processing = true }) m) {
      session_queue = m.session_queue ++ c ∷ [];
    }

-- `memory` is what malloc's blocks hold, `content` the text of an error.
module _ (memory : ℕ → List ℕ) (content : ErrorText → List ℕ → List ℕ) where
  -- `push_msg`; `source` is none for a null pointer.
  unfoldable pub push_msg : ℕ → MsgType → ℕ → Option (List ℕ) → ℕ → Mgr → Result Mgr
  push_msg c kind id source size m = do
    let buffer : List ℕ = elim source [ none ↦ memory size | some bytes ↦ take size bytes ]
    conn ← get_conn c m
    let msg : NetMsg = record { kind = kind; id = id; size = size; buffer = buffer }
    ok (wake c (record conn { msg_queue = conn.msg_queue ++ msg ∷ [] }) m)

  -- The size of a text becomes a uint16_t.
  unfoldable pub push_error : ℕ → ErrorText → List ℕ → Mgr → Result Mgr
  push_error c text detail m =
      push_msg c enmt_read emir_error (some (content text detail))
        (length (content text detail) % u16_mod) m

  -- `_close`; `failed` is the error of the socket's close.
  unfoldable pub close_socket : ℕ → Option (List ℕ) → Mgr → Result Mgr
  close_socket c failed m = do
    conn ← get_conn c m
    if conn.socket_open
        then (do
          let m = set_conn c (record conn { socket_open = false }) m
          m ← elim failed [ none ↦ ok m | some detail ↦ push_error c close_failed detail m ]
          push_msg c enmt_read emir_disconnect none 0 m)
        else ok m

  -- The loop of `_parse_msg`: the buffer's start is read in every round, and m_recv_size alone changes.
  unfoldable pub parse_msg : ℕ → ℕ → Option (List ℕ) → Mgr → Result Mgr
  parse_msg zero c failed m = fault out_of_fuel
  parse_msg (suc fuel) c failed m = do
    conn ← get_conn c m
    if ltb conn.recv_size header_len then ok m else do
      id ← or_fault (u16_read conn.recv_buf) out_of_bounds
      size ← or_fault (u16_read (drop 2 conn.recv_buf)) out_of_bounds
      m ←
          (if ltb (buffer_size - header_len) size
            then (do m ← push_error c too_big [] m; close_socket c failed m)
            else ok m)
      conn ← get_conn c m
      if ltb (conn.recv_size - header_len) size then ok m else do
        let m = set_conn c (record conn { recv_size = conn.recv_size - header_len - size }) m
        m ← push_msg c enmt_read id (some (drop header_len conn.recv_buf)) size m
        parse_msg fuel c failed m

  -- The handler of `_read_post`: none is an error, otherwise the bytes that were stored behind
  -- m_recv_size. The next read is posted when it ends without a close.
  unfoldable pub handle_read : ℕ → Option (List ℕ) → Option (List ℕ) → Mgr → Result (Mgr × Bool)
  handle_read c none failed m = do
    m ← push_error c read_some [] m
    m ← close_socket c failed m
    ok (m, false)
  handle_read c (some []) failed m = do
    m ← push_error c read_zero [] m
    m ← close_socket c failed m
    ok (m, false)
  handle_read c (some (b ∷ bs)) failed m = do
    conn ← get_conn c m
    buf ← write_at conn.recv_buf conn.recv_size (b ∷ bs)
    let conn = record conn {
      recv_buf = buf;
      recv_size = (conn.recv_size + length (b ∷ bs)) % u16_mod;
    }
    m ← parse_msg (suc conn.recv_size) c failed (set_conn c conn m)
    ok (m, true)

  -- `write_msg` up to the socket's write: the bytes in the send buffer. Nothing checks that they fit.
  unfoldable pub fill_send_buf : ℕ → List ℕ → ℕ → Conn → Result Conn
  fill_send_buf id source size conn = do
    buf ← write_at conn.send_buf 0 (u16_bytes id)
    buf ← write_at buf 2 (u16_bytes size)
    buf ← write_at buf 4 (take size source)
    ok (record conn { send_buf = buf })

  -- `write_msg`: the bytes that are given to write_some, and an error that closes the connection. How many
  -- of the bytes it takes is not looked at.
  unfoldable pub write_msg :
      ℕ → ℕ → List ℕ → ℕ → Option (List ℕ) → Option (List ℕ) → Mgr → Result (Mgr × List ℕ)
  write_msg c id source size error failed m = do
    conn ← get_conn c m
    conn ← fill_send_buf id source size conn
    let m = set_conn c conn m
    m ← elim error [
      | none ↦ ok m
      | some detail ↦ do m ← push_error c write_some detail m; close_socket c failed m
    ]
    ok (m, take (4 + size) conn.send_buf)

  -- `connected`, up to the first read: the errors of remote_endpoint and of to_string, and the text of
  -- the address.
  unfoldable pub announce : ℕ → Option (List ℕ) → Option (List ℕ) → List ℕ → Mgr → Result Mgr
  announce c no_endpoint no_address address m = do
    m ← elim no_endpoint [ none ↦ ok m | some detail ↦ push_error c remote_endpoint detail m ]
    m ← elim no_address [ none ↦ ok m | some detail ↦ push_error c remote_address detail m ]
    push_msg c enmt_read emir_connect (some address) (length address % u16_mod) m

-- The first line of a worker's loop.
unfoldable pub take_session : Mgr → Mgr × Option ℕ
take_session m = elim m.session_queue [
  | [] ↦ (m, none)
  | c ∷ cs ↦ (record m { session_queue = cs }, some c)
]

-- The dequeue in a worker's inner loop, with its callback for an empty queue, under the queue's mutex.
unfoldable pub next_msg : ℕ → Mgr → Result (Mgr × Option NetMsg)
next_msg c m = do
  conn ← get_conn c m
  elim conn.msg_queue [
    | [] ↦ ok (
      set_conn c
          (record conn {
            processing = false;
            status = elim conn.status [ useless ↦ useless | started ↦ started | stopped ↦ useless ];
          })
          m,
      none,
    )
    | msg ∷ msgs ↦ ok (set_conn c (record conn { msg_queue = msgs }) m, some msg)
  ]

-- The callback of the application: the connection's number and a message in, messages to send out.
abbrev pub MessageCb : Type 0
MessageCb = ℕ → NetMsg → Result (List (ℕ × List ℕ × ℕ))

-- `on_message` of 0old/server/main.cpp: what it is told of itself is only printed, any other message is
-- sent back. `members` are those that protobuf finds in a body; `data.member(0)` aborts if there is none.
unfoldable pub on_message : (List ℕ → List ℕ) → MessageCb
on_message members cid msg =
    if msg.id == emir_connect || msg.id == emir_disconnect || msg.id == emir_error
    then ok []
    else elim (members msg.buffer) [
      | [] ↦ fault bad_argument
      | _ ∷ _ ↦ ok ((msg.id, msg.buffer, msg.size) ∷ [])
    ]

module _ (memory : ℕ → List ℕ) (content : ErrorText → List ℕ → List ℕ) where
  -- The calls of `back_cb`: each pushes a message to write.
  unfoldable pub push_replies : ℕ → List (ℕ × List ℕ × ℕ) → Mgr → Result Mgr
  push_replies c [] m = ok m
  push_replies c ((id, body, size) ∷ replies) m = do
    m ← push_msg memory content c enmt_write id (some body) size m
    push_replies c replies m

  -- What a worker does with a message that it has taken, given the errors of the socket: the bytes that it
  -- gives to write_some.
  unfoldable pub work_msg :
      MessageCb → ℕ → NetMsg → Option (List ℕ) → Option (List ℕ) → Mgr → Result (Mgr × List ℕ)
  work_msg callback c msg error failed m = elim msg.kind [
    | enmt_none ↦ ok (m, [])
    | enmt_read ↦ do
      m ← (if msg.id == emir_disconnect then set_status c stopped m else ok m)
      conn ← get_conn c m
      replies ← callback conn.cid msg
      m ← push_replies c replies m
      ok (m, [])
    | enmt_write ↦ write_msg memory content c msg.id msg.buffer msg.size error failed m
  ]
