-- ===== src/Tests/Old.antt =====
-- 0old/server at small queues, connections and accounts.
use f1985gfw.Base.{
  ℕ, zero, ◌+◌, ◌≤◌, ◌<◌, ◌≡◌, refl, true, false, Option, none, some, List, [], ◌∷◌, ◌++◌, length,
  take, replicate, length-replicate, arith, ok, fault, out_of_bounds, frame, if◌then◌else◌,
}
use f1985gfw.Base.Dict.{Dict, find, assign}
use f1985gfw.Base.Texts.{Text, same_text, lookup}
use f1985gfw.Legacy.Queue.{Node, Queue, NetSession, empty_queue, enqueue, dequeue}
use f1985gfw.Legacy.Queue.Chain.{IsQueue}
use f1985gfw.Legacy.Queue.Fifo.{enqueue-IsQueue, dequeue-IsQueue}
use f1985gfw.Legacy.Connection.{
  Conn, Mgr, ErrorText, started, push_msg, parse_msg, get_conn, set_conn, wake, take_session,
  fill_send_buf,
}
use f1985gfw.Legacy.Connection.Parsing.{Repeated, first_msg, parse_msg-Repeated}
use f1985gfw.Legacy.Connection.Sending.{fill_send_buf-frame}
use f1985gfw.Legacy.Connection.Wake.{occurs, Awake}
use f1985gfw.Legacy.Connection.Interleaving.{Steps, still, then_step, pushes, takes, Steps-Awake}
use f1985gfw.Legacy.Queue.{enmt_read}
use f1985gfw.Legacy.Startup.{make_conns, Added, add_pconnection, add_pconnection-Added}
use f1985gfw.Legacy.Accounts.{
  Account, request, logged_in, password_error, register_user, login_user,
}
use f1985gfw.Legacy.Accounts.Login.{register-login}

abbrev session : Option ℕ → Node NetSession
session next = record {
  next = next;
  value = record { owner = 1; processing = false; msg_queue = empty_queue };
}

-- Two sessions in the queue, and a third that is not.
abbrev heap : Dict (Node NetSession)
heap = (10, session (some 20)) ∷ (20, session none) ∷ (30, session none) ∷ []

abbrev two_queue : Queue
two_queue = record { head_ptr = some 10; tail_ptr = some 20 }

two_queue-IsQueue : IsQueue heap two_queue (10 ∷ 20 ∷ [])
unfolding find
two_queue-IsQueue = record {
  linked = (session (some 20), refl, refl, (refl, refl, tt), (session none, refl, refl, tt, refl));
  tail = refl;
}

enqueue-IsQueue_example :
    (h : Dict (Node NetSession)) × (r : Queue) × (enqueue (some 30) heap two_queue ≡ ok (h, r))
    × IsQueue h r ((10 ∷ 20 ∷ []) ++ 30 ∷ [])
unfolding find
enqueue-IsQueue_example =
    enqueue-IsQueue heap two_queue (10 ∷ 20 ∷ []) 30 (session none) two_queue-IsQueue refl refl
      (refl, refl, (refl, refl, tt))

dequeue-IsQueue_example :
    (h : Dict (Node NetSession)) × (r : Queue) × (dequeue heap two_queue ≡ ok (h, r, some 10))
    × IsQueue h r (20 ∷ [])
    × (find 10 h ≡ some (record (session (some 20)) { next = none }))
unfolding find
dequeue-IsQueue_example =
    dequeue-IsQueue heap two_queue 10 (20 ∷ []) (session (some 20)) two_queue-IsQueue refl

abbrev pub zeros : ℕ → List ℕ
zeros n = replicate n 0

pub length-zeros : (n : ℕ) → length (zeros n) ≡ n
length-zeros n = length-replicate n zero

abbrev pub no_text : ErrorText → List ℕ → List ℕ
no_text text detail = detail

abbrev pub body : List ℕ
body = 5 ∷ 6 ∷ []

abbrev pub conn_of : List ℕ → ℕ → List ℕ → Conn
conn_of buf size send_buf = record {
  cid = 1;
  status = started;
  socket_open = true;
  recv_buf = buf;
  recv_size = size;
  send_buf = send_buf;
  msg_queue = [];
  processing = false;
}

-- The frame of a message, and as many bytes of another one behind it.
abbrev twice : Conn
twice = conn_of (frame 9 body ++ 8 ∷ 0 ∷ 2 ∷ 0 ∷ 7 ∷ 7 ∷ []) 12 []

abbrev pub mgr : Conn → Mgr
mgr conn = record { conns = (1, conn) ∷ []; session_queue = [] }

parse_msg-Repeated_example :
    (v : Mgr) × (parse_msg zeros no_text 13 1 none (mgr twice) ≡ ok v)
    × Repeated zeros no_text 1 none twice
        (first_msg zeros no_text 1 none 9 body [] (omega arith) (omega arith))
        2
        0
        v
unfolding find
parse_msg-Repeated_example =
    parse_msg-Repeated zeros no_text 1 none 9 body (8 ∷ 0 ∷ 2 ∷ 0 ∷ 7 ∷ 7 ∷ []) (omega arith)
      (omega arith) 2 0 (mgr twice) twice refl refl (omega arith) (omega arith)

fill_send_buf-frame_example :
    (length body ≤ 65531
      → (v : Conn) × (fill_send_buf zeros no_text 9 body (length body) (conn_of [] 0 (zeros 65535))
          ≡ ok v)
        × (take (4 + length body) v.send_buf ≡ frame 9 body))
    × (65531 < length body
        → fill_send_buf zeros no_text 9 body (length body) (conn_of [] 0 (zeros 65535))
          ≡ fault out_of_bounds)
fill_send_buf-frame_example =
    fill_send_buf-frame zeros no_text 9 body (conn_of [] 0 (zeros 65535)) (length-zeros 65535)

abbrev quiet_conn : Conn
quiet_conn = conn_of [] 0 []

abbrev woken : Mgr
woken = record {
  conns =
      (
        1,
        record quiet_conn {
          processing = true;
          msg_queue = record { kind = enmt_read; id = 9; size = 2; buffer = body } ∷ [];
        },
      )
      ∷ [];
  session_queue = 1 ∷ [];
}

quiet-Awake : Awake (mgr quiet_conn) []
unfolding find occurs
quiet-Awake = record { once = λ c conn e. ground arith; idle = λ c conn e f. ground arith }

first-Steps : Steps zeros no_text (mgr quiet_conn) [] (record woken { session_queue = [] }) (1 ∷ [])
unfolding find assign push_msg get_conn set_conn wake take_session
first-Steps =
    then_step (then_step still (pushes {v = woken} 1 enmt_read 9 (some body) 2 refl)) (takes 1 refl)

Steps-Awake_example : Awake (record woken { session_queue = [] }) (1 ∷ [])
Steps-Awake_example = Steps-Awake zeros no_text quiet-Awake first-Steps

add_pconnection-Added_example :
    Added (make_conns zeros 3 0) (add_pconnection (make_conns zeros 3 0))
add_pconnection-Added_example = add_pconnection-Added (make_conns zeros 3 0)

abbrev ann : Account
ann = record { nickname = b'a' ∷ []; password = b'x' ∷ [] }

register-login_example :
    (login_user
      (request (record ann { password = b'y' ∷ [] }))
      (register_user (request ann) []).0).1
    ≡ (if same_text ann.password (b'y' ∷ [])
        then logged_in (record ann { password = b'y' ∷ [] })
        else password_error)
unfolding lookup
register-login_example = register-login ann (b'y' ∷ []) [] refl

abbrev answer : Text → Text → ℕ → ℕ × Text
answer reply given s = (s + 1, reply)
