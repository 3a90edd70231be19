-- ===== src/Tests/Echoes.antt =====
-- 0old/server at a session with a client's message, the greeting and the end of its connection.
use f1985gfw.Base.{
  ◌≢◌, false, inl, inr, ◌≡◌, ok, none, frame, ℕ, refl, true, some, Option, List, [], ◌∷◌, arith,
}
use f1985gfw.Base.Dict.{find}
use f1985gfw.Legacy.Queue.{NetMsg, enmt_read}
use f1985gfw.Legacy.Connection.{Conn, Mgr, stopped, on_message, handle_read}
use f1985gfw.Legacy.Connection.Load.{load, worth, worths, is_reserved}
use f1985gfw.Legacy.Connection.Working.{work_round}
use f1985gfw.Legacy.Connection.Ending.{Fine, AllFine}
use f1985gfw.Legacy.Connection.Idling.{work_round-Idle}
use f1985gfw.Legacy.Connection.Returning.{message-returns}
use f1985gfw.Tests.Old.{zeros, no_text, body, conn_of, mgr, length-zeros}

abbrev msg_of : ℕ → NetMsg
msg_of id = record { kind = enmt_read; id = id; size = 2; buffer = body }

abbrev talker : Conn
talker = record (conn_of [] 0 (zeros 65535)) {
  msg_queue = msg_of 1 ∷ msg_of 9 ∷ msg_of 2 ∷ [];
  processing = true;
}

abbrev filed : Mgr
filed = record { conns = (1, talker) ∷ []; session_queue = 1 ∷ [] }

abbrev all_members : List ℕ → List ℕ
all_members bytes = bytes

-- Every write fails, and so does the close behind it.
abbrev broken : ℕ → Option (List ℕ) × Option (List ℕ)
broken k = (some [], some [])

talker-AllFine : AllFine zeros no_text all_members talker.msg_queue
unfolding AllFine Fine is_reserved
talker-AllFine = (inl refl, (inr (refl, omega arith, 5, 6 ∷ [], refl), (inl refl, tt)))

work_round-Idle_example :
    (v : Mgr) × (sent : List ℕ) × (after : Conn) × (work_round zeros no_text
        (on_message all_members)
        broken
        8
        filed
      ≡ ok (v, sent))
    × (find 1 v.conns ≡ some after)
    × (after.processing ≡ false)
    × (after.msg_queue ≡ [])
    × (after.status ≢ stopped)
unfolding find load worth worths is_reserved
work_round-Idle_example =
    work_round-Idle zeros no_text all_members 1 broken talker [] 8 filed refl (length-zeros 65535)
      talker-AllFine refl (omega arith)

abbrev listener : Conn
listener = record (conn_of [] 0 (zeros 65535)) { recv_buf = zeros 65535 }

message-returns_example :
    (v w : Mgr) × (handle_read zeros no_text 1 (some (frame 9 body)) none (mgr listener)
      ≡ ok (v, true))
    × (work_round zeros no_text (on_message all_members) (λ k. (none, none)) 3 v
        ≡ ok (w, frame 9 body))
unfolding find
message-returns_example =
    message-returns zeros no_text all_members 1 9 body (omega arith) listener refl refl refl
      (length-zeros 65535) (length-zeros 65535) 5 (6 ∷ []) (mgr listener) (omega arith)
      (omega arith) refl refl refl
