-- ===== src/Legacy/Connection/Telling.antt =====
-- 0old/server/net_mgr/net_mgr.cpp: how much `push_msg` and `_close` add to a session's queue.
use f1985gfw.Base.{
  ℕ, ◌+◌, ◌≤◌, ◌≡◌, refl, true, false, Option, none, some, List, [], ◌∷◌, ◌++◌, take, arith, inl,
  inr, Bool-cases, Option-cases, ok,
}
use f1985gfw.Base.Dict.{find}
use f1985gfw.Legacy.Queue.{MsgType, enmt_read, enmt_write, NetMsg}
use f1985gfw.Legacy.Connection.{
  Mgr, ErrorText, get_conn, set_conn, push_msg, push_error, close_socket, close_failed,
  emir_disconnect, emir_error,
}
use f1985gfw.Legacy.Connection.Load.{
  is_reserved, worth, worths, worths-append, load, Within, Within->>=, load-set_conn, load-wake,
  load-found,
}

-- The message that `push_msg` makes.
abbrev pub pushed : (ℕ → List ℕ) → MsgType → ℕ → Option (List ℕ) → ℕ → NetMsg
pushed memory kind id source size = record {
  kind = kind;
  id = id;
  size = size;
  buffer = elim source [ none ↦ memory size | some bytes ↦ take size bytes ];
}

pub worth-write : (msg : NetMsg) → msg.kind ≡ enmt_write → worth msg ≡ 4
unfolding worth
worth-write msg kind = rw (worth, kind) refl

worth-read : (msg : NetMsg) → msg.kind ≡ enmt_read → is_reserved msg.id ≡ true → worth msg ≡ 1
unfolding worth
worth-read msg kind id = rw (worth, kind, id) refl

module _ (memory : ℕ → List ℕ) (content : ErrorText → List ℕ → List ℕ) (c : ℕ) where
  pub push_msg-Within :
      (kind : MsgType) (id : ℕ) (source : Option (List ℕ)) (size : ℕ) (m : Mgr) (n : ℕ)
      → load c m + worth (pushed memory kind id source size) ≤ n
      → Within (load c) n (push_msg memory content c kind id source size m)
  unfolding push_msg get_conn Within worths
  push_msg-Within kind id source size m n room = elim (Option-cases (find c m.conns)) [
    | inl missing ↦ rw (push_msg, missing) (λ e. cc)
    | inr (conn, found) ↦
        rw (push_msg, found)
          (omega (
            arith,
            load-wake c
                (record conn {
                  msg_queue = conn.msg_queue ++ pushed memory kind id source size ∷ [];
                })
                m,
            worths-append conn.msg_queue (pushed memory kind id source size ∷ []),
            load-found c conn m found,
          ))
  ]

  pub push_error-Within :
      (text : ErrorText) (detail : List ℕ) (m : Mgr) (n : ℕ)
      → load c m + 1 ≤ n
      → Within (load c) n (push_error memory content c text detail m)
  unfolding push_error is_reserved
  push_error-Within text detail m n room =
      push_msg-Within enmt_read emir_error (some (content text detail)) _ m n (
        omega (
          arith,
          worth-read (pushed memory enmt_read emir_error (some (content text detail)) _) refl refl,
        ))

  -- `_close` tells of an error and of the end.
  pub close_socket-Within :
      (failed : Option (List ℕ)) (m : Mgr) (n : ℕ)
      → load c m + 2 ≤ n
      → Within (load c) n (close_socket memory content c failed m)
  unfolding close_socket get_conn Within is_reserved
  close_socket-Within failed m n room = elim (Option-cases (find c m.conns)) [
    | inl missing ↦ rw (close_socket, missing) (λ e. cc)
    | inr (conn, found) ↦ elim (Bool-cases conn.socket_open) [
      | inl opened ↦
          rw (close_socket, found, opened)
            (Within->>= (load c) (load c) (load c m + 1) n _ _
              (told failed (set_conn c (record conn { socket_open = false }) m) (
                omega (
                  arith,
                  load-set_conn c (record conn { socket_open = false }) m,
                  load-found c conn m found,
                )))
              (λ v less. push_msg-Within enmt_read emir_disconnect none 0 v n (
                omega
                  (arith, worth-read (pushed memory enmt_read emir_disconnect none 0) refl refl))))
      | inr closed ↦ rw (close_socket, found, closed) (omega arith)
    ]
  ]
    where
      told :
          (failed : Option (List ℕ)) (v : Mgr)
          → load c v ≤ load c m
          → Within (load c) (load c m + 1) (elim failed [
            | none ↦ ok v
            | some detail ↦ push_error memory content c close_failed detail v
          ])
      told none v same = omega arith
      told (some detail) v same =
          push_error-Within close_failed detail v (load c m + 1) (omega arith)
