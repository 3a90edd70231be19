-- ===== src/Legacy/Accepting.antt =====
-- 0old/server/net_mgr/net_mgr.cpp: the handler of `_accept_post`.
use f1985gfw.Base.{
  some-eq, ℕ, ◌+◌, ◌≡◌, refl, ◌∙◌, sym, ap, Bool, true, false, Option, none, some, List, [], ◌∷◌,
  ◌==◌, if◌then◌else◌, arith, inl, inr, Bool-cases, Result, ok, fault, null_pointer, ◌>>=◌,
  or_fault,
}
use f1985gfw.Base.Dict.{Dict, find, assign, find-assign_self}
use f1985gfw.Legacy.Queue.{MsgType, enmt_read}
use f1985gfw.Legacy.Connection.{
  Conn, ConnStatus, Mgr, ErrorText, get_conn, set_conn, wake, push_msg, push_error, close_socket,
  announce, remote_endpoint, remote_address, emir_connect, emir_error,
}
use f1985gfw.Legacy.Startup.{
  accept_post, idle_conns, is_useless, Added, all_used, added, add_pconnection,
  add_pconnection-Added,
}

-- The accept on the socket of a connection has ended, with the errors that `connected` meets or with that of
-- closing the socket; the connection that the next accept is for. A connection that is `accepted` has an
-- open socket.
module _ (memory : ℕ → List ℕ) (content : ErrorText → List ℕ → List ℕ) (c : ℕ) where
  unfoldable pub handle_accept :
      Bool
      → Option (List ℕ)
      → Option (List ℕ)
      → List ℕ
      → Option (List ℕ)
      → Mgr
      → Result (Mgr × Option ℕ)
  handle_accept true no_endpoint no_address address failed m = do
    conn ← get_conn c m
    m ←
        announce memory content c no_endpoint no_address address
          (set_conn c (record conn { socket_open = true }) m)
    (conns, next) ← accept_post m.conns
    ok (record m { conns = conns }, some next)
  handle_accept false no_endpoint no_address address failed m = do
    m ← close_socket memory content c failed m
    ok (m, none)

idle-assign :
    (c : ℕ) (old new : Conn) (m : Dict Conn)
    → find c m ≡ some old
    → new.status ≡ old.status
    → idle_conns (assign c new m) ≡ idle_conns m
unfolding find assign idle_conns
idle-assign c old new [] found same = cc
idle-assign c old new ((d, conn) ∷ m) found same = elim (Bool-cases (d == c)) [
  | inl here ↦ rw here (
      omega (
        arith,
        ap {B = ℕ} (λ (status : ConnStatus). if is_useless status then 1 else 0)
            (same ∙ ap (λ (v : Conn). v.status) (sym (some-eq (rw here at found)))),
      ))
  | inr away ↦ rw away (omega (arith, idle-assign c old new m (rw away at found) same))
]

-- A step after which the connection is still there and as many are useless.
data Told (c : ℕ) (m : Mgr) : Result Mgr → Type 0 where
  told :
      {v : Mgr} (conn : Conn)
      → find c v.conns ≡ some conn
      → idle_conns v.conns ≡ idle_conns m.conns
      → Told c m (ok v)

module _ (memory : ℕ → List ℕ) (content : ErrorText → List ℕ → List ℕ) (c : ℕ) where
  put-Told :
      (m : Mgr) (old new : Conn)
      → find c m.conns ≡ some old
      → new.status ≡ old.status
      → Told c m (ok (set_conn c new m))
  unfolding set_conn
  put-Told m old new found same =
      told new (find-assign_self c new m.conns) (idle-assign c old new m.conns found same)

  wake-Told :
      (m : Mgr) (old new : Conn)
      → find c m.conns ≡ some old
      → new.status ≡ old.status
      → Told c m (ok (wake c new m))
  unfolding wake set_conn
  wake-Told m old new found same = elim (Bool-cases new.processing) [
    | inl busy ↦ simp busy (put-Told m old new found same)
    | inr free ↦ simp free (
        told (record new { processing = true })
          (find-assign_self c (record new { processing = true }) m.conns)
          (idle-assign c old (record new { processing = true }) m.conns found same))
  ]

  push_msg-Told :
      (kind : MsgType) (id : ℕ) (source : Option (List ℕ)) (size : ℕ) (m : Mgr) (conn : Conn)
      → find c m.conns ≡ some conn
      → Told c m (push_msg memory content c kind id source size m)
  unfolding push_msg get_conn
  push_msg-Told kind id source size m conn found =
      rw (push_msg, found) (wake-Told m conn _ found refl)

  Told->>= :
      {m : Mgr} {r : Result Mgr} (next : Mgr → Result Mgr)
      → Told c m r
      → ((v : Mgr) (conn : Conn) → find c v.conns ≡ some conn → Told c v (next v))
      → Told c m (r >>= next)
  Told->>= next (told {v} conn found same) rest = after (rest v conn found) same
    where
      after :
          {a b : Mgr} {r : Result Mgr}
          → Told c b r
          → idle_conns b.conns ≡ idle_conns a.conns
          → Told c a r
      after (told conn found more) same = told conn found (more ∙ same)

  -- `connected` puts messages into the queue of its connection, and no connection becomes useless by it.
  announce-Told :
      (no_endpoint no_address : Option (List ℕ)) (address : List ℕ) (m : Mgr) (conn : Conn)
      → find c m.conns ≡ some conn
      → Told c m (announce memory content c no_endpoint no_address address m)
  unfolding announce push_error
  announce-Told no_endpoint no_address address m conn found =
      Told->>= _ (failing remote_endpoint no_endpoint m conn found) (λ v conn found.
        Told->>= _ (failing remote_address no_address v conn found)
          (λ w conn found. push_msg-Told enmt_read emir_connect (some address) _ w conn found))
    where
      failing :
          (text : ErrorText) (error : Option (List ℕ)) (v : Mgr) (conn : Conn)
          → find c v.conns ≡ some conn
          → Told c v
              (elim error [ none ↦ ok v | some detail ↦ push_error memory content c text detail v ])
      failing text none v conn found = told conn found refl
      failing text (some detail) v conn found =
          push_msg-Told enmt_read emir_error (some (content text detail)) _ v conn found

  -- How an accept that has succeeded ends: every connection was in use, and the next accept follows a null
  -- pointer; or the next accept is for a connection that was useless, and one fewer is.
  pub data Accepted (m : Mgr) : Result (Mgr × Option ℕ) → Type 0 where
    none_left : idle_conns m.conns ≡ 0 → Accepted m (fault null_pointer)
    goes_on :
        {w : Mgr} (d : ℕ)
        → idle_conns w.conns + 1 ≡ idle_conns m.conns
        → Accepted m (ok (w, some d))

  posted-Accepted :
      (m v : Mgr)
      → idle_conns v.conns ≡ idle_conns m.conns
      → Accepted m
          (do (conns, next) ← accept_post v.conns; ok (record v { conns = conns }, some next))
  unfolding accept_post
  posted-Accepted m v same = go (add_pconnection v.conns) (add_pconnection-Added v.conns)
    where
      go :
          (r : Dict Conn × Option ℕ)
          → Added v.conns r
          → Accepted m (do
            (conns, next) ← (do d ← or_fault r.1 null_pointer; ok (r.0, d))
            ok (record v { conns = conns }, some next))
      go (_, _) (all_used e) = none_left (sym same ∙ e)
      go (_, _) (added d e) = goes_on d (e ∙ same)

  -- An accept that succeeds opens its connection's socket, tells of it and hands a useless connection to the
  -- next accept, so that one fewer is useless; it follows a null pointer if every connection is in use.
  pub handle_accept-Accepted :
      (no_endpoint no_address : Option (List ℕ)) (address : List ℕ) (failed : Option (List ℕ))
      (m : Mgr) (conn : Conn)
      → find c m.conns ≡ some conn
      → Accepted m (handle_accept memory content c true no_endpoint no_address address failed m)
  unfolding handle_accept get_conn
  handle_accept-Accepted no_endpoint no_address address failed m conn found = rw found (
      posting (
        Told->>= (announce memory content c no_endpoint no_address address)
          (put-Told m conn (record conn { socket_open = true }) found refl)
          (announce-Told no_endpoint no_address address)))
    where
      posting :
          {r : Result Mgr}
          → Told c m r
          → Accepted m (do
            v ← r
            (conns, next) ← accept_post v.conns
            ok (record v { conns = conns }, some next))
      posting (told {v} conn found same) = posted-Accepted m v same

  -- An accept that fails, on a socket that was never opened, changes nothing: its connection stays in use,
  -- and no accept follows.
  pub handle_accept-refused :
      (no_endpoint no_address : Option (List ℕ)) (address : List ℕ) (failed : Option (List ℕ))
      (m : Mgr) (conn : Conn)
      → find c m.conns ≡ some conn
      → conn.socket_open ≡ false
      → handle_accept memory content c false no_endpoint no_address address failed m ≡ ok (m, none)
  unfolding handle_accept close_socket get_conn
  handle_accept-refused no_endpoint no_address address failed m conn found shut =
      rw (handle_accept, close_socket, found, shut) refl
