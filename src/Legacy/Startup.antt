-- ===== src/Legacy/Startup.antt =====
-- 0old/server/net_mgr/net_mgr.cpp: startup, and how connections are handed to accepts.
use f1985gfw.Base.{
  ℕ, zero, suc, ◌+◌, ◌%◌, ◌^◌, ◌≤◌, ◌≡◌, refl, ◌⊎◌, inl, inr, Bool, true, false, Option, none, some,
  List, [], ◌∷◌, length, if◌then◌else◌, arith, Result, ok, fault, null_pointer, ◌>>=◌, or_fault,
  Bool-cases,
}
use f1985gfw.Base.Dict.{Dict}
use f1985gfw.Legacy.Connection.{Conn, ConnStatus, useless, started, stopped, buffer_size}

abbrev pub is_useless : ConnStatus → Bool
is_useless useless = true
is_useless started = false
is_useless stopped = false

-- `_gen_cid`, on a uint32_t.
unfoldable pub gen_cid : ℕ → ℕ
gen_cid seed = (seed + 1) % 2 ^ 32

-- The constructor of `connection`: both buffers are malloc'ed blocks.
unfoldable pub new_conn : (ℕ → List ℕ) → ℕ → Conn
new_conn memory cid = record {
  cid = cid;
  status = useless;
  socket_open = false;
  recv_buf = memory buffer_size;
  recv_size = 0;
  send_buf = memory buffer_size;
  msg_queue = [];
  processing = false;
}

-- The loop of `startup` that makes the connections.
unfoldable pub make_conns : (ℕ → List ℕ) → ℕ → ℕ → Dict Conn
make_conns memory zero seed = []
make_conns memory (suc n) seed =
    (gen_cid seed, new_conn memory (gen_cid seed)) ∷ make_conns memory n (gen_cid seed)

-- `_add_pconnection`: the first useless connection is started; none is a null pointer.
unfoldable pub add_pconnection : Dict Conn → Dict Conn × Option ℕ
add_pconnection [] = ([], none)
add_pconnection ((c, conn) ∷ m) =
    let (rest, found) = add_pconnection m in
    if is_useless conn.status
    then ((c, record conn { status = started }) ∷ m, some c)
    else ((c, conn) ∷ rest, found)

-- `_accept_post`: the connection whose socket is given to async_accept.
unfoldable pub accept_post : Dict Conn → Result (Dict Conn × ℕ)
accept_post m = do
  let (rest, found) = add_pconnection m
  c ← or_fault found null_pointer
  ok (rest, c)

-- The loop of `startup` that posts one accept for each socket thread.
unfoldable pub accept_posts : ℕ → Dict Conn → Result (Dict Conn × List ℕ)
accept_posts zero m = ok (m, [])
accept_posts (suc n) m = do (m, c) ← accept_post m; (m, cs) ← accept_posts n m; ok (m, c ∷ cs)

-- How `startup` fails.
pub data Failure : Type 0 where
  open_failed reuse_failed bind_failed listen_failed : Failure

-- `startup`, given the errors of open, set_option, bind and listen, and the number of threads.
unfoldable pub startup :
    Bool → Bool → Bool → Bool → ℕ → Dict Conn → Result (Dict Conn × (Failure ⊎ List ℕ))
startup opened reusable bound listening threads m =
    if opened
    then (if reusable
        then (if bound
            then (if listening
                then (do (m, cs) ← accept_posts threads m; ok (m, inr cs))
                else ok (m, inl listen_failed))
            else ok (m, inl bind_failed))
        else ok (m, inl reuse_failed))
    else ok (m, inl open_failed)

-- How many connections are useless.
unfoldable pub idle_conns : Dict Conn → ℕ
idle_conns [] = 0
idle_conns ((c, conn) ∷ m) = (if is_useless conn.status then 1 else 0) + idle_conns m

pub data Added (m : Dict Conn) : Dict Conn × Option ℕ → Type 0 where
  all_used : idle_conns m ≡ 0 → Added m (m, none)
  added : {v : Dict Conn} (c : ℕ) → idle_conns v + 1 ≡ idle_conns m → Added m (v, some c)

Added-cons :
    (c : ℕ) (conn : Conn) (m : Dict Conn) (r : Dict Conn × Option ℕ)
    → is_useless conn.status ≡ false
    → Added m r
    → Added ((c, conn) ∷ m) ((c, conn) ∷ r.0, r.1)
unfolding idle_conns
Added-cons c conn m r busy (all_used e) = all_used (rw busy (omega (arith, e)))
Added-cons c conn m r busy (added d e) = added d (rw busy (omega (arith, e)))

-- Either every connection is in use, and then nothing changes and there is no connection, or one that was
-- useless is started and returned: one fewer is useless.
pub add_pconnection-Added : (m : Dict Conn) → Added m (add_pconnection m)
unfolding add_pconnection idle_conns
add_pconnection-Added [] = all_used refl
add_pconnection-Added ((c, conn) ∷ m) = elim (Bool-cases (is_useless conn.status)) [
  | inl free ↦ rw free (added c (rw free (omega arith)))
  | inr busy ↦ rw busy (Added-cons c conn m (add_pconnection m) busy (add_pconnection-Added m))
]

-- The connections that `startup` makes are all useless.
make_conns-idle : (memory : ℕ → List ℕ) (n seed : ℕ) → idle_conns (make_conns memory n seed) ≡ n
unfolding make_conns idle_conns new_conn
make_conns-idle memory zero seed = refl
make_conns-idle memory (suc n) seed = omega (arith, make_conns-idle memory n (gen_cid seed))

-- Each of `n` accepts has its own connection.
pub record Posted (n : ℕ) (m : Dict Conn) : Type 0 where
  pub after : Dict Conn
  pub conns : List ℕ
  pub done : accept_posts n m ≡ ok (after, conns)
  pub count : length conns ≡ n
  pub left : idle_conns after + n ≡ idle_conns m

accept_posts-idle : (n : ℕ) (m : Dict Conn) → n ≤ idle_conns m → Posted n m
unfolding accept_posts accept_post
accept_posts-idle zero m enough = record {
  after = m;
  conns = [];
  done = refl;
  count = refl;
  left = omega arith;
}
accept_posts-idle (suc n) m enough =
    go (accept_posts-idle n) (add_pconnection m) refl (add_pconnection-Added m)
  where
    go :
        ((v : Dict Conn) → n ≤ idle_conns v → Posted n v)
        → (r : Dict Conn × Option ℕ) → add_pconnection m ≡ r
        → Added m r
        → Posted (suc n) m
    go rest (_, _) e (all_used none_idle) = absurd (omega arith)
    go rest (_, _) e (added {v} c count) =
        let next = rest v (omega arith) in
        record {
          after = next.after;
          conns = c ∷ next.conns;
          done = rw (accept_post, e, next.done) refl;
          count = omega (arith, next.count);
          left = omega (arith, next.left);
        }

-- `startup` without an error, on the connections that it makes and with no more threads than these: each
-- thread has its own accept, and so many connections fewer are useless.
pub startup-listening :
    (memory : ℕ → List ℕ) (n threads : ℕ)
    → threads ≤ n
    → (v : Dict Conn) × (cs : List ℕ) × (startup true true true true threads (make_conns memory n 0)
        ≡ ok (v, inr cs))
      × (length cs ≡ threads)
      × (idle_conns v + threads ≡ n)
unfolding startup
startup-listening memory n threads enough =
    let idle = make_conns-idle memory n 0 in
    let posted = accept_posts-idle threads (make_conns memory n 0) (omega (arith, idle)) in
    (
      posted.after,
      posted.conns,
      rw (posted.done) refl,
      posted.count,
      omega (arith, idle, posted.left),
    )

-- With every connection in use, the next accept follows a null pointer.
pub accept_post-null : (m : Dict Conn) → idle_conns m ≡ 0 → accept_post m ≡ fault null_pointer
unfolding accept_post
accept_post-null m used = go (add_pconnection m) refl (add_pconnection-Added m)
  where
    go :
        (r : Dict Conn × Option ℕ)
        → add_pconnection m ≡ r
        → Added m r
        → accept_post m ≡ fault null_pointer
    go (_, _) e (all_used none_idle) = rw (accept_post, e) refl
    go (_, _) e (added {v} c count) = absurd (omega arith)
