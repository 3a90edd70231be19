-- ===== src/Legacy/Connection/Wake.antt =====
-- 0old/server/net_mgr/net_mgr.cpp: what a message does to the session that it wakes.
use f1985gfw.Base.{
  fault≢ok, ℕ, ◌+◌, ◌≡◌, refl, subst, true, false, Option, some, List, [], ◌∷◌, ◌++◌, ◌==◌,
  if◌then◌else◌, arith, inl, inr, Bool-cases, Option-cases, ◌⊎◌, ok,
}
use f1985gfw.Base.Dict.{Dict, find, assign, find-assign}
use f1985gfw.Worker.Closing.{ok-injective}
use f1985gfw.Legacy.Queue.{MsgType}
use f1985gfw.Legacy.Connection.{
  Conn, ConnStatus, Mgr, ErrorText, get_conn, set_conn, wake, set_status, push_msg,
}

-- How often a connection stands in a list.
unfoldable pub occurs : ℕ → List ℕ → ℕ
occurs c [] = 0
occurs c (d ∷ ds) = (if d == c then 1 else 0) + occurs c ds

pub occurs-append : (c : ℕ) (xs ys : List ℕ) → occurs c (xs ++ ys) ≡ occurs c xs + occurs c ys
unfolding occurs
occurs-append c [] ys = omega arith
occurs-append c (x ∷ xs) ys = omega (arith, occurs-append c xs ys)

-- A session is filed or worked on exactly once while it is marked as processing, and never otherwise;
-- and its queue is empty unless it is so marked.
pub record Awake (m : Mgr) (ws : List ℕ) : Type 0 where
  pub once :
      (c : ℕ) (conn : Conn)
      → find c m.conns ≡ some conn
      → occurs c m.session_queue + occurs c ws ≡ (if conn.processing then 1 else 0)
  pub idle :
      (c : ℕ) (conn : Conn)
      → find c m.conns ≡ some conn
      → conn.processing ≡ false
      → conn.msg_queue ≡ []

pub assigned :
    (c d : ℕ) (new conn : Conn) (m : Dict Conn)
    → find d (assign c new m) ≡ some conn
    → ((c ≡ d) × (new ≡ conn)) ⊎ (((c == d) ≡ false) × (find d m ≡ some conn))
assigned c d new conn m e = ground (arith, find-assign d c new m)

pub set_conn-Awake :
    (m : Mgr) (ws : List ℕ) (c : ℕ) (old new : Conn)
    → find c m.conns ≡ some old
    → new.processing ≡ old.processing
    → (new.processing ≡ false → new.msg_queue ≡ [])
    → Awake m ws
    → Awake (set_conn c new m) ws
unfolding set_conn
set_conn-Awake m ws c old new found same kept inv = record {
  once = λ d conn e. elim (assigned c d new conn m.conns e) [
    | inl (at, is) ↦ ground (arith, inv.once c old found, at, is, same)
    | inr (_, e') ↦ inv.once d conn e'
  ];
  idle = λ d conn e f. elim (assigned c d new conn m.conns e) [
    | inl (at, is) ↦ ground (arith, is, kept, f)
    | inr (_, e') ↦ inv.idle d conn e' f
  ];
}

wake-Awake :
    (m : Mgr) (ws : List ℕ) (c : ℕ) (old new : Conn)
    → find c m.conns ≡ some old
    → new.processing ≡ old.processing
    → Awake m ws
    → Awake (wake c new m) ws
unfolding wake set_conn occurs
wake-Awake m ws c old new found same inv = elim (Bool-cases new.processing) [
  | inl busy ↦
      subst (λ (v : Mgr). Awake v ws) (woken busy)
        (set_conn-Awake m ws c old new found same (λ f. cc) inv)
  | inr free ↦ rw free (record {
    once = λ d conn e. elim (assigned c d (record new { processing = true }) conn m.conns e) [
      | inl (at, is) ↦
          ground
            (arith, inv.once c old found, at, is, same, occurs-append d m.session_queue (c ∷ []))
      | inr (away, e') ↦
          ground (arith, inv.once d conn e', away, occurs-append d m.session_queue (c ∷ []))
    ];
    idle = λ d conn e f. elim (assigned c d (record new { processing = true }) conn m.conns e) [
      | inl (at, is) ↦ ground (arith, is, f)
      | inr (_, e') ↦ inv.idle d conn e' f
    ];
  })
]
  where
    woken : new.processing ≡ true → set_conn c new m ≡ wake c new m
    woken busy = ground (arith, busy)

pub push_msg-Awake :
    (memory : ℕ → List ℕ) (content : ErrorText → List ℕ → List ℕ) (c : ℕ) (kind : MsgType) (id : ℕ)
    (source : Option (List ℕ)) (size : ℕ) (m v : Mgr) (ws : List ℕ)
    → push_msg memory content c kind id source size m ≡ ok v
    → Awake m ws
    → Awake v ws
unfolding push_msg get_conn
push_msg-Awake memory content c kind id source size m v ws e inv =
    elim (Option-cases (find c m.conns)) [
      | inl missing ↦ absurd (fault≢ok (rw (push_msg, missing) at e))
      | inr (conn, found) ↦
          subst (λ (v : Mgr). Awake v ws) (ok-injective (rw (push_msg, found) at e))
            (wake-Awake m ws c conn _ found refl inv)
    ]

pub set_status-Awake :
    (c : ℕ) (status : ConnStatus) (m v : Mgr) (ws : List ℕ)
    → set_status c status m ≡ ok v
    → Awake m ws
    → Awake v ws
unfolding set_status get_conn
set_status-Awake c status m v ws e inv = elim (Option-cases (find c m.conns)) [
  | inl missing ↦ absurd (fault≢ok (rw (set_status, missing) at e))
  | inr (conn, found) ↦
      subst (λ (v : Mgr). Awake v ws) (ok-injective (rw (set_status, found) at e))
        (set_conn-Awake m ws c conn (record conn { status = status }) found refl
          (inv.idle c conn found) inv)
]
