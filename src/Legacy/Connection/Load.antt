-- ===== src/Legacy/Connection/Load.antt =====
-- 0old/server/net_mgr/net_mgr.cpp: how many rounds of a worker's loop the messages of a session are worth.
use f1985gfw.Base.{
  ℕ, ◌+◌, ◌≤◌, ◌≡◌, refl, Bool, true, none, some, List, [], ◌∷◌, ◌++◌, ◌==◌, ◌||◌, if◌then◌else◌,
  arith, inl, inr, ◌⊎◌, Option-cases, Result, ok, fault, out_of_fuel, ◌>>=◌,
}
use f1985gfw.Base.Dict.{find, find-assign}
use f1985gfw.Legacy.Queue.{MsgType, enmt_read, enmt_write, enmt_none, NetMsg}
use f1985gfw.Legacy.Connection.{
  Conn, ConnStatus, Mgr, get_conn, set_conn, set_status, wake, emir_connect, emir_disconnect,
  emir_error,
}

-- Whether a message's number is one of EMsgIDReserve.
unfoldable pub is_reserved : ℕ → Bool
is_reserved id = id == emir_connect || id == emir_disconnect || id == emir_error

-- The rounds that a message is worth: a client's message comes back as one to write, and a write that fails
-- tells of at most three things.
unfoldable pub worth : NetMsg → ℕ
worth msg = elim msg.kind [
  | enmt_none ↦ 1
  | enmt_read ↦ if is_reserved msg.id then 1 else 5
  | enmt_write ↦ 4
]

unfoldable pub worths : List NetMsg → ℕ
worths [] = 0
worths (msg ∷ msgs) = worth msg + worths msgs

pub worths-append : (xs ys : List NetMsg) → worths (xs ++ ys) ≡ worths xs + worths ys
unfolding worths
worths-append [] ys = omega arith
worths-append (x ∷ xs) ys = omega (arith, worths-append xs ys)

-- The rounds that a connection's queue is worth.
unfoldable pub load : ℕ → Mgr → ℕ
load c m = elim (find c m.conns) [ none ↦ 0 | some conn ↦ worths conn.msg_queue ]

-- A step that leaves at most so much to do, or is undefined for another reason than its fuel.
unfoldable pub Within {ℓ} : {A : Type ℓ} → (A → ℕ) → ℕ → Result A → Type 0
Within left n (fault f) = f ≡ out_of_fuel → ⊥
Within left n (ok v) = left v ≤ n

pub Within->>= {ℓ₁ ℓ₂} :
    {A : Type ℓ₁} {B : Type ℓ₂} (left : A → ℕ) (right : B → ℕ) (k n : ℕ) (r : Result A)
    (next : A → Result B)
    → Within left k r
    → ((v : A) → left v ≤ k → Within right n (next v))
    → Within right n (r >>= next)
unfolding Within
Within->>= left right k n (fault f) next step rest = step
Within->>= left right k n (ok v) next step rest = rest v step

-- The same of a step that also gives the bytes that it wrote.
abbrev pub load_of : ℕ → Mgr × List ℕ → ℕ
load_of c (m, sent) = load c m

pub load-set_conn :
    (c : ℕ) (conn : Conn) (m : Mgr) → load c (set_conn c conn m) ≡ worths conn.msg_queue
unfolding load set_conn
load-set_conn c conn m = ground (arith, find-assign c c conn m.conns)

pub load-wake : (c : ℕ) (conn : Conn) (m : Mgr) → load c (wake c conn m) ≡ worths conn.msg_queue
unfolding wake load set_conn
load-wake c conn m = ground (
  arith,
  find-assign c c conn m.conns,
  find-assign c c (record conn { processing = true }) m.conns,
)

pub load-found :
    (c : ℕ) (conn : Conn) (m : Mgr) → find c m.conns ≡ some conn → load c m ≡ worths conn.msg_queue
unfolding load
load-found c conn m found = rw (load, found) refl

pub get_conn-Within : (c : ℕ) (m : Mgr) → Within (λ (conn : Conn). 0) 0 (get_conn c m)
unfolding get_conn Within
get_conn-Within c m = elim (Option-cases (find c m.conns)) [
  | inl missing ↦ rw (get_conn, missing) (λ e. cc)
  | inr (conn, found) ↦ rw (get_conn, found) (omega arith)
]

pub set_status-Within :
    (c : ℕ) (status : ConnStatus) (m : Mgr) → Within (load c) (load c m) (set_status c status m)
unfolding set_status get_conn Within
set_status-Within c status m = elim (Option-cases (find c m.conns)) [
  | inl missing ↦ rw (set_status, missing) (λ e. cc)
  | inr (conn, found) ↦
      rw (set_status, found)
        (omega
          (arith, load-set_conn c (record conn { status = status }) m, load-found c conn m found))
]

pub kinds : (kind : MsgType) → (kind ≡ enmt_none) ⊎ (kind ≡ enmt_read) ⊎ (kind ≡ enmt_write)
kinds enmt_none = inl refl
kinds enmt_read = inr (inl refl)
kinds enmt_write = inr (inr refl)

pub worth-positive : (msg : NetMsg) → 1 ≤ worth msg
unfolding worth
worth-positive msg = elim (kinds msg.kind) [
  | inl other ↦ rw (worth, other) (omega arith)
  | inr (inl reading) ↦ rw (worth, reading) (ground arith)
  | inr (inr writing) ↦ rw (worth, writing) (omega arith)
]
