-- ===== src/Legacy/Queue.antt =====
-- 0old/server/net_mgr/net_queue.{h,cpp}: the linked queues of messages and of sessions. A pointer is an
-- address of the heap, none for nullptr; the mutex makes each operation one step.
pub mod Chain
pub mod Fifo
use f1985gfw.Base.{
  ℕ, zero, suc, ◌+◌, Bool, true, false, Option, none, some, List, Result, ok, fault, null_pointer,
  out_of_fuel, ◌>>=◌, or_fault,
}
use f1985gfw.Base.Dict.{Dict, find, assign, emplace, erase}

-- net_msg_t and net_session_t: the link, and the other fields as `value`.
pub record Node {ℓ} (V : Type ℓ) : Type ℓ where
  pub next : Option ℕ
  pub value : V

-- net_msg_queue and net_session_queue.
pub record Queue : Type 0 where
  pub head_ptr : Option ℕ
  pub tail_ptr : Option ℕ

abbrev pub empty_queue : Queue
empty_queue = record { head_ptr = none; tail_ptr = none }

-- The fields of a net_msg_t beside the link, and the values of its type.
pub data MsgType : Type 0 where
  enmt_none enmt_read enmt_write : MsgType

pub record NetMsg : Type 0 where
  pub kind : MsgType
  pub id : ℕ
  pub size : ℕ
  pub buffer : List ℕ

-- The fields of a net_session_t beside the link: the owner is the connection's number.
pub record NetSession : Type 0 where
  pub owner : ℕ
  pub processing : Bool
  pub msg_queue : Queue

module _ {ℓ} {V : Type ℓ} where
  -- `ptr->`.
  unfoldable pub deref : Option ℕ → Dict (Node V) → Result (ℕ × Node V)
  deref none heap = fault null_pointer
  deref (some x) heap = do n ← or_fault (find x heap) null_pointer; ok (x, n)

  -- `ptr->next = next`.
  unfoldable pub set_next : Option ℕ → Option ℕ → Dict (Node V) → Result (Dict (Node V))
  set_next ptr next heap = do (x, n) ← deref ptr heap; ok (assign x (record n { next = next }) heap)

  -- `net_msg_queue::enqueue` before the call of `after`.
  unfoldable pub enqueue : Option ℕ → Dict (Node V) → Queue → Result (Dict (Node V) × Queue)
  enqueue ptr heap q = elim q.tail_ptr [
    | some t ↦ do heap ← set_next (some t) ptr heap; ok (heap, record q { tail_ptr = ptr })
    | none ↦ ok (heap, record { head_ptr = ptr; tail_ptr = ptr })
  ]

  -- `net_msg_queue::dequeue`; where the pointer is none, `after` was called.
  unfoldable pub dequeue : Dict (Node V) → Queue → Result (Dict (Node V) × Queue × Option ℕ)
  dequeue heap q = elim q.head_ptr [
    | none ↦ ok (heap, q, none)
    | some x ↦ do
      (_, n) ← deref (some x) heap
      let q : Queue = elim n.next [
        | none ↦ record { head_ptr = none; tail_ptr = none }
        | some y ↦ record q { head_ptr = some y }
      ]
      heap ← set_next (some x) none heap
      ok (heap, q, some x)
  ]

  -- The loop of `count`.
  unfoldable pub count_from : ℕ → ℕ → Option ℕ → Dict (Node V) → Result ℕ
  count_from zero count ptr heap = fault out_of_fuel
  count_from (suc fuel) count ptr heap = elim ptr [
    | none ↦ ok count
    | some x ↦ do (_, n) ← deref (some x) heap; count_from fuel (count + 1) n.next heap
  ]

  unfoldable pub count : ℕ → Dict (Node V) → Queue → Result ℕ
  count fuel heap q = count_from fuel 0 q.head_ptr heap

-- `net_session_queue::enqueue`, `dequeue` and `count`.
unfoldable pub enqueue_session :
    Option ℕ → Dict (Node NetSession) → Queue → Result (Dict (Node NetSession) × Queue)
enqueue_session ptr heap q = elim q.tail_ptr [
  | none ↦ ok (heap, record { head_ptr = ptr; tail_ptr = ptr })
  | some t ↦ do heap ← set_next (some t) ptr heap; ok (heap, record q { tail_ptr = ptr })
]

unfoldable pub dequeue_session :
    Dict (Node NetSession) → Queue → Result (Dict (Node NetSession) × Queue × Option ℕ)
dequeue_session heap q = elim q.head_ptr [
  | none ↦ ok (heap, q, none)
  | some x ↦ do
    (_, n) ← deref (some x) heap
    let q : Queue = elim n.next [
      | none ↦ record { head_ptr = none; tail_ptr = none }
      | some y ↦ record q { head_ptr = some y }
    ]
    heap ← set_next (some x) none heap
    ok (heap, q, some x)
]

unfoldable pub count_sessions : ℕ → Dict (Node NetSession) → Queue → Result ℕ
count_sessions fuel heap q = count_from fuel 0 q.head_ptr heap

-- The loop of the destructor of net_session_queue: every node is deleted.
unfoldable pub delete_from : ℕ → Option ℕ → Dict (Node NetSession) → Result (Dict (Node NetSession))
delete_from zero ptr heap = fault out_of_fuel
delete_from (suc fuel) ptr heap = elim ptr [
  | none ↦ ok heap
  | some x ↦ do (_, n) ← deref (some x) heap; delete_from fuel n.next (erase x heap)
]

-- `net_msg_queue::create`, at an address that malloc chose, and `net_session_queue::create`.
unfoldable pub create_msg : ℕ → ℕ → List ℕ → Dict (Node NetMsg) → Dict (Node NetMsg)
create_msg x size memory heap =
    assign x
      (record {
        next = none;
        value = record { kind = enmt_none; id = 0; size = size; buffer = memory };
      })
      heap

unfoldable pub create_session : ℕ → Dict (Node NetSession) → Dict (Node NetSession)
create_session x heap =
    assign x
      (record {
        next = none;
        value = record { owner = 0; processing = false; msg_queue = empty_queue };
      })
      heap
