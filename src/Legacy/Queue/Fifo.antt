-- ===== src/Legacy/Queue/Fifo.antt =====
-- 0old/server/net_mgr/net_queue.cpp: the linked queues are queues, first in first out.
use f1985gfw.Base.{
  ℕ, zero, suc, ◌+◌, ◌<◌, ◌≡◌, refl, sym, ap, ◌∙◌, Option, none, some, List, [], ◌∷◌, ◌++◌, length,
  arith, some-eq, ok,
}
use f1985gfw.Base.Dict.{Dict, find, assign, erase, find-erase, find-assign_self}
use f1985gfw.Legacy.Queue.{
  enqueue_session, dequeue_session, count_sessions, Node, Queue, NetSession, empty_queue, deref,
  set_next, enqueue, dequeue, count_from, count, delete_from,
}
use f1985gfw.Legacy.Queue.Chain.{
  NotIn, last_of, Linked, IsQueue, Linked-assign, Linked-erase, Linked-extend,
}

last-node :
    {V : Type 0} (heap : Dict (Node V)) (xs : List ℕ) (p : Option ℕ) (t : ℕ)
    → Linked heap xs p
    → last_of xs ≡ some t
    → (n : Node V) × (find t heap ≡ some n)
last-node heap [] p t c e = cc
last-node heap (a ∷ []) p t (n, _, found, _, _) e = (n, rw (some-eq e) at found)
last-node heap (a ∷ b ∷ bs) p t (n, _, _, _, rest) e = last-node heap (b ∷ bs) n.next t rest e

module _ {V : Type 0} where
  -- An enqueue of a node that is not in the queue and has no next puts it at the end: the queue's
  -- addresses are those it had and the new one.
  pub enqueue-IsQueue :
      (heap : Dict (Node V)) (q : Queue) (xs : List ℕ) (x : ℕ) (n : Node V)
      → IsQueue heap q xs
      → find x heap ≡ some n
      → n.next ≡ none
      → NotIn x xs
      → (h : Dict (Node V)) × (r : Queue) × (enqueue (some x) heap q ≡ ok (h, r))
        × IsQueue h r (xs ++ x ∷ [])
  unfolding enqueue set_next deref
  enqueue-IsQueue heap q [] x n k found alone fresh = (
    heap,
    record { head_ptr = some x; tail_ptr = some x },
    rw (k.tail, enqueue) refl,
    record { linked = (n, refl, found, tt, alone); tail = refl },
  )
  enqueue-IsQueue heap q (a ∷ xs) x n k found alone fresh =
      let (t, last) = nonempty a xs in
      let (m, there) = last-node heap (a ∷ xs) q.head_ptr t k.linked last in
      (
        assign t (record m { next = some x }) heap,
        record q { tail_ptr = some x },
        rw (k.tail, last, enqueue, there) refl,
        record {
          linked =
              Linked-extend heap t x m n (a ∷ xs) q.head_ptr k.linked last there found alone fresh;
          tail = sym (last-snoc x a xs);
        },
      )
    where
      nonempty : (a : ℕ) (xs : List ℕ) → (t : ℕ) × (last_of (a ∷ xs) ≡ some t)
      nonempty a [] = (a, refl)
      nonempty a (b ∷ bs) = nonempty b bs

      last-snoc : (x a : ℕ) (xs : List ℕ) → last_of (a ∷ xs ++ x ∷ []) ≡ some x
      last-snoc x a [] = refl
      last-snoc x a (b ∷ bs) = last-snoc x b bs

  -- A dequeue of an empty queue returns a null pointer and changes nothing.
  pub dequeue-none :
      (heap : Dict (Node V)) (q : Queue) → IsQueue heap q [] → dequeue heap q ≡ ok (heap, q, none)
  unfolding dequeue
  dequeue-none heap q k = ground (arith, k.linked)

  -- A dequeue of a queue that is not empty returns the first address and leaves the queue of the
  -- others; the node that is returned keeps its value and is linked to nothing.
  pub dequeue-IsQueue :
      (heap : Dict (Node V)) (q : Queue) (x : ℕ) (xs : List ℕ) (n : Node V)
      → IsQueue heap q (x ∷ xs)
      → find x heap ≡ some n
      → (h : Dict (Node V)) × (r : Queue) × (dequeue heap q ≡ ok (h, r, some x))
        × IsQueue h r xs
        × (find x h ≡ some (record n { next = none }))
  unfolding dequeue set_next deref
  dequeue-IsQueue heap q x xs n k found = go xs k.linked k.tail
    where
      unlinked : Dict (Node V)
      unlinked = assign x (record n { next = none }) heap

      kept : find x unlinked ≡ some (record n { next = none })
      kept = find-assign_self x (record n { next = none }) heap

      go :
          (xs : List ℕ)
          → Linked heap (x ∷ xs) q.head_ptr
          → q.tail_ptr ≡ last_of (x ∷ xs)
          → (h : Dict (Node V)) × (r : Queue) × (dequeue heap q ≡ ok (h, r, some x))
            × IsQueue h r xs
            × (find x h ≡ some (record n { next = none }))
      go [] (m, e, there, fresh, end) tail =
          let same : m ≡ n = some-eq (sym there ∙ found) in
          let stop : n.next ≡ none = ap (λ (i : Node V). i.next) (sym same) ∙ end in
          (
            unlinked,
            empty_queue,
            rw (e, dequeue, found, stop) refl,
            record { linked = refl; tail = refl },
            kept,
          )
      go (y ∷ ys) (m, e, there, fresh, (m', e', there', fresh', rest)) tail =
          let same : m ≡ n = some-eq (sym there ∙ found) in
          let step : n.next ≡ some y = ap (λ (i : Node V). i.next) (sym same) ∙ e' in
          (
            unlinked,
            record { head_ptr = some y; tail_ptr = q.tail_ptr },
            rw (e, dequeue, found, step) refl,
            record {
              linked =
                  Linked-assign heap x _ (y ∷ ys) (some y) fresh (m', refl, there', fresh', rest);
              tail = tail;
            },
            kept,
          )

  count_from-length :
      (heap : Dict (Node V)) (fuel n : ℕ) (xs : List ℕ) (p : Option ℕ)
      → Linked heap xs p
      → length xs < fuel
      → count_from fuel n p heap ≡ ok (n + length xs)
  unfolding count_from deref
  count_from-length heap zero n xs p c enough = absurd (omega arith)
  count_from-length heap (suc fuel) n [] p c enough = rw (c, count_from) (ap ok (omega arith))
  count_from-length heap (suc fuel) n (a ∷ xs) p (m, e, found, fresh, rest) enough =
      rw (e, count_from, found)
        (count_from-length heap fuel (n + 1) xs m.next rest (omega arith) ∙ ap ok (omega arith))

  -- The loop of count ends after one round for each node and one more, with the number of nodes.
  pub count-length :
      (heap : Dict (Node V)) (fuel : ℕ) (q : Queue) (xs : List ℕ)
      → IsQueue heap q xs
      → length xs < fuel
      → count fuel heap q ≡ ok (length xs)
  unfolding count
  count-length heap fuel q xs k enough =
      count_from-length heap fuel 0 xs q.head_ptr k.linked enough ∙ ap ok (omega arith)

abbrev pub Gone : Dict (Node NetSession) → List ℕ → Type 0
Gone heap [] = Unit {0}
Gone heap (a ∷ xs) = (find a heap ≡ none) × Gone heap xs

-- The destructor of a session queue ends after one round for each node and one more; it deletes every
-- node of the queue, and no other.
pub delete_from-Gone :
    (heap : Dict (Node NetSession)) (fuel : ℕ) (xs : List ℕ) (p : Option ℕ)
    → Linked heap xs p
    → length xs < fuel
    → (h : Dict (Node NetSession)) × (delete_from fuel p heap ≡ ok h)
      × ((j : ℕ) → NotIn j xs → find j h ≡ find j heap)
      × Gone h xs
unfolding delete_from deref
delete_from-Gone heap zero xs p c enough = absurd (omega arith)
delete_from-Gone heap (suc fuel) [] p c enough = (heap, rw (c, delete_from) refl, λ j _. refl, tt)
delete_from-Gone heap (suc fuel) (a ∷ xs) p (m, e, found, fresh, rest) enough =
    let (h, done, others, gone) =
      delete_from-Gone (erase a heap) fuel xs m.next (Linked-erase heap a xs m.next fresh rest)
        (omega arith) in
    (
      h,
      rw (e, delete_from, found) done,
      λ j away. others j away.2 ∙ rw (find-erase j a heap, away.1) refl,
      (others a fresh ∙ rw (find-erase a a heap) (ground arith), gone),
    )

-- The queue of sessions does what the queue of messages does, so that it is first in, first out, too:
-- enqueue, dequeue and count are the same functions.
pub session_queue-same :
    (heap : Dict (Node NetSession)) (q : Queue) (ptr : Option ℕ) (fuel : ℕ)
    → (enqueue_session ptr heap q ≡ enqueue ptr heap q)
      × (dequeue_session heap q ≡ dequeue heap q)
      × (count_sessions fuel heap q ≡ count fuel heap q)
unfolding enqueue_session enqueue dequeue_session dequeue count_sessions count
session_queue-same heap q ptr fuel = (refl, refl, refl)
