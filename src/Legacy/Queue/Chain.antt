-- ===== src/Legacy/Queue/Chain.antt =====
-- 0old/server/net_mgr/net_queue.cpp: a queue as a list of addresses, each node linked to the next.
use f1985gfw.Base.{
  ℕ, ◌≡◌, refl, sym, false, Option, none, some, List, [], ◌∷◌, ◌++◌, arith, ◌==◌, some-eq,
}
use f1985gfw.Base.Dict.{Dict, find, assign, find-assign, erase, find-erase}
use f1985gfw.Legacy.Queue.{Node, Queue}

abbrev pub NotIn : ℕ → List ℕ → Type 0
NotIn a [] = Unit {0}
NotIn a (b ∷ bs) = ((a == b) ≡ false) × ((b == a) ≡ false) × NotIn a bs

abbrev pub last_of : List ℕ → Option ℕ
last_of [] = none
last_of (a ∷ []) = some a
last_of (a ∷ b ∷ bs) = last_of (b ∷ bs)

pub NotIn-append : (a x : ℕ) (xs : List ℕ) → NotIn a xs → NotIn x (a ∷ xs) → NotIn a (xs ++ x ∷ [])
NotIn-append a x [] h (xa, ax, _) = (ax, xa, tt)
NotIn-append a x (b ∷ bs) (ab, ba, h) (xa, ax, (xb, bx, k)) =
    (ab, ba, NotIn-append a x bs h (xa, ax, k))

last-NotIn :
    (a t : ℕ) (b : ℕ) (bs : List ℕ)
    → NotIn a (b ∷ bs)
    → last_of (b ∷ bs) ≡ some t
    → (t == a) ≡ false
last-NotIn a t b [] (ab, ba, _) e = rw (sym (some-eq e)) ba
last-NotIn a t b (c ∷ cs) (ab, ba, h) e = last-NotIn a t c cs h e

module _ {V : Type 0} where
  -- From `p` on the nodes at the addresses of the list follow one another, each once.
  abbrev pub Linked : Dict (Node V) → List ℕ → Option ℕ → Type 0
  Linked heap [] p = p ≡ none
  Linked heap (a ∷ xs) p =
      (n : Node V) × (p ≡ some a) × (find a heap ≡ some n) × NotIn a xs × Linked heap xs n.next

  pub record IsQueue (heap : Dict (Node V)) (q : Queue) (xs : List ℕ) : Type 0 where
    pub linked : Linked heap xs q.head_ptr
    pub tail : q.tail_ptr ≡ last_of xs

  -- A node that is not in the chain may change.
  pub Linked-assign :
      (heap : Dict (Node V)) (a : ℕ) (n : Node V) (xs : List ℕ) (p : Option ℕ)
      → NotIn a xs
      → Linked heap xs p
      → Linked (assign a n heap) xs p
  Linked-assign heap a n [] p fresh c = c
  Linked-assign heap a n (b ∷ bs) p (ab, ba, fresh) (m, e, found, alone, rest) = (
    m,
    e,
    rw (find-assign b a n heap, ab) found,
    alone,
    Linked-assign heap a n bs m.next fresh rest,
  )

  pub Linked-erase :
      (heap : Dict (Node V)) (a : ℕ) (xs : List ℕ) (p : Option ℕ)
      → NotIn a xs
      → Linked heap xs p
      → Linked (erase a heap) xs p
  Linked-erase heap a [] p fresh c = c
  Linked-erase heap a (b ∷ bs) p (ab, ba, fresh) (m, e, found, alone, rest) =
      (m, e, rw (find-erase b a heap, ab) found, alone, Linked-erase heap a bs m.next fresh rest)

  -- A fresh node that is linked behind the last one ends the chain.
  pub Linked-extend :
      (heap : Dict (Node V)) (t x : ℕ) (nt nx : Node V) (xs : List ℕ) (p : Option ℕ)
      → Linked heap xs p
      → last_of xs ≡ some t
      → find t heap ≡ some nt
      → find x heap ≡ some nx
      → nx.next ≡ none
      → NotIn x xs
      → Linked (assign t (record nt { next = some x }) heap) (xs ++ x ∷ []) p
  Linked-extend heap t x nt nx [] p c last ft fx alone fresh = cc
  Linked-extend heap t x nt nx (a ∷ []) p (n, e, found, _, rest) last ft fx alone (xa, ax, _) =
      let same : a ≡ t = some-eq last in
      (
        record nt { next = some x },
        e,
        ground (arith, find-assign a t (record nt { next = some x }) heap),
        (ax, xa, tt),
        (
          nx,
          refl,
          ground (arith, find-assign x t (record nt { next = some x }) heap, xa, same),
          tt,
          alone,
        ),
      )
  Linked-extend heap t x nt nx (a ∷ b ∷ bs) p (n, e, found, notin, rest) last ft fx alone
        (xa, ax, fresh) =
      (
        n,
        e,
        rw (find-assign a t _ heap, last-NotIn a t b bs notin last) found,
        NotIn-append a x (b ∷ bs) notin (xa, ax, fresh),
        Linked-extend heap t x nt nx (b ∷ bs) n.next rest last ft fx alone fresh,
      )
