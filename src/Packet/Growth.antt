-- ===== src/Packet/Growth.antt =====
-- The growth of data_packet's block, which both writers rely on.
use f1985gfw.Base.{
  ℕ, ◌+◌, ◌*◌, ◌≤◌, ◌<◌, ◌≡◌, refl, inl, inr, Option, none, some, ltb, Option-cases, Bool-cases,
  arith,
}
use f1985gfw.Packet.{Allocator, Packet, IsValid, written, grown_size, resize, reserve, size_mod}

pub grown_size-bounds :
    (a : Allocator) (p : Packet) (n : ℕ)
    → p.capacity < n
    → n < size_mod
    → (n ≤ grown_size a p n) × (grown_size a p n ≤ 2 * p.capacity + n)
unfolding grown_size
grown_size-bounds a p n h k = ground arith

-- Either nothing is reserved because the allocator refused, or the block is large enough, still
-- valid, and what was written is still there.
pub data Reserved (a : Allocator) (p : Packet) (n : ℕ) : Option Packet → Type 0 where
  refused : a.realloc p.mem (grown_size a p n) ≡ none → p.capacity < n → Reserved a p n none
  reserved :
      (q : Packet)
      → IsValid q
      → q.offset ≡ p.offset
      → n ≤ q.capacity
      → p.capacity ≤ q.capacity
      → q.capacity ≤ 2 * p.capacity + n
      → written q ≡ written p
      → Reserved a p n (some q)

resize-Reserved :
    (a : Allocator) (p : Packet) (n : ℕ)
    → IsValid p
    → p.capacity < n
    → n < size_mod
    → Reserved a p n (resize a p n)
unfolding resize
resize-Reserved a p n v h k = elim (Option-cases (a.realloc p.mem (grown_size a p n))) [
  | inl e ↦ rw (e, resize) (refused e h)
  | inr (b, e) ↦
      let bounds = grown_size-bounds a p n h k in
      rw (e, resize)
        (reserved _
          (record { block = a.realloc_size p.mem _ b e; within = omega (arith, v.within) }) refl
          bounds.0 (omega arith) bounds.1
          (a.realloc_keeps p.mem _ b p.offset e (omega (arith, v.block, v.within))
            (omega (arith, v.within))))
]

pub reserve-Reserved :
    (a : Allocator) (p : Packet) (n : ℕ) → IsValid p → n < size_mod → Reserved a p n (reserve a p n)
unfolding reserve
reserve-Reserved a p n v k = elim (Bool-cases (ltb p.capacity n)) [
  | inl e ↦ rw e (resize-Reserved a p n v (ground arith) k)
  | inr e ↦ rw e (reserved p v refl (ground arith) (omega arith) (omega arith) refl)
]
