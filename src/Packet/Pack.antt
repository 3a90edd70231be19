-- ===== src/Packet/Pack.antt =====
-- The bytes that pointer::send of source/net_worker.hpp hands to the socket.
use f1985gfw.Base.{
  ℕ, ◌+◌, ◌≤◌, ◌<◌, ◌≡◌, refl, ap, ◌≢◌, inl, inr, none, some, List, [], length, take, Option-cases,
  arith, ok, u16_bytes, u16_mod, frame, length-append, length-take,
}
use f1985gfw.Packet.{
  Allocator, Packet, IsValid, written, size_mod, put, write_data, create, pack, min_mem_size,
}
use f1985gfw.Packet.Append.{Appended, put_lem}
use f1985gfw.Packet.Write.{write_data_lem, length-take_front}

-- An allocator that always has memory.
pub record IsAmple (a : Allocator) : Type 0 where
  pub creates : (n : ℕ) → a.malloc n ≢ none
  pub extends : (b : List ℕ) (n : ℕ) → a.realloc b n ≢ none

pub create-IsValid : (a : Allocator) → a.malloc min_mem_size ≢ none → IsValid (create a)
unfolding create
create-IsValid a h = elim (Option-cases (a.malloc min_mem_size)) [
  | inl e ↦ absurd (h e)
  | inr (b, e) ↦
      rw (e, create) (record { block = a.malloc_size min_mem_size b e; within = omega arith })
]

pub create-offset : (a : Allocator) → (create a).offset ≡ 0
unfolding create
create-offset a = ground arith

written-create : (a : Allocator) → written (create a) ≡ []
written-create a = rw (create-offset a) refl

offset-Appended :
    {p q : Packet} {xs : List ℕ} → IsValid p → Appended p xs q → q.offset ≡ p.offset + length xs
offset-Appended {p} {q} {xs} v w = omega (
  arith,
  length-take q.offset q.mem,
  length-take p.offset p.mem,
  ap length w.bytes,
  length-append (written p) xs,
  w.valid.block,
  w.valid.within,
  v.block,
  v.within,
)

module _ (a : Allocator) (ample : IsAmple a) where
  put_ample :
      (p : Packet) (xs : List ℕ)
      → IsValid p
      → p.offset + length xs < size_mod
      → (q : Packet) × (put a p xs ≡ ok q) × Appended p xs q
  put_ample p xs v small = elim (put_lem a p v xs small) [
    | inl (_, _, e) ↦ absurd (ample.extends _ _ e)
    | inr r ↦ r
  ]

  write_data_ample :
      (p : Packet) (source : List ℕ) (size : ℕ)
      → IsValid p
      → size ≤ length source
      → p.offset + size < size_mod
      → (q : Packet) × (write_data a p (some source) size ≡ ok (q, some p.offset))
        × Appended p (take size source) q
  write_data_ample p source size v enough small =
      elim (write_data_lem a p v source size enough small) [
        | inl (_, _, e) ↦ absurd (ample.extends _ _ e)
        | inr r ↦ r
      ]

  -- With memory at hand, `send` of `size` bytes, fewer than 65536, of a body that has them hands the
  -- socket one frame: the message number, the size, and those bytes.
  pub pack-frame :
      (msg_id : ℕ) (body : List ℕ) (size : ℕ)
      → size ≤ length body
      → size < u16_mod
      → pack a msg_id body size ≡ ok (frame msg_id (take size body))
  unfolding pack frame
  pack-frame msg_id body size enough small =
      let v = create-IsValid a (ample.creates _) in
      let at = create-offset a in
      let (p, e, first) = put_ample (create a) (u16_bytes msg_id) v (omega arith) in
      let at_p = offset-Appended v first in
      let (q, f, second) = put_ample p (u16_bytes size) first.valid (omega arith) in
      let at_q = offset-Appended first.valid second in
      let (r, g, third) = write_data_ample q body size second.valid enough (omega arith) in
      rw
        (
          e,
          f,
          g,
          third.bytes,
          second.bytes,
          first.bytes,
          written-create a,
          length-take_front size body enough,
        )
        refl
