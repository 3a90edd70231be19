-- ===== src/Packet.antt =====
-- source/data_packet.hpp: the growable write buffer. A packet's memory is the bytes of the block
-- that `m_mem_ptr` points at ([] for a null pointer), its capacity is `m_end_ptr - m_mem_ptr` and its
-- offset is `m_offset - m_mem_ptr`. A `size_t` wraps at `2 ^ 64`. Whether an allocation succeeds and
-- what fresh memory holds is the allocator's choice, a parameter.
pub mod Growth
pub mod Append
pub mod Write
pub mod Pack
use f1985gfw.Base.{
  ℕ, ◌+◌, ◌*◌, ◌%◌, ◌^◌, ◌≤◌, ◌≡◌, Option, none, some, List, [], ◌∷◌, ◌++◌, length, take, drop, ltb,
  leb, if◌then◌else◌, Result, ok, fault, out_of_bounds, write_at, ◌>>=◌, u16_bytes,
}

-- malloc and realloc of the C library: none is a null pointer. A block has the size that was asked
-- for, and realloc keeps the old bytes at its front.
pub record Allocator : Type 0 where
  pub malloc : ℕ → Option (List ℕ)
  pub realloc : List ℕ → ℕ → Option (List ℕ)
  pub malloc_size : (n : ℕ) (b : List ℕ) → malloc n ≡ some b → length b ≡ n
  pub realloc_size : (b : List ℕ) (n : ℕ) (c : List ℕ) → realloc b n ≡ some c → length c ≡ n
  pub realloc_keeps :
      (b : List ℕ) (n : ℕ) (c : List ℕ) (k : ℕ)
      → realloc b n ≡ some c
      → k ≤ length b
      → k ≤ n
      → take k c ≡ take k b

pub record Packet : Type 0 where
  pub mem : List ℕ
  pub capacity : ℕ
  pub offset : ℕ

abbrev pub min_mem_size : ℕ
min_mem_size = 64

abbrev pub size_mod : ℕ
size_mod = 2 ^ 64

module _ (a : Allocator) where
  -- The constructor. It does not look at what malloc returned.
  pub create : Packet
  create = elim (a.malloc min_mem_size) [
    | none ↦ record { mem = []; capacity = min_mem_size; offset = 0 }
    | some b ↦ record { mem = b; capacity = min_mem_size; offset = 0 }
  ]

  -- The size that `resize` asks for: the double, or what is needed if that is more.
  pub grown_size : Packet → ℕ → ℕ
  grown_size p new_size =
      let realloc_size = (p.capacity * 2) % size_mod in
      if ltb new_size realloc_size then realloc_size else new_size

  -- none: `resize` returned false.
  pub resize : Packet → ℕ → Option Packet
  resize p new_size = elim (a.realloc p.mem (grown_size p new_size)) [
    | none ↦ none
    | some b ↦ some (record { mem = b; capacity = grown_size p new_size; offset = p.offset })
  ]

  -- What both writers begin with: grow if the block is too small.
  pub reserve : Packet → ℕ → Option Packet
  reserve p new_size = if ltb p.capacity new_size then resize p new_size else some p

  -- `operator<<` with the bytes of the value. If the block cannot grow, nothing is written.
  pub put : Packet → List ℕ → Result Packet
  put p val =
      let new_size = (p.offset + length val) % size_mod in
      elim (reserve p new_size) [
        | none ↦ ok p
        | some q ↦ do
          mem ← write_at q.mem q.offset val
          ok (record q { mem = mem; offset = new_size })
      ]

  -- `write_data`. `source` is the memory at `data_ptr`, none for a null pointer; the result is the
  -- offset of the written part, none for a null pointer.
  pub write_data : Packet → Option (List ℕ) → ℕ → Result (Packet × Option ℕ)
  write_data p source size =
      let new_size = (p.offset + size) % size_mod in
      elim (reserve p new_size) [
        | none ↦ ok (p, none)
        | some q ↦ elim source [
          | none ↦ ok (record q { offset = new_size }, some q.offset)
          | some bytes ↦
              if leb size (length bytes)
              then (do
                mem ← write_at q.mem q.offset (take size bytes)
                ok (record q { mem = mem; offset = new_size }, some q.offset))
              else fault out_of_bounds
        ]
      ]

  -- pointer::send of source/net_worker.hpp, up to the write to the socket: the bytes it hands over.
  pub pack : ℕ → List ℕ → ℕ → Result (List ℕ)
  pack msg_id body size = do
    p ← put create (u16_bytes msg_id)
    p ← put p (u16_bytes size)
    (p, start) ← write_data p (some body) size
    ok (take p.offset p.mem)

-- `get_mem_ptr` and `size`: what has been written.
abbrev pub written : Packet → List ℕ
written p = take p.offset p.mem

pub record IsValid (p : Packet) : Type 0 where
  pub block : length p.mem ≡ p.capacity
  pub within : p.offset ≤ p.capacity
