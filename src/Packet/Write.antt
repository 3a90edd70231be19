-- ===== src/Packet/Write.antt =====
-- write_data of data_packet.
use f1985gfw.Base.{
  ℕ, ◌+◌, ◌%◌, ◌≤◌, ◌<◌, ◌≡◌, refl, subst, ◌⊎◌, inl, inr, none, some, List, length, take, le→leb,
  Option-cases, arith, write_at-fits, ok, length-take,
}
use f1985gfw.Packet.{Allocator, Packet, IsValid, written, grown_size, reserve, size_mod, write_data}
use f1985gfw.Packet.Growth.{Reserved, refused, reserved, reserve-Reserved}
use f1985gfw.Packet.Append.{Appended, stored, stored-Appended}

pub length-take_front : (n : ℕ) (xs : List ℕ) → n ≤ length xs → length (take n xs) ≡ n
length-take_front n xs h = omega (arith, length-take n xs)

module _ (a : Allocator) (p : Packet) (v : IsValid p) where
  -- `write_data` from memory that holds at least `size` bytes, with no overflow of size_t: either the
  -- block was too small and the allocator refused, and then the packet is as before and the result is
  -- null, or the first `size` bytes stand behind what was written and the result points at them.
  pub write_data_lem :
      (source : List ℕ) (size : ℕ)
      → size ≤ length source
      → p.offset + size < size_mod
      → ((write_data a p (some source) size ≡ ok (p, none))
          × (p.capacity < p.offset + size)
          × (a.realloc p.mem (grown_size a p (p.offset + size)) ≡ none))
        ⊎ ((q : Packet) × (write_data a p (some source) size ≡ ok (q, some p.offset))
            × Appended p (take size source) q)
  unfolding write_data
  write_data_lem source size enough small = elim (Option-cases (reserve a p (p.offset + size))) [
    | inl e ↦ inl (denied e (subst (Reserved a p _) e found))
    | inr (q, e) ↦ inr (granted q e (subst (Reserved a p _) e found))
  ]
    where
      exact : (p.offset + size) % size_mod ≡ p.offset + size
      exact = omega arith

      long : length (take size source) ≡ size
      long = length-take_front size source enough

      found : Reserved a p (p.offset + size) (reserve a p (p.offset + size))
      found = reserve-Reserved a p (p.offset + size) v small

      denied :
          reserve a p (p.offset + size) ≡ none
          → Reserved a p (p.offset + size) none
          → (write_data a p (some source) size ≡ ok (p, none))
            × (p.capacity < p.offset + size)
            × (a.realloc p.mem (grown_size a p (p.offset + size)) ≡ none)
      denied e (refused r h) = (rw (exact, e, write_data) refl, h, r)

      granted :
          (q : Packet)
          → reserve a p (p.offset + size) ≡ some q
          → Reserved a p (p.offset + size) (some q)
          → (q : Packet) × (write_data a p (some source) size ≡ ok (q, some p.offset))
            × Appended p (take size source) q
      granted q e (reserved _ w same room grows bounded kept) = (
        stored q (take size source),
        rw (exact, e, write_data, le→leb size (length source) enough)
            (rw
              (
                write_at-fits q.mem q.offset (take size source) (omega (arith, w.block, long)),
                same,
                exact,
                long,
              )
              refl),
        stored-Appended p q (take size source) w same (omega (arith, long)) grows
            (omega (arith, long)) kept,
      )

  -- `write_data` from a null pointer, with no overflow of size_t: either the block
  -- was too small and the allocator refused, or `size` bytes are set aside behind what
  -- was written, which stays, and the result points at them.
  pub write_data-null :
      (size : ℕ)
      → p.offset + size < size_mod
      → ((write_data a p none size ≡ ok (p, none))
          × (p.capacity < p.offset + size)
          × (a.realloc p.mem (grown_size a p (p.offset + size)) ≡ none))
        ⊎ ((q : Packet) × (write_data a p none size ≡ ok (q, some p.offset))
            × IsValid q
            × (q.offset ≡ p.offset + size)
            × (take p.offset q.mem ≡ written p))
  unfolding write_data
  write_data-null size small = elim (Option-cases (reserve a p (p.offset + size))) [
    | inl e ↦ inl (denied e (subst (Reserved a p _) e found))
    | inr (q, e) ↦ inr (granted q e (subst (Reserved a p _) e found))
  ]
    where
      exact : (p.offset + size) % size_mod ≡ p.offset + size
      exact = omega arith

      found : Reserved a p (p.offset + size) (reserve a p (p.offset + size))
      found = reserve-Reserved a p (p.offset + size) v small

      denied :
          reserve a p (p.offset + size) ≡ none
          → Reserved a p (p.offset + size) none
          → (write_data a p none size ≡ ok (p, none))
            × (p.capacity < p.offset + size)
            × (a.realloc p.mem (grown_size a p (p.offset + size)) ≡ none)
      denied e (refused r h) = (rw (exact, e, write_data) refl, h, r)

      granted :
          (q : Packet)
          → reserve a p (p.offset + size) ≡ some q
          → Reserved a p (p.offset + size) (some q)
          → (q : Packet) × (write_data a p none size ≡ ok (q, some p.offset))
            × IsValid q
            × (q.offset ≡ p.offset + size)
            × (take p.offset q.mem ≡ written p)
      granted q e (reserved _ w same room grows bounded kept) = (
        record q { offset = p.offset + size },
        rw (exact, e, write_data) (rw (same, exact) refl),
        record { block = w.block; within = omega arith },
        refl,
        rw same at kept,
      )
