-- ===== src/Packet/Append.antt =====
-- What operator<< and write_data of data_packet append, and the bytes that pointer::send hands over.
use f1985gfw.Base.{
  ℕ, ◌+◌, ◌*◌, ◌%◌, ◌≤◌, ◌<◌, ◌≡◌, refl, sym, ◌∙◌, ap, subst, ◌⊎◌, inl, inr, none, some, List, [],
  ◌++◌, length, take, drop, Option-cases, arith, write_at, write_at-fits, length-write, take-write,
  ok, fault, out_of_bounds, le→ltb, lt→leb,
}
use f1985gfw.Packet.{
  Allocator, Packet, IsValid, written, grown_size, reserve, size_mod, put, create, min_mem_size,
}
use f1985gfw.Packet.Growth.{Reserved, refused, reserved, reserve-Reserved}

-- What an append of `xs` leaves: a valid packet with `xs` behind what was written.
pub record Appended (p : Packet) (xs : List ℕ) (q : Packet) : Type 0 where
  pub valid : IsValid q
  pub bytes : written q ≡ written p ++ xs
  pub grows : p.capacity ≤ q.capacity
  pub bounded : q.capacity ≤ 2 * p.capacity + (p.offset + length xs)

-- The packet after a store of `xs` at the offset.
abbrev pub stored : Packet → List ℕ → Packet
stored q xs = record {
  mem = take q.offset q.mem ++ xs ++ drop (q.offset + length xs) q.mem;
  capacity = q.capacity;
  offset = q.offset + length xs;
}

pub stored-Appended :
    (p q : Packet) (xs : List ℕ)
    → IsValid q
    → q.offset ≡ p.offset
    → p.offset + length xs ≤ q.capacity
    → p.capacity ≤ q.capacity
    → q.capacity ≤ 2 * p.capacity + (p.offset + length xs)
    → written q ≡ written p
    → Appended p xs (stored q xs)
stored-Appended p q xs v same room grows bounded kept =
    let fits : q.offset + length xs ≤ length q.mem = omega (arith, v.block) in
    record {
      valid = record {
        block = length-write q.mem q.offset xs fits ∙ v.block;
        within = omega arith;
      };
      bytes = take-write q.mem q.offset xs fits ∙ ap (λ w. w ++ xs) kept;
      grows = grows;
      bounded = bounded;
    }

module _ (a : Allocator) (p : Packet) (v : IsValid p) where
  -- `operator<<` of a value whose bytes are `xs`, with no overflow of size_t: either the block was
  -- too small and the allocator refused, and then the packet is as before, or the bytes stand behind
  -- what was written, in a valid packet whose capacity did not shrink and at most doubled and added.
  pub put_lem :
      (xs : List ℕ)
      → p.offset + length xs < size_mod
      → ((put a p xs ≡ ok p)
          × (p.capacity < p.offset + length xs)
          × (a.realloc p.mem (grown_size a p (p.offset + length xs)) ≡ none))
        ⊎ ((q : Packet) × (put a p xs ≡ ok q) × Appended p xs q)
  unfolding put
  put_lem xs small = elim (Option-cases (reserve a p (p.offset + length xs))) [
    | inl e ↦ inl (put_refused e (subst (Reserved a p _) e found))
    | inr (q, e) ↦ inr (put_reserved q e (subst (Reserved a p _) e found))
  ]
    where
      exact : (p.offset + length xs) % size_mod ≡ p.offset + length xs
      exact = omega arith

      found : Reserved a p (p.offset + length xs) (reserve a p (p.offset + length xs))
      found = reserve-Reserved a p (p.offset + length xs) v small

      put_refused :
          reserve a p (p.offset + length xs) ≡ none
          → Reserved a p (p.offset + length xs) none
          → (put a p xs ≡ ok p)
            × (p.capacity < p.offset + length xs)
            × (a.realloc p.mem (grown_size a p (p.offset + length xs)) ≡ none)
      put_refused e (refused denied h) = (rw (exact, e, put) refl, h, denied)

      put_reserved :
          (q : Packet)
          → reserve a p (p.offset + length xs) ≡ some q
          → Reserved a p (p.offset + length xs) (some q)
          → (q : Packet) × (put a p xs ≡ ok q) × Appended p xs q
      put_reserved q e (reserved _ w same room grows bounded kept) = (
        stored q xs,
        rw (exact, e, put)
            (rw (write_at-fits q.mem q.offset xs (omega (arith, w.block)), same, exact) refl),
        stored-Appended p q xs w same room grows bounded kept,
      )

-- Without memory the constructor leaves a null pointer and a capacity of 64, so that the first value
-- of 1 to 64 bytes is stored through the null pointer.
pub put-null :
    (a : Allocator) (xs : List ℕ)
    → a.malloc min_mem_size ≡ none
    → 0 < length xs
    → length xs ≤ min_mem_size
    → put a (create a) xs ≡ fault out_of_bounds
unfolding put create reserve write_at
put-null a xs e some_bytes few =
    let small : (0 + length xs) % size_mod ≡ length xs = omega arith in
    subst (λ (p : Packet). put a p xs ≡ fault out_of_bounds) (sym made)
      (rw (put, small, le→ltb min_mem_size (length xs) few, lt→leb (0 + length xs) 0 (omega arith))
        refl)
  where
    made : create a ≡ record { mem = []; capacity = min_mem_size; offset = 0 }
    made = rw (e, create) refl
