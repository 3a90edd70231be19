-- ===== src/Worker/Pool.antt =====
-- The table of slots of net_worker (source/net_worker.hpp): init, pop_pointer, and what it means to run
-- out of slots.
use f1985gfw.Base.{
  ℕ, zero, suc, ◌+◌, ◌<◌, ◌≡◌, refl, ap, ◌∙◌, inl, inr, true, false, none, some, [], ◌∷◌, arith,
  Bool-cases, ◌==◌, if◌then◌else◌,
}
use f1985gfw.Base.Dict.{Dict, find, assign, find-assign}
use f1985gfw.Packet.{Allocator}
use f1985gfw.Worker.State.{Pointer}
use f1985gfw.Worker.Slot.{init_pointer, init_slots, init, valid, set_waiting, pop_pointer}

-- Every slot is filed once, under its own number, and no number is 0.
abbrev pub IsTable : Dict Pointer → Type 0
IsTable [] = Unit {0}
IsTable ((k, p) ∷ m) = (p.id ≡ k) × (0 < k) × (find k m ≡ none) × IsTable m

-- How many slots are free.
unfoldable pub free_slots : Dict Pointer → ℕ
free_slots [] = 0
free_slots ((k, p) ∷ m) = (if valid p then 1 else 0) + free_slots m

-- What pop_pointer returns: 0 from a table with no free slot, which stays as it is, or a free slot,
-- which waits from now on while all others stay as they are.
pub data Popped (m : Dict Pointer) : Dict Pointer → ℕ → Type 0 where
  exhausted : {n : Dict Pointer} {id : ℕ} → free_slots m ≡ 0 → n ≡ m → id ≡ 0 → Popped m n id
  taken :
      {n : Dict Pointer} {id : ℕ} (p : Pointer)
      → 0 < id
      → find id m ≡ some p
      → valid p ≡ true
      → n ≡ assign id (set_waiting p) m
      → free_slots n + 1 ≡ free_slots m
      → Popped m n id

free_slots-cons :
    (k : ℕ) (p : Pointer) (m : Dict Pointer)
    → valid p ≡ false
    → free_slots ((k, p) ∷ m) ≡ free_slots m
unfolding free_slots
free_slots-cons k p m e = rw e (omega arith)

waits-invalid : (p : Pointer) → valid (set_waiting p) ≡ false
unfolding valid set_waiting
waits-invalid p = ground arith

Popped-cons :
    (k : ℕ) (p : Pointer) (m : Dict Pointer) {n : Dict Pointer} {id : ℕ}
    → find k m ≡ none
    → valid p ≡ false
    → Popped m n id
    → Popped ((k, p) ∷ m) ((k, p) ∷ n) id
unfolding find assign
Popped-cons k p m fresh e (exhausted none_free same zero_id) =
    exhausted (free_slots-cons k p m e ∙ none_free) (ap (λ (r : Dict Pointer). (k, p) ∷ r) same)
      zero_id
Popped-cons k p m {n} {id} fresh e (taken q positive found free changed count) =
    taken q positive (rw apart found) free (rw (apart, changed) refl)
      (omega (arith, free_slots-cons k p m e, free_slots-cons k p n e, count))
  where
    apart : (k == id) ≡ false
    apart = elim (Bool-cases (k == id)) [
      | inl same ↦ absurd (not_filed (ground arith))
      | inr other ↦ other
    ]
      where
        not_filed : k ≡ id → ⊥
        not_filed f = cc (ap (λ (j : ℕ). find j m) f)

-- On a table of slots in which each is filed once under its own number, pop_pointer returns 0 and
-- changes nothing if no slot is free; otherwise it returns the number of a free slot, which waits
-- from now on while all others stay as they are, and one slot fewer is free.
pub pop_pointer-Popped :
    (m : Dict Pointer) → IsTable m → Popped m (pop_pointer m).0 (pop_pointer m).1
unfolding pop_pointer free_slots find assign
pop_pointer-Popped [] t = exhausted refl refl refl
pop_pointer-Popped ((k, p) ∷ m) (own, positive, fresh, t) = elim (Bool-cases (valid p)) [
  | inl free ↦ rw free (
      taken p (omega (arith, own)) (ground arith) free (ground arith)
        (rw (waits-invalid p, free) (omega arith)))
  | inr busy ↦ rw busy (Popped-cons k p m fresh busy (pop_pointer-Popped m t))
]

-- All numbers of the table are below a bound.
abbrev Below : ℕ → Dict Pointer → Type 0
Below n [] = Unit {0}
Below n ((k, p) ∷ m) = (k < n) × Below n m

find-above : (n : ℕ) (m : Dict Pointer) → Below n m → find n m ≡ none
unfolding find
find-above n [] b = refl
find-above n ((k, p) ∷ m) b = ground (arith, find-above n m b.1)

-- A new number is filed at the end.
record Filed (n : ℕ) (p : Pointer) (m : Dict Pointer) : Type 0 where
  table : IsTable (assign n p m)
  below : Below (n + 1) (assign n p m)
  count : free_slots (assign n p m) ≡ free_slots m + 1

file_slot :
    (n : ℕ) (p : Pointer) (m : Dict Pointer)
    → p.id ≡ n
    → valid p ≡ true
    → 0 < n
    → IsTable m
    → Below n m
    → Filed n p m
unfolding assign free_slots find
file_slot n p [] own free positive t b = record {
  table = (own, positive, refl, tt);
  below = (omega arith, tt);
  count = rw free refl;
}
file_slot n p ((k, q) ∷ m) own free positive (own', positive', fresh, t) (less, b) =
    let rest = file_slot n p m own free positive t b in
    let apart : (k == n) ≡ false = ground arith in
    let apart' : (n == k) ≡ false = ground arith in
    record {
      table = rw apart (own', positive', rw (find-assign k n p m) (rw apart' fresh), rest.table);
      below = rw apart (omega arith, rest.below);
      count = rw apart (omega (arith, rest.count));
    }

init_slots-IsTable :
    (a : Allocator) (size n id : ℕ) (m : Dict Pointer)
    → 0 < id
    → IsTable m
    → Below id m
    → IsTable (init_slots a size n id m)
      × (free_slots (init_slots a size n id m) ≡ free_slots m + n)
unfolding init_slots init_pointer valid
init_slots-IsTable a size zero id m positive t b = (t, omega arith)
init_slots-IsTable a size (suc n) id m positive t b =
    let filed = file_slot id (init_pointer a size id) m refl refl positive t b in
    let (table, count) =
      init_slots-IsTable a size n (id + 1) (assign id (init_pointer a size id) m) (omega arith)
        filed.table filed.below in
    (table, omega (arith, count, filed.count))

-- After init there are `pointer_num` slots, all of them free, each filed once under its own number.
pub init-IsTable :
    (a : Allocator) (max_recv_size interval pointer_num : ℕ)
    → IsTable (init a max_recv_size interval pointer_num).pointers
      × (free_slots (init a max_recv_size interval pointer_num).pointers ≡ pointer_num)
unfolding init free_slots
init-IsTable a size interval n =
    let (table, count) = init_slots-IsTable a size n 1 [] (omega arith) tt tt in
    (table, omega (arith, count))
