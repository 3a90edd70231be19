-- ===== src/Worker/Exhaustion.antt =====
-- How net_worker (source/net_worker.hpp) loses slots to failed accepts, and what happens without any.
use f1985gfw.Base.{
  ℕ, ◌+◌, ◌<◌, ◌≡◌, refl, sym, ap, ◌∙◌, inl, inr, Bool, none, some, List, [], ◌∷◌, ◌++◌, length,
  arith, Bool-cases, ◌==◌, Result, ok, fault, null_pointer, ◌>>=◌, some-eq,
}
use f1985gfw.Base.Dict.{Dict, find, assign, find-assign}
use f1985gfw.Worker.State.{Pointer, accepts, Net, World, Hooks}
use f1985gfw.Worker.Slot.{set_waiting, pop_pointer, get_pointer}
use f1985gfw.Worker.Events.{start_accept, handle_accept, refused}
use f1985gfw.Worker.Pool.{IsTable, free_slots, Popped, exhausted, taken, pop_pointer-Popped}

pub find-zero : (m : Dict Pointer) → IsTable m → find 0 m ≡ none
unfolding find
find-zero [] t = refl
find-zero ((k, p) ∷ m) (own, positive, fresh, t) = ground (arith, find-zero m t)

find-fresh :
    (j id : ℕ) (p q : Pointer) (m : Dict Pointer)
    → find id m ≡ some p
    → find j m ≡ none
    → find j (assign id q m) ≡ none
find-fresh j id p q m e f = elim (Bool-cases (id == j)) [
  | inl same ↦ absurd (clash (ground arith))
  | inr other ↦ rw (find-assign j id q m) (rw other f)
]
  where
    clash : id ≡ j → ⊥
    clash g = cc (ap (λ (k : ℕ). find k m) g)

-- A slot that is there keeps its number and its place.
pub assign-IsTable :
    (id : ℕ) (p q : Pointer) (m : Dict Pointer)
    → find id m ≡ some p
    → q.id ≡ p.id
    → IsTable m
    → IsTable (assign id q m)
unfolding assign find
assign-IsTable id p q [] e same t = cc
assign-IsTable id p q ((k, r) ∷ m) e same (own, positive, fresh, t) = elim (Bool-cases (k == id)) [
  | inl hit ↦
      rw hit
        (same ∙ ap (λ (s : Pointer). s.id) (sym (some-eq (rw hit at e))) ∙ own, positive, fresh, t)
  | inr miss ↦
      let there : find id m ≡ some p = rw miss at e in
      rw miss
        (own, positive, find-fresh k id p q m there fresh, assign-IsTable id p q m there same t)
]

set_waiting-id : (p : Pointer) → (set_waiting p).id ≡ p.id
unfolding set_waiting
set_waiting-id p = ground arith

-- start_accept on a table of slots with a free one succeeds: the table stays well formed, and one
-- slot fewer is free.
pub start_accept-taken :
    (ws : Bool) (w : Net)
    → IsTable w.pointers
    → 0 < free_slots w.pointers
    → (v : Net) × (start_accept ws w ≡ ok v)
      × IsTable v.pointers
      × (free_slots v.pointers + 1 ≡ free_slots w.pointers)
unfolding start_accept get_pointer
start_accept-taken ws w t some_free = go (pop_pointer-Popped w.pointers t)
  where
    go :
        Popped w.pointers (pop_pointer w.pointers).0 (pop_pointer w.pointers).1
        → (v : Net) × (start_accept ws w ≡ ok v)
          × IsTable v.pointers
          × (free_slots v.pointers + 1 ≡ free_slots w.pointers)
    go (exhausted no_more same id) = absurd (omega arith)
    go (taken p positive found free changed count) = (
      record w {
        pointers = (pop_pointer w.pointers).0;
        pending = w.pending ++ accepts ws (pop_pointer w.pointers).1 ∷ [];
      },
      rw (start_accept, still_there) refl,
      rw changed (assign-IsTable _ p _ w.pointers found (set_waiting-id p) t),
      count,
    )
      where
        id : ℕ
        id = (pop_pointer w.pointers).1

        still_there : find id (pop_pointer w.pointers).0 ≡ some (set_waiting p)
        still_there =
            ap (find id) changed ∙ find-assign id id (set_waiting p) w.pointers ∙ ground arith

-- start_accept with no free slot follows a null pointer: it looks up slot 0, which does not exist.
pub start_accept-exhausted :
    (ws : Bool) (w : Net)
    → IsTable w.pointers
    → free_slots w.pointers ≡ 0
    → start_accept ws w ≡ fault null_pointer
unfolding start_accept get_pointer
start_accept-exhausted ws w t none_free = go (pop_pointer-Popped w.pointers t)
  where
    go :
        Popped w.pointers (pop_pointer w.pointers).0 (pop_pointer w.pointers).1
        → start_accept ws w ≡ fault null_pointer
    go (exhausted no_more same id) = rw (start_accept, id, same, find-zero w.pointers t) refl
    go (taken p positive found free changed count) = absurd (omega arith)

-- Accepts that fail, one after the other.
unfoldable pub fail_accepts {ℓ} :
    {A : Type ℓ} → Hooks A → Bool → List ℕ → World A → Result (World A)
fail_accepts h ws [] w = ok w
fail_accepts h ws (id ∷ ids) w = do w ← handle_accept h ws id refused w; fail_accepts h ws ids w

-- On a well-formed table of slots, every accept that fails costs the worker a slot for good, and
-- with the last one it follows a null pointer: as many failures as there are free slots, and one
-- more, end in that fault.
pub fail_accepts-null {ℓ} :
    {A : Type ℓ} (h : Hooks A) (ws : Bool) (ids : List ℕ) (w : World A)
    → IsTable w.net.pointers
    → length ids ≡ free_slots w.net.pointers + 1
    → fail_accepts h ws ids w ≡ fault null_pointer
unfolding fail_accepts handle_accept
fail_accepts-null h ws [] w t n = absurd (omega arith)
fail_accepts-null h ws (id ∷ ids) w t n = elim (Bool-cases (0 == free_slots w.net.pointers)) [
  | inl no_more ↦ rw (start_accept-exhausted ws w.net t (ground arith)) refl
  | inr more ↦
      let (v, e, table, count) = start_accept-taken ws w.net t (ground arith) in
      rw e (fail_accepts-null h ws ids (record w { net = v }) table (omega (arith, count)))
]
