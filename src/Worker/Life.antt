-- ===== src/Worker/Life.antt =====
-- source/net_worker.hpp: which operations are pending for a slot, by its status.
pub mod Opening
pub mod Parsing
pub mod Starting
pub mod Handlers
pub mod Reach
pub mod Again
pub mod Targets
pub mod Aiming
use f1985gfw.Base.{
  ℕ, ◌≡◌, refl, sym, ap, ◌∙◌, inl, inr, Bool, true, false, Option, none, some, List, [], ◌∷◌, ◌++◌,
  ◌==◌, if◌then◌else◌, Bool-cases, some-eq, arith,
}
use f1985gfw.Base.Dict.{find}
use f1985gfw.Worker.State.{
  Status, unconnect, waiting, connected, Pointer, Outward, Pending, accepts, connects, reads,
  reconnects, Net,
}
use f1985gfw.Worker.Pool.{IsTable}

abbrev pub slot_of : Pending → ℕ
slot_of (accepts ws id) = id
slot_of (connects id) = id
slot_of (reads id at size) = id
slot_of (reconnects id delay) = id

-- The operations of one slot.
unfoldable pub mine : ℕ → List Pending → List Pending
mine j [] = []
mine j (op ∷ ops) = if slot_of op == j then op ∷ mine j ops else mine j ops

pub mine-append : (j : ℕ) (us vs : List Pending) → mine j (us ++ vs) ≡ mine j us ++ mine j vs
unfolding mine
mine-append j [] vs = refl
mine-append j (op ∷ us) vs = elim (Bool-cases (slot_of op == j)) [
  | inl own ↦ rw own (ap (◌∷◌ op) (mine-append j us vs))
  | inr other ↦ rw other (mine-append j us vs)
]

-- A free slot has no operation. One that waits has an accept, or none after an accept that failed; the slot
-- of a target has a connect or a timer. A connected slot has one read.
pub data Owed (j : ℕ) : Option Pointer → Option Outward → List Pending → Type 0 where
  absent : (o : Option Outward) → Owed j none o []
  free : (p : Pointer) → p.status ≡ unconnect → Owed j (some p) none []
  spent : (p : Pointer) → p.status ≡ waiting → Owed j (some p) none []
  accepting :
      (p : Pointer) (ws : Bool) → p.status ≡ waiting → Owed j (some p) none (accepts ws j ∷ [])
  connecting :
      (p : Pointer) (out : Outward)
      → p.status ≡ waiting
      → Owed j (some p) (some out) (connects j ∷ [])
  resting :
      (p : Pointer) (out : Outward) (delay : ℕ)
      → p.status ≡ waiting
      → Owed j (some p) (some out) (reconnects j delay ∷ [])
  live :
      (p : Pointer) (o : Option Outward) (at size : ℕ)
      → p.status ≡ connected
      → Owed j (some p) o (reads j at size ∷ [])

-- Every slot has the operations that it should have.
pub record Sound (w : Net) : Type 0 where
  pub table : IsTable w.pointers
  pub owed : (j : ℕ) → Owed j (find j w.pointers) (find j w.outwards) (mine j w.pending)

-- The same for all slots but one, which has no operation: one has just completed.
pub record Open (id : ℕ) (p : Pointer) (w : Net) : Type 0 where
  pub table : IsTable w.pointers
  pub owed :
      (j : ℕ)
      → (id == j) ≡ false
      → Owed j (find j w.pointers) (find j w.outwards) (mine j w.pending)
  pub found : find id w.pointers ≡ some p
  pub nothing : mine id w.pending ≡ []
