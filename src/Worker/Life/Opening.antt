-- ===== src/Worker/Life/Opening.antt =====
-- source/net_worker.hpp: from a slot whose operation has completed back to one that has what it should have.
use f1985gfw.Base.{
  ℕ, ◌≡◌, refl, sym, ap, ◌∙◌, subst, inl, inr, Bool, false, Option, none, some, List, [], ◌∷◌, ◌++◌,
  ◌==◌, Bool-cases, some-eq, arith, append-nil, ==_iff, ◌≤◌, length, length-append,
}
use f1985gfw.Base.Dict.{find, find-assign, find-assign_self}
use f1985gfw.Worker.State.{
  unconnect, waiting, connected, Pointer, Outward, Pending, accepts, connects, reads, reconnects,
  Net,
}
use f1985gfw.Worker.Slot.{set_pointer}
use f1985gfw.Worker.Contract.{OnlySends}
use f1985gfw.Worker.Exhaustion.{assign-IsTable}
use f1985gfw.Worker.Life.{
  slot_of, mine, mine-append, Owed, absent, free, spent, accepting, connecting, resting, live,
  Sound, Open,
}

pub Open-set_pointer :
    (id : ℕ) (p q : Pointer) (w : Net) → q.id ≡ p.id → Open id p w → Open id q (set_pointer id q w)
unfolding set_pointer
Open-set_pointer id p q w same o = record {
  table = assign-IsTable id p q w.pointers o.found same o.table;
  owed = λ j other. rw (find-assign j id q w.pointers, other) (o.owed j other);
  found = find-assign_self id q w.pointers;
  nothing = o.nothing;
}

pub Open-sent : (id : ℕ) (p : Pointer) (w v : Net) → OnlySends w v → Open id p w → Open id p v
Open-sent id p w v e o =
    subst (Open id p) (sym e)
      (record { table = o.table; owed = o.owed; found = o.found; nothing = o.nothing })

pub Sound-sent : (w v : Net) → OnlySends w v → Sound w → Sound v
Sound-sent w v e s = subst Sound (sym e) (record { table = s.table; owed = s.owed })

-- A slot that needs no operation.
pub shut :
    (id : ℕ) (p : Pointer) (w : Net)
    → Open id p w
    → Owed id (some p) (find id w.outwards) []
    → Sound w
shut id p w o own = record {
  table = o.table;
  owed = λ j. elim (Bool-cases (id == j)) [
    | inr other ↦ o.owed j other
    | inl same ↦
        subst (λ k. Owed k (find k w.pointers) (find k w.outwards) (mine k w.pending))
          ((==_iff id j).0 same) (rw (o.found, o.nothing) own)
  ];
}

-- A slot that is given an operation.
pub start_op :
    (id : ℕ) (p : Pointer) (op : Pending) (w : Net)
    → slot_of op ≡ id
    → Open id p w
    → Owed id (some p) (find id w.outwards) (op ∷ [])
    → Sound (record w { pending = w.pending ++ op ∷ [] })
unfolding mine
start_op id p op w slot o own = record {
  table = o.table;
  owed = λ j. rw (mine-append j w.pending (op ∷ [])) (elim (Bool-cases (id == j)) [
    | inr other ↦ rw (slot, other, append-nil (mine j w.pending)) (o.owed j other)
    | inl same ↦
        subst
          (λ k.
            Owed k (find k w.pointers) (find k w.outwards) (mine k w.pending ++ mine k (op ∷ [])))
          ((==_iff id j).0 same) (rw (slot, o.found, o.nothing, (==_iff id id).1 refl) own)
  ]);
}

-- An operation that completes.
pub complete :
    (id : ℕ) (op : Pending) (us vs : List Pending) (p : Pointer) (w : Net)
    → slot_of op ≡ id
    → w.pending ≡ us ++ op ∷ vs
    → find id w.pointers ≡ some p
    → mine id (us ++ vs) ≡ []
    → Sound w
    → Open id p (record w { pending = us ++ vs })
unfolding mine
complete id op us vs p w slot pending found none_left s = record {
  table = s.table;
  owed = λ j other. rw (sym (without j other)) (s.owed j);
  found = found;
  nothing = none_left;
}
  where
    without : (j : ℕ) → (id == j) ≡ false → mine j w.pending ≡ mine j (us ++ vs)
    without j other =
        ap (mine j) pending
        ∙ mine-append j us (op ∷ vs)
        ∙ rw (slot, other) (sym (mine-append j us vs))

Owed-length :
    {j : ℕ} {o : Option Pointer} {out : Option Outward} {ops : List Pending}
    → Owed j o out ops
    → length ops ≤ 1
Owed-length (absent _) = omega arith
Owed-length (free _ _) = omega arith
Owed-length (spent _ _) = omega arith
Owed-length (accepting _ _ _) = omega arith
Owed-length (connecting _ _ _) = omega arith
Owed-length (resting _ _ _ _) = omega arith
Owed-length (live _ _ _ _ _) = omega arith

alone : {A : Type 0} (xs ys : List A) (x : A) → length (xs ++ x ∷ ys) ≤ 1 → (xs ≡ []) × (ys ≡ [])
alone [] [] x short = (refl, refl)
alone [] (y ∷ ys) x short = absurd (omega arith)
alone (y ∷ xs) ys x short = absurd (omega (arith, length-append xs (x ∷ ys)))

-- A pending operation is the only one of its slot.
pub only_op :
    (op : Pending) (us vs : List Pending) (w : Net)
    → w.pending ≡ us ++ op ∷ vs
    → Sound w
    → (mine (slot_of op) (us ++ vs) ≡ [])
      × Owed (slot_of op) (find (slot_of op) w.pointers) (find (slot_of op) w.outwards) (op ∷ [])
unfolding mine
only_op op us vs w pending s =
    let id = slot_of op in
    let whole : mine id w.pending ≡ mine id us ++ op ∷ mine id vs =
      ap (mine id) pending ∙ mine-append id us (op ∷ vs) ∙ rw ((==_iff id id).1 refl) refl in
    let (before, after) =
      alone (mine id us) (mine id vs) op (rw whole at (Owed-length (s.owed id))) in
    let single : mine id us ++ op ∷ mine id vs ≡ op ∷ [] = rw (before, after) refl in
    (
      mine-append id us vs ∙ rw (before, after) refl,
      subst (Owed id (find id w.pointers) (find id w.outwards)) (whole ∙ single) (s.owed id),
    )

-- What a pending operation says of its slot.
pub accept-waits :
    {j id : ℕ} {ws : Bool} {o : Option Pointer} {out : Option Outward}
    → Owed j o out (accepts ws id ∷ [])
    → (p : Pointer) × (o ≡ some p) × (p.status ≡ waiting) × (out ≡ none)
accept-waits (accepting p ws e) = (p, refl, e, refl)

pub connect-waits :
    {j id : ℕ} {o : Option Pointer} {out : Option Outward}
    → Owed j o out (connects id ∷ [])
    → (p : Pointer) × (t : Outward) × (o ≡ some p) × (p.status ≡ waiting) × (out ≡ some t)
connect-waits (connecting p t e) = (p, t, refl, e, refl)

pub reconnect-waits :
    {j id delay : ℕ} {o : Option Pointer} {out : Option Outward}
    → Owed j o out (reconnects id delay ∷ [])
    → (p : Pointer) × (t : Outward) × (o ≡ some p) × (p.status ≡ waiting) × (out ≡ some t)
reconnect-waits (resting p t delay e) = (p, t, refl, e, refl)

pub read-connected :
    {j id at size : ℕ} {o : Option Pointer} {out : Option Outward}
    → Owed j o out (reads id at size ∷ [])
    → (p : Pointer) × (o ≡ some p) × (p.status ≡ connected)
read-connected (live p out at size e) = (p, refl, e)

pub free-idle :
    {id : ℕ} {o : Option Pointer} {out : Option Outward} {ops : List Pending} (p : Pointer)
    → Owed id o out ops
    → o ≡ some p
    → p.status ≡ unconnect
    → (out ≡ none) × (ops ≡ [])
free-idle p (absent _) e f = cc
free-idle p (free _ _) e f = (refl, refl)
free-idle p (spent q g) e f = cc (ap (λ (r : Pointer). r.status) (some-eq e))
free-idle p (accepting q ws g) e f = cc (ap (λ (r : Pointer). r.status) (some-eq e))
free-idle p (connecting q t g) e f = cc (ap (λ (r : Pointer). r.status) (some-eq e))
free-idle p (resting q t delay g) e f = cc (ap (λ (r : Pointer). r.status) (some-eq e))
free-idle p (live q t at size g) e f = cc (ap (λ (r : Pointer). r.status) (some-eq e))
