-- ===== src/Base/Dict.antt =====
-- std::unordered_map with integer keys, as an association list in the order of its iteration.
use f1985gfw.Base.Tests.{◌==◌, if◌then◌else◌}
use Prim.Native.Nat.{ℕ}
use mathlib.Core.Path.{◌≡◌, refl}
use mathlib.Core.Option.{Option, none, some}
use mathlib.Core.List.{List, [], ◌∷◌}
use native.Mathlib.Omega.{arith}

abbrev pub Dict {ℓ} : Type ℓ → Type ℓ
Dict V = List (ℕ × V)

module _ {ℓ} {V : Type ℓ} where
  unfoldable pub find : ℕ → Dict V → Option V
  find k [] = none
  find k ((j, v) ∷ m) = if j == k then some v else find k m

  -- `m[k] = v`: the entry in place if the key is there, a new entry otherwise.
  unfoldable pub assign : ℕ → V → Dict V → Dict V
  assign k v [] = (k, v) ∷ []
  assign k v ((j, w) ∷ m) = if j == k then (j, v) ∷ m else (j, w) ∷ assign k v m

  -- `insert` and `try_emplace`: an entry that is there stays.
  unfoldable pub emplace : ℕ → V → Dict V → Dict V
  emplace k v [] = (k, v) ∷ []
  emplace k v ((j, w) ∷ m) = if j == k then (j, w) ∷ m else (j, w) ∷ emplace k v m

  unfoldable pub erase : ℕ → Dict V → Dict V
  erase k [] = []
  erase k ((j, w) ∷ m) = if j == k then erase k m else (j, w) ∷ erase k m

  pub find-assign :
      (j k : ℕ) (v : V) (m : Dict V) → find j (assign k v m) ≡ (if k == j then some v else find j m)
  unfolding find assign
  find-assign j k v [] = refl
  find-assign j k v ((i, w) ∷ m) = ground (arith, find-assign j k v m)

  pub find-emplace :
      (j k : ℕ) (v : V) (m : Dict V)
      → find j (emplace k v m)
        ≡ (if k == j then elim (find k m) [ none ↦ some v | some w ↦ some w ] else find j m)
  unfolding find emplace
  find-emplace j k v [] = refl
  find-emplace j k v ((i, w) ∷ m) = ground (arith, find-emplace j k v m)

  pub find-erase : (j k : ℕ) (m : Dict V) → find j (erase k m) ≡ (if k == j then none else find j m)
  unfolding find erase
  find-erase j k [] = ground arith
  find-erase j k ((i, w) ∷ m) = ground (arith, find-erase j k m)

  pub assign-assign : (k : ℕ) (v w : V) (m : Dict V) → assign k w (assign k v m) ≡ assign k w m
  unfolding assign
  assign-assign k v w [] = ground arith
  assign-assign k v w ((i, u) ∷ m) = ground (arith, assign-assign k v w m)

  pub find-assign_self : (k : ℕ) (v : V) (m : Dict V) → find k (assign k v m) ≡ some v
  find-assign_self k v m = rw (find-assign k k v m) (ground arith)
