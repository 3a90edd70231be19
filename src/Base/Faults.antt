-- ===== src/Base/Faults.antt =====
-- Results of code that can fault: a fault stands for undefined behaviour or an uncaught exception.
use mathlib.Core.Path.{◌≡◌, refl}
use mathlib.Core.Option.{Option, none, some}
use native.Mathlib.Omega.{arith}
use Prim.Native.Nat.{ℕ, ◌+◌, ◌≤◌}
use mathlib.Core.List.{List, ◌++◌}
use f1985gfw.Base.Tests.{leb, if◌then◌else◌, le→leb}
use f1985gfw.Base.Lists.{
  length, take, drop, length-append, length-take, length-drop, take-append_front,
}

-- null_pointer: a null pointer is followed; bad_function: an empty std::function is called;
-- out_of_bounds: memory outside a block is touched; overlap: memcpy is given regions that overlap; bad_argument: a library call throws or aborts;
-- out_of_fuel: the bound on a loop is too small, which is shown not to happen.
pub data Fault : Type 0 where
  null_pointer bad_function out_of_bounds overlap bad_argument out_of_fuel : Fault

pub data Result {ℓ} (X : Type ℓ) : Type ℓ where
  fault : (why : Fault) → Result X
  ok : (x : X) → Result X

-- A chain of steps stops at the first fault.
infixl 5 ◌>>=◌
abbrev pub ◌>>=◌ {ℓ₁ ℓ₂} :
    {X : Type ℓ₁} {Y : Type ℓ₂} → (r : Result X) → (next : X → Result Y) → Result Y
fault why >>= next = fault why
ok x >>= next = next x

abbrev pub or_fault {ℓ} : {A : Type ℓ} → Option A → Fault → Result A
or_fault none e = fault e
or_fault (some a) e = ok a

-- A chain that ends well has a first step that does, and the rest ends well from its result.
pub >>=-split {ℓ₁ ℓ₂} :
    {X : Type ℓ₁} {Y : Type ℓ₂} {y : Y} (r : Result X) (next : X → Result Y)
    → (r >>= next) ≡ ok y
    → (x : X) × (r ≡ ok x) × (next x ≡ ok y)
>>=-split (fault why) next ends = cc
>>=-split (ok x) next ends = (x, refl, ends)

pub fault≢ok {ℓ} : {X : Type ℓ} {f : Fault} {x : X} → fault f ≡ ok x → ⊥
fault≢ok e = cc

pub or_fault-some {ℓ} :
    {X : Type ℓ} (f : Fault) {x : X} (o : Option X) → or_fault o f ≡ ok x → o ≡ some x
or_fault-some f none e = cc
or_fault-some f (some y) e = cc

-- A store of bytes into a block, a fault outside it.
unfoldable pub write_at : List ℕ → ℕ → List ℕ → Result (List ℕ)
write_at mem at xs =
    if leb (at + length xs) (length mem)
    then ok (take at mem ++ xs ++ drop (at + length xs) mem)
    else fault out_of_bounds

-- A store that fits replaces exactly the bytes it covers.
pub write_at-fits :
    (mem : List ℕ) (at : ℕ) (xs : List ℕ)
    → at + length xs ≤ length mem
    → write_at mem at xs ≡ ok (take at mem ++ xs ++ drop (at + length xs) mem)
unfolding write_at
write_at-fits mem at xs h = rw (le→leb _ _ h) refl

pub length-write :
    (mem : List ℕ) (at : ℕ) (xs : List ℕ)
    → at + length xs ≤ length mem
    → length (take at mem ++ xs ++ drop (at + length xs) mem) ≡ length mem
length-write mem at xs h = omega (
  arith,
  length-append (take at mem ++ xs) (drop (at + length xs) mem),
  length-append (take at mem) xs,
  length-take at mem,
  length-drop (at + length xs) mem,
)

pub take-write :
    (mem : List ℕ) (at : ℕ) (xs : List ℕ)
    → at + length xs ≤ length mem
    → take (at + length xs) (take at mem ++ xs ++ drop (at + length xs) mem) ≡ take at mem ++ xs
take-write mem at xs h =
    take-append_front (at + length xs) (take at mem ++ xs) _
      (omega (arith, length-append (take at mem) xs, length-take at mem))
