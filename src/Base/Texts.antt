-- ===== src/Base/Texts.antt =====
-- std::string as the list of its bytes, and std::map with such keys, as an association list.
use f1985gfw.Base.Tests.{◌==◌, if◌then◌else◌, Bool-cases}
use Prim.Native.Nat.{ℕ}
use Prim.Native.Char.{code}
use Prim.Native.String.{String}
use mathlib.Core.Path.{◌≡◌, refl}
use mathlib.Core.Bool.{Bool, true, false, ◌&&◌}
use mathlib.Core.Option.{Option, none, some}
use mathlib.Core.List.{List, [], ◌∷◌}
use mathlib.Core.Logic.{inl, inr}
use native.Mathlib.Omega.{arith}

abbrev pub Text : Type 0
Text = List ℕ

-- The bytes of an ASCII literal.
abbrev pub codes : String → Text
codes String.[] = []
codes (String.◌∷◌ c s) = code c ∷ codes s

unfoldable pub same_text : Text → Text → Bool
same_text [] [] = true
same_text [] (b ∷ bs) = false
same_text (a ∷ xs) [] = false
same_text (a ∷ xs) (b ∷ bs) = a == b && same_text xs bs

pub same_text_refl : (a : Text) → same_text a a ≡ true
unfolding same_text
same_text_refl [] = refl
same_text_refl (x ∷ xs) = ground (arith, same_text_refl xs)

pub same_text-eq : (a b : Text) → same_text a b ≡ true → a ≡ b
unfolding same_text
same_text-eq [] [] e = refl
same_text-eq [] (b ∷ bs) e = cc
same_text-eq (a ∷ xs) [] e = cc
same_text-eq (a ∷ xs) (b ∷ bs) e = ground (arith, same_text-eq xs bs)

abbrev pub TextMap {ℓ} : Type ℓ → Type ℓ
TextMap V = List (Text × V)

module _ {ℓ} {V : Type ℓ} where
  unfoldable pub lookup : Text → TextMap V → Option V
  lookup k [] = none
  lookup k ((j, v) ∷ m) = if same_text j k then some v else lookup k m

  -- `insert`: an entry that is there stays.
  unfoldable pub insert : Text → V → TextMap V → TextMap V
  insert k v [] = (k, v) ∷ []
  insert k v ((j, w) ∷ m) = if same_text j k then (j, w) ∷ m else (j, w) ∷ insert k v m

  pub lookup-insert :
      (k : Text) (v : V) (m : TextMap V)
      → lookup k (insert k v m) ≡ some (elim (lookup k m) [ none ↦ v | some w ↦ w ])
  unfolding lookup insert
  lookup-insert k v [] = rw (same_text_refl k) refl
  lookup-insert k v ((j, w) ∷ m) = elim (Bool-cases (same_text j k)) [
    | inl same ↦ rw same (rw same refl)
    | inr other ↦ rw other (rw other (lookup-insert k v m))
  ]

  pub lookup-insert_other :
      (j k : Text) (v : V) (m : TextMap V)
      → same_text k j ≡ false
      → lookup j (insert k v m) ≡ lookup j m
  unfolding lookup insert
  lookup-insert_other j k v [] away = rw away refl
  lookup-insert_other j k v ((i, w) ∷ m) away = elim (Bool-cases (same_text i k)) [
    | inl same ↦ rw same refl
    | inr other ↦ rw other (elim (Bool-cases (same_text i j)) [
      | inl hit ↦ rw hit refl
      | inr miss ↦ rw miss (lookup-insert_other j k v m away)
    ])
  ]
