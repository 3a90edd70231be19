-- ===== src/Console/Parsing.antt =====
-- console_reader::parse (source/console_reader.hpp) finds the words of a line.
use f1985gfw.Base.{
  ℕ, zero, suc, ◌-◌, ◌≤◌, ◌≡◌, refl, ap, false, Option, none, some, List, [], ◌∷◌, length, take,
  drop, get_elem?, ◌==◌, arith, Bool-cases, Option-cases, inl, inr, length-drop, drop-get,
  drop-none, drop_beyond,
}
use f1985gfw.Console.{delimiter, Command, get_begin_pos, find_delimiter, add_word}
use f1985gfw.Console.Words.{skip, word, rest_of}

-- The command with these words added, one after the other.
unfoldable pub add_words : Command → List (List ℕ) → Command
add_words cmd [] = cmd
add_words cmd (w ∷ ws) = add_words (add_word cmd w) ws

pub drop-get_begin_pos :
    (fuel : ℕ) (str : List ℕ) (pos : ℕ)
    → length (drop pos str) ≤ fuel
    → drop (get_begin_pos fuel str pos) str ≡ skip (drop pos str)
unfolding get_begin_pos skip
drop-get_begin_pos zero str pos h = nil (drop pos str) h
  where
    nil : (xs : List ℕ) → length xs ≤ 0 → xs ≡ skip xs
    nil [] h = refl
    nil (x ∷ xs) h = absurd (omega arith)
drop-get_begin_pos (suc fuel) str pos h = elim (Option-cases (get_elem? str pos)) [
  | inl past ↦ rw (past, get_begin_pos, drop-none str pos past) refl
  | inr (c, here) ↦ elim (Bool-cases (c == delimiter)) [
    | inl gap ↦
        rw (here, get_begin_pos, gap, drop-get str pos c here, gap)
          (drop-get_begin_pos fuel str (suc pos)
            (omega (arith, ap length (drop-get str pos c here))))
    | inr text ↦ rw (here, get_begin_pos, text, drop-get str pos c here, text) refl
  ]
]

-- What `find` from `pos` gives, with the end of the text for npos.
pub record Ends (str : List ℕ) (pos next : ℕ) : Type 0 where
  pub after : pos ≤ next
  pub taken : take (next - pos) (drop pos str) ≡ word (drop pos str)
  pub left : drop next str ≡ rest_of (drop pos str)

unfoldable pub or_end : List ℕ → Option ℕ → ℕ
or_end str none = length str
or_end str (some p) = p

Ends-none :
    (str : List ℕ) (pos : ℕ) → pos ≤ length str → drop pos str ≡ [] → Ends str pos (length str)
unfolding word rest_of
Ends-none str pos h e = record {
  after = h;
  taken = rw e (take_nil (length str - pos));
  left = rw (e, drop_beyond (length str) str (omega arith)) refl;
}
  where
    take_nil : (n : ℕ) → take {A = ℕ} n [] ≡ []
    take_nil zero = refl
    take_nil (suc n) = refl

Ends-suc :
    (str : List ℕ) (pos next c : ℕ)
    → drop pos str ≡ c ∷ drop (suc pos) str
    → (c == delimiter) ≡ false
    → Ends str (suc pos) next
    → Ends str pos next
unfolding word rest_of
Ends-suc str pos next c e text k = record {
  after = omega (arith, k.after);
  taken = rw (e, text, more) (ap (λ (xs : List ℕ). c ∷ xs) k.taken);
  left = rw (e, text) k.left;
}
  where
    more : next - pos ≡ suc (next - suc pos)
    more = omega (arith, k.after)

pub find_delimiter-Ends :
    (fuel : ℕ) (str : List ℕ) (pos : ℕ)
    → length (drop pos str) ≤ fuel
    → pos ≤ length str
    → Ends str pos (or_end str (find_delimiter fuel str pos))
unfolding find_delimiter or_end word rest_of
find_delimiter-Ends zero str pos h k = Ends-none str pos k (nil (drop pos str) h)
  where
    nil : (xs : List ℕ) → length xs ≤ 0 → xs ≡ []
    nil [] h = refl
    nil (x ∷ xs) h = absurd (omega arith)
find_delimiter-Ends (suc fuel) str pos h k = elim (Option-cases (get_elem? str pos)) [
  | inl past ↦ rw (past, find_delimiter) (Ends-none str pos k (drop-none str pos past))
  | inr (c, here) ↦
      let seen = drop-get str pos c here in
      let no_step : pos - pos ≡ 0 = omega arith in
      elim (Bool-cases (c == delimiter)) [
        | inl gap ↦
            rw (here, find_delimiter, gap)
              (record {
                after = omega arith;
                taken = rw (seen, gap, no_step) refl;
                left = rw (seen, gap) refl;
              })
        | inr text ↦
            rw (here, find_delimiter, text)
              (Ends-suc str pos _ c seen text (
                find_delimiter-Ends fuel str (suc pos) (omega (arith, ap length seen))
                  (omega (arith, ap length seen, length-drop pos str))))
      ]
]
