-- ===== src/Console/Words.antt =====
-- The words of a line, the independent description of what console_reader parses.
use f1985gfw.Base.{
  ℕ, ◌≡◌, ◌≢◌, refl, sym, ap, ◌∙◌, false, List, [], ◌∷◌, ◌++◌, ◌==◌, if◌then◌else◌, append_assoc,
  Bool-cases, append-nil, inl, inr,
}
use mathlib.Core.Path.{ap₂}
use f1985gfw.Console.{delimiter}

unfoldable pub flush : List ℕ → List (List ℕ) → List (List ℕ)
flush [] ws = ws
flush (c ∷ cur) ws = (c ∷ cur) ∷ ws

-- The words of `cur ++ xs`, where `cur` is the part of a word that has been read.
unfoldable pub words_after : List ℕ → List ℕ → List (List ℕ)
words_after cur [] = flush cur []
words_after cur (x ∷ xs) =
    if x == delimiter then flush cur (words_after [] xs) else words_after (cur ++ x ∷ []) xs

-- The maximal parts of a line that hold no delimiter and are not empty, in order.
unfoldable pub words : List ℕ → List (List ℕ)
unfolding words_after flush
words xs = words_after [] xs

-- A line without its leading delimiters; its first word; what follows that.
unfoldable pub skip : List ℕ → List ℕ
skip [] = []
skip (x ∷ xs) = if x == delimiter then skip xs else x ∷ xs

unfoldable pub word : List ℕ → List ℕ
word [] = []
word (x ∷ xs) = if x == delimiter then [] else x ∷ word xs

unfoldable pub rest_of : List ℕ → List ℕ
rest_of [] = []
rest_of (x ∷ xs) = if x == delimiter then x ∷ xs else rest_of xs

pub words-nil : words [] ≡ []
unfolding words
words-nil = refl

pub words-skip : (xs : List ℕ) → words (skip xs) ≡ words xs
unfolding words skip
words-skip [] = refl
words-skip (x ∷ xs) = elim (Bool-cases (x == delimiter)) [
  | inl gap ↦ rw gap (words-skip xs)
  | inr text ↦ rw text (rw text refl)
]

words_after-word :
    (c : ℕ) (cur xs : List ℕ)
    → words_after (c ∷ cur) xs ≡ ((c ∷ cur) ++ word xs) ∷ words (rest_of xs)
unfolding words word rest_of
words_after-word c cur [] = ap (λ (ys : List ℕ). (c ∷ ys) ∷ []) (sym (append-nil cur))
words_after-word c cur (x ∷ xs) = elim (Bool-cases (x == delimiter)) [
  | inl gap ↦ rw gap (rw (gap, append-nil cur) refl)
  | inr text ↦ rw text (
      words_after-word c (cur ++ x ∷ []) xs
      ∙ ap (λ (ys : List ℕ). (c ∷ ys) ∷ words_after [] (rest_of xs))
          (append_assoc cur (x ∷ []) (word xs)))
]

pub words-cons :
    (x : ℕ) (xs : List ℕ)
    → (x == delimiter) ≡ false
    → words (x ∷ xs) ≡ word (x ∷ xs) ∷ words (rest_of (x ∷ xs))
unfolding words word rest_of
words-cons x xs text = rw text (words_after-word x [] xs)

-- Commands and lines that the program writes: words joined by one delimiter each.
unfoldable pub line_of : List (List ℕ) → List ℕ
line_of [] = []
line_of (w ∷ ws) = w ++ delimiter ∷ line_of ws

-- A word holds no delimiter and is not empty.
abbrev pub HoldsNone : List ℕ → Type 0
HoldsNone [] = Unit {0}
HoldsNone (c ∷ cs) = ((c == delimiter) ≡ false) × HoldsNone cs

abbrev pub AreWords : List (List ℕ) → Type 0
AreWords [] = Unit {0}
AreWords (w ∷ ws) = (w ≢ []) × HoldsNone w × AreWords ws

word-append : (w xs : List ℕ) → HoldsNone w → word (w ++ delimiter ∷ xs) ≡ w
unfolding word
word-append [] xs h = refl
word-append (c ∷ w) xs h = rw h.0 (ap (λ (ys : List ℕ). c ∷ ys) (word-append w xs h.1))

rest_of-append : (w xs : List ℕ) → HoldsNone w → rest_of (w ++ delimiter ∷ xs) ≡ delimiter ∷ xs
unfolding rest_of
rest_of-append [] xs h = refl
rest_of-append (c ∷ w) xs h = rw h.0 (rest_of-append w xs h.1)

words-delimiter : (xs : List ℕ) → words (delimiter ∷ xs) ≡ words xs
unfolding words
words-delimiter xs = refl

-- The words of a line that was written from words are those words.
pub words-line_of : (ws : List (List ℕ)) → AreWords ws → words (line_of ws) ≡ ws
unfolding words line_of
words-line_of [] h = refl
words-line_of ([] ∷ ws) h = absurd (h.0 refl)
words-line_of ((c ∷ w) ∷ ws) h =
    words-cons c (w ++ delimiter ∷ line_of ws) h.1.0
    ∙ ap₂ (λ (u : List ℕ) us. u ∷ us) (word-append (c ∷ w) (line_of ws) h.1)
        (ap words (rest_of-append (c ∷ w) (line_of ws) h.1)
          ∙ words-delimiter (line_of ws)
          ∙ words-line_of ws h.2)
