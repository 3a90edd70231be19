-- ===== src/Console/Loop.antt =====
-- console_reader::parse (source/console_reader.hpp) gives the words of a line: the first is the name.
use f1985gfw.Base.{
  ℕ, zero, suc, ◌-◌, ◌≤◌, ◌<◌, ◌≡◌, refl, sym, ap, ◌∙◌, false, Option, none, some, List, [], ◌∷◌,
  ◌++◌, length, drop, ◌==◌, le→leb, lt→leb, arith, append_assoc, Bool-cases, append-nil, inl, inr,
  length-drop,
}
use f1985gfw.Console.{
  delimiter, Command, no_command, get_begin_pos, find_delimiter, word_end, substr, add_word,
  parse_words, parse,
}
use f1985gfw.Console.Words.{
  words, skip, word, rest_of, words-skip, words-nil, words-cons, line_of, AreWords, words-line_of,
}
use f1985gfw.Console.Parsing.{add_words, drop-get_begin_pos, or_end, Ends, find_delimiter-Ends}

skip-head : (xs : List ℕ) {c : ℕ} {ys : List ℕ} → skip xs ≡ c ∷ ys → (c == delimiter) ≡ false
unfolding skip
skip-head [] e = cc
skip-head (x ∷ xs) e = elim (Bool-cases (x == delimiter)) [
  | inl gap ↦ skip-head xs (rw gap at e)
  | inr text ↦ ground arith
]

length-skip : (xs : List ℕ) → length (skip xs) ≤ length xs
unfolding skip
length-skip [] = omega arith
length-skip (x ∷ xs) = ground (arith, length-skip xs)

length-rest_of : (xs : List ℕ) → length (rest_of xs) ≤ length xs
unfolding rest_of
length-rest_of [] = omega arith
length-rest_of (x ∷ xs) = ground (arith, length-rest_of xs)

word_end-Ends : (str : List ℕ) (pos : ℕ) → pos ≤ length str → Ends str pos (word_end str pos)
unfolding word_end or_end
word_end-Ends str pos h =
    go (find_delimiter (length str) str pos)
      (find_delimiter-Ends (length str) str pos (omega (arith, length-drop pos str)) h)
  where
    go :
        (o : Option ℕ)
        → Ends str pos (or_end str o)
        → Ends str pos (elim o [ none ↦ length str | some p ↦ p ])
    go none k = k
    go (some p) k = k

-- A round of the loop at a word.
word_round :
    (str : List ℕ) (pos c : ℕ) (ys : List ℕ) (cmd : Command)
    → pos ≤ length str
    → drop pos str ≡ c ∷ ys
    → (c == delimiter) ≡ false
    → (substr str pos (word_end str pos - pos) ≡ word (drop pos str))
      × (words (drop pos str) ≡ word (drop pos str) ∷ words (drop (word_end str pos) str))
      × (length (drop (word_end str pos) str) < length (drop pos str))
unfolding substr
word_round str pos c ys cmd h e text =
    let k = word_end-Ends str pos h in
    (k.taken, rw (k.left, e) (words-cons c ys text), rw (k.left, e) (shorter c ys text))
  where
    shorter :
        (c : ℕ) (ys : List ℕ)
        → (c == delimiter) ≡ false
        → length (rest_of (c ∷ ys)) < suc (length ys)
    shorter c ys text = unfold rest_of in rw text (omega (arith, length-rest_of ys))

-- The loop, from any position.
parse_words-words :
    (fuel : ℕ) (str : List ℕ) (next_pos : ℕ) (cmd : Command)
    → length (drop next_pos str) < fuel
    → parse_words fuel str next_pos cmd ≡ add_words cmd (words (drop next_pos str))
unfolding parse_words add_words
parse_words-words zero str next_pos cmd h = absurd (omega arith)
parse_words-words (suc fuel) str next_pos cmd h =
    by_rest (parse_words-words fuel str) (drop pos str) refl
  where
    pos : ℕ
    pos = get_begin_pos (length str) str next_pos

    begins : drop pos str ≡ skip (drop next_pos str)
    begins = drop-get_begin_pos (length str) str next_pos (omega (arith, length-drop next_pos str))

    same_words : words (drop next_pos str) ≡ words (drop pos str)
    same_words = sym (words-skip (drop next_pos str)) ∙ ap words (sym begins)

    by_rest :
        ((next : ℕ) (cmd : Command)
          → length (drop next str) < fuel
          → parse_words fuel str next cmd ≡ add_words cmd (words (drop next str)))
        → (xs : List ℕ) → drop pos str ≡ xs
        → parse_words (suc fuel) str next_pos cmd ≡ add_words cmd (words (drop next_pos str))
    by_rest go_on [] e =
        rw
          (
            same_words,
            e,
            words-nil,
            parse_words,
            le→leb (length str) pos (omega (arith, ap length e, length-drop pos str)),
          )
          refl
    by_rest go_on (c ∷ ys) e =
        let inside : pos < length str = omega (arith, ap length e, length-drop pos str) in
        let (text, split, shorter) =
          word_round str pos c ys cmd (omega arith) e
            (skip-head (drop next_pos str) (sym begins ∙ e)) in
        rw (same_words, split, parse_words, lt→leb (length str) pos inside, text)
          (go_on (word_end str pos) (add_word cmd (word (drop pos str)))
            (omega (arith, ap length begins, length-skip (drop next_pos str))))

-- The command whose words these are: the first is the name, the others are parameters.
unfoldable pub command_of : List (List ℕ) → Command
command_of [] = no_command
command_of (w ∷ ws) = record { name = w; params = ws }

add_words-params :
    (c : ℕ) (name : List ℕ) (params ws : List (List ℕ))
    → add_words (record { name = c ∷ name; params = params }) ws
      ≡ record { name = c ∷ name; params = params ++ ws }
unfolding add_words add_word
add_words-params c name params [] =
    ap (λ (ps : List (List ℕ)). record { name = c ∷ name; params = ps }) (sym (append-nil params))
add_words-params c name params (w ∷ ws) =
    add_words-params c name (params ++ w ∷ []) ws
    ∙ ap (λ (ps : List (List ℕ)). record { name = c ∷ name; params = ps })
        (append_assoc params (w ∷ []) ws)

add_words-command_of :
    (xs ys : List ℕ) → skip xs ≡ ys → add_words no_command (words ys) ≡ command_of (words ys)
unfolding add_words command_of add_word
add_words-command_of xs [] e = rw words-nil refl
add_words-command_of xs (c ∷ ys) e =
    let text = skip-head xs e in
    rw (words-cons c ys text)
      (unfold word in rw text (add_words-params c (word ys) [] (words (rest_of (c ∷ ys)))))

-- `parse` splits a line at its delimiters: the first word is the name and the others, in order, are the
-- parameters; a line without words gives the empty command.
pub parse-words : (str : List ℕ) → parse str ≡ command_of (words str)
unfolding parse
parse-words str =
    parse_words-words (suc (length str)) str 0 no_command (omega arith)
    ∙ ap (add_words no_command) (sym (words-skip str))
    ∙ add_words-command_of str (skip str) refl
    ∙ ap command_of (words-skip str)

-- A command survives being written with a delimiter behind each word, if its words are not empty and
-- hold no delimiter.
pub parse-line_of :
    (name : List ℕ) (params : List (List ℕ))
    → AreWords (name ∷ params)
    → parse (line_of (name ∷ params)) ≡ record { name = name; params = params }
unfolding command_of
parse-line_of name params h =
    parse-words (line_of (name ∷ params)) ∙ ap command_of (words-line_of (name ∷ params) h)
