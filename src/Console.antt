-- ===== src/Console.antt =====
-- source/console_reader.hpp: commands typed at the console. A text is the list of its bytes; a position
-- in it is a number, and `none` stands for std::string::npos.
pub mod Words
pub mod Parsing
pub mod Loop
pub mod Order
use f1985gfw.Base.{
  ℕ, zero, suc, ◌+◌, ◌-◌, Bool, true, false, Option, none, some, List, [], ◌∷◌, ◌++◌, length, take,
  drop, get_elem?, leb, ◌==◌, if◌then◌else◌,
}

pub record Command : Type 0 where
  pub name : List ℕ
  pub params : List (List ℕ)

abbrev pub no_command : Command
no_command = record { name = []; params = [] }

abbrev pub delimiter : ℕ
delimiter = b' '

-- `get_begin_pos`: the first position from `pos` on that holds no delimiter, or the end. The fuel is
-- the number of rounds at most.
unfoldable pub get_begin_pos : ℕ → List ℕ → ℕ → ℕ
get_begin_pos zero str pos = pos
get_begin_pos (suc fuel) str pos =
    let next = get_begin_pos fuel str (suc pos) in
    elim (get_elem? str pos) [ none ↦ pos | some c ↦ if c == delimiter then next else pos ]

-- `std::string::find(delimiter, pos)`.
unfoldable pub find_delimiter : ℕ → List ℕ → ℕ → Option ℕ
find_delimiter zero str pos = none
find_delimiter (suc fuel) str pos =
    let next = find_delimiter fuel str (suc pos) in
    elim (get_elem? str pos) [ none ↦ none | some c ↦ if c == delimiter then some pos else next ]

-- `next_pos`: the next delimiter, or the end of the text if there is none.
unfoldable pub word_end : List ℕ → ℕ → ℕ
word_end str pos = elim (find_delimiter (length str) str pos) [ none ↦ length str | some p ↦ p ]

unfoldable pub substr : List ℕ → ℕ → ℕ → List ℕ
substr str pos count = take count (drop pos str)

-- The first word is the name, the others are parameters.
unfoldable pub add_word : Command → List ℕ → Command
add_word cmd str = elim cmd.name [
  | [] ↦ record cmd { name = str }
  | _ ∷ _ ↦ record cmd { params = cmd.params ++ str ∷ [] }
]

-- The do-while loop of `parse`, from `next_pos` on.
unfoldable pub parse_words : ℕ → List ℕ → ℕ → Command → Command
parse_words zero str next_pos cmd = cmd
parse_words (suc fuel) str next_pos cmd =
    let pos = get_begin_pos (length str) str next_pos in
    let next_pos = word_end str pos in
    let rest = parse_words fuel str next_pos (add_word cmd (substr str pos (next_pos - pos))) in
    if leb (length str) pos then cmd else rest

-- `parse` into a new command. Each round uses up a byte, so the fuel is enough.
unfoldable pub parse : List ℕ → Command
parse str = parse_words (suc (length str)) str 0 no_command

-- The queue of commands, oldest first; `push_back` holds the mutex.
unfoldable pub push_back : Command → List Command → List Command
push_back cmd queue = queue ++ cmd ∷ []

-- `pop_front`: none is false. It asks whether the queue is empty without the mutex, which is a data race
-- with `push_back`; here, as with the mutex, it sees the queue before or after a push.
unfoldable pub pop_front : List Command → Option Command × List Command
pop_front [] = (none, [])
pop_front (cmd ∷ queue) = (some cmd, queue)

-- A round of `process`, given the line that was read.
unfoldable pub process_line : List ℕ → List Command → List Command
process_line line queue = push_back (parse line) queue
