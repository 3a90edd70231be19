-- ===== src/Console/Order.antt =====
-- The queue between console_reader's thread (source/console_reader.hpp) and the engine's loop, which
-- polls it once each round. Each call is taken as one step, although pop_front reads the queue outside the mutex at first.
use f1985gfw.Base.{
  ◌≡◌, sym, ap, ◌∙◌, Option, none, some, List, ℕ, [], ◌∷◌, ◌++◌, append_assoc, append-nil,
}
use f1985gfw.Console.{Command, parse, push_back, pop_front, process_line}

pub data Turn : Type 0 where
  typed : List ℕ → Turn
  polled : Turn

-- What the polls got, and the queue that is left.
abbrev pub keep_got : Option Command → List Command → List Command
keep_got none cmds = cmds
keep_got (some cmd) cmds = cmd ∷ cmds

unfoldable pub run_turns : List Turn → List Command → List Command × List Command
run_turns [] queue = ([], queue)
run_turns (typed line ∷ turns) queue = run_turns turns (process_line line queue)
run_turns (polled ∷ turns) queue =
    let (got, queue) = pop_front queue in
    let (cmds, queue) = run_turns turns queue in (keep_got got cmds, queue)

unfoldable pub typed_commands : List Turn → List Command
typed_commands [] = []
typed_commands (typed line ∷ turns) = parse line ∷ typed_commands turns
typed_commands (polled ∷ turns) = typed_commands turns

-- However the two threads take turns, the engine gets the commands in the order in which they were
-- typed: what it got, followed by what still waits, is what waited at first, followed by what was typed.
pub run_turns-order :
    (turns : List Turn) (queue : List Command)
    → (run_turns turns queue).0 ++ (run_turns turns queue).1 ≡ queue ++ typed_commands turns
unfolding run_turns typed_commands process_line push_back pop_front
run_turns-order [] queue = sym (append-nil queue)
run_turns-order (typed line ∷ turns) queue =
    run_turns-order turns (queue ++ parse line ∷ [])
    ∙ append_assoc queue (parse line ∷ []) (typed_commands turns)
run_turns-order (polled ∷ turns) [] = run_turns-order turns []
run_turns-order (polled ∷ turns) (cmd ∷ queue) =
    ap (λ (cmds : List Command). cmd ∷ cmds) (run_turns-order turns queue)
