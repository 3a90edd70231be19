-- ===== src/Tests/Consoles.antt =====
-- source/console_reader.hpp and server/engine.cpp at a typed line.
use f1985gfw.Base.{◌++◌, arith, ok, frame, ℕ, ◌-◌, ◌≡◌, refl, Option, none, some, List, [], ◌∷◌}
use f1985gfw.Base.Texts.{Text}
use f1985gfw.Base.Dict.{find}
use f1985gfw.Console.{parse, process_line}
use f1985gfw.Console.Words.{line_of, AreWords, words}
use f1985gfw.Console.Loop.{parse-words, parse-line_of, command_of}
use f1985gfw.Server.Sessions.{emc_s2c_hello, Hello}
use f1985gfw.Server.Effects.{cut}
use f1985gfw.Engine.{Engine, run_once, hello_name}
use f1985gfw.Engine.Run.{typed-hello}
use f1985gfw.Tests.Memory.{easy, plain-IsAmple}
use f1985gfw.Tests.Sessions.{bytes_proto, client_net, client_slot}

abbrev three : Text
three = b'3' ∷ []

words-AreWords : AreWords (hello_name ∷ three ∷ [])
words-AreWords = (λ e. cc, (refl, (refl, (refl, (refl, (refl, tt))))), (λ e. cc, (refl, tt), tt))

parse-words_example :
    parse (b' ' ∷ b'g' ∷ b' ' ∷ b'o' ∷ []) ≡ command_of (words (b' ' ∷ b'g' ∷ b' ' ∷ b'o' ∷ []))
parse-words_example = parse-words (b' ' ∷ b'g' ∷ b' ' ∷ b'o' ∷ [])

parse-line_of_example :
    parse (line_of (hello_name ∷ three ∷ [])) ≡ record { name = hello_name; params = three ∷ [] }
parse-line_of_example = parse-line_of hello_name (three ∷ []) words-AreWords

abbrev pub engine : Engine
engine = record {
  commands = parse (line_of (hello_name ∷ three ∷ [])) ∷ [];
  net = client_net [];
  lua_calls = [];
}

-- A number of one digit.
abbrev pub digit : Text → Option ℕ
digit [] = none
digit (c ∷ cs) = some (c - 48)

-- The engine before the line is typed.
abbrev quiet_engine : Engine
quiet_engine = record engine { commands = [] }

typed-hello_example :
    run_once easy digit bytes_proto (record quiet_engine {
      commands = process_line (line_of (hello_name ∷ three ∷ [])) quiet_engine.commands;
    })
    ≡ ok (record quiet_engine {
      commands = [];
      net = record quiet_engine.net {
        sent =
            quiet_engine.net.sent
            ++ (3, frame emc_s2c_hello (cut (bytes_proto.hello_bytes 100 (3434 ∷ [])))) ∷ [];
      };
    })
unfolding find
typed-hello_example =
    typed-hello easy digit bytes_proto 3 client_slot three [] refl plain-IsAmple (omega arith) refl
      quiet_engine refl words-AreWords refl refl

abbrev pub no_hello : List ℕ → Option Hello
no_hello body = none
