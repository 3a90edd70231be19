-- ===== src/Engine/Run.antt =====
-- server/engine.cpp: what a round of the loop does with the command `hello`, from the typed line to the
-- bytes on the socket.
use f1985gfw.Base.{
  ℕ, ◌≤◌, ◌≡◌, arith, refl, sym, ap, subst, ◌∙◌, true, Option, some, List, [], ◌∷◌, ◌++◌, length,
  ok, frame,
}
use f1985gfw.Base.Dict.{find}
use f1985gfw.Base.Texts.{Text, same_text}
use f1985gfw.Packet.Pack.{IsAmple}
use f1985gfw.Console.{Command, pop_front, push_back, process_line, parse}
use f1985gfw.Console.Words.{line_of, AreWords}
use f1985gfw.Console.Loop.{parse-line_of}
use f1985gfw.Worker.State.{Pointer, connected, Net, Env}
use f1985gfw.Server.Sessions.{Proto, int_max, emc_s2c_hello}
use f1985gfw.Server.Reply.{send_guard-frame}
use f1985gfw.Server.Effects.{cut}
use f1985gfw.Engine.{Engine, hello_name, run_once, obey, say_hello, ask_lua}

module _ (env : Env) (stoi : Text → Option ℕ) (proto : Proto) where
  obey-alone :
      (e : Engine) → obey env stoi proto (record { name = hello_name; params = [] }) e ≡ ok e
  unfolding obey say_hello same_text
  obey-alone e = refl

  -- A typed `hello` without a parameter does nothing.
  pub hello-alone :
      (e : Engine) (line : Text) (rest : List Command)
      → e.commands ≡ parse line ∷ rest
      → parse line ≡ record { name = hello_name; params = [] }
      → run_once env stoi proto e ≡ ok (record e { commands = rest })
  unfolding run_once pop_front
  hello-alone e line rest typed hello =
      subst
        (λ (cs : List Command).
          run_once env stoi proto (record e { commands = cs }) ≡ ok (record e { commands = rest }))
        (ap (λ (c : Command). c ∷ rest) (sym hello) ∙ sym typed)
        (obey-alone (record e { commands = rest }))

  module _ (id : ℕ) (p : Pointer) (param : Text) (more : List Text) (number : stoi param ≡ some id)
      (ample : IsAmple env.allocator) (small : length (proto.hello_bytes 100 (3434 ∷ [])) ≤ int_max)
      (writable : env.writable id (frame emc_s2c_hello (cut (proto.hello_bytes 100 (3434 ∷ []))))
        ≡ true) where
    -- The engine's network after one hello message.
    abbrev pub greeted : Net → Net
    greeted net = record net {
      sent = net.sent ++ (id, frame emc_s2c_hello (cut (proto.hello_bytes 100 (3434 ∷ [])))) ∷ [];
    }

    obey-hello :
        (e : Engine)
        → find id e.net.pointers ≡ some p
        → p.status ≡ connected
        → obey env stoi proto (record { name = hello_name; params = param ∷ more }) e
          ≡ ok (record e { net = greeted e.net })
    unfolding obey say_hello ask_lua same_text
    obey-hello e found online =
        rw
          (
            number,
            (send_guard-frame env id emc_s2c_hello (proto.hello_bytes 100 (3434 ∷ [])) e.net p found
                  online ample (omega arith)).0
                small writable,
          )
          refl

    -- A typed `hello` with the number of a connected slot, with memory at hand, a message of at
    -- most INT_MAX bytes and a socket that takes it, sends one hello message through that slot, and
    -- nothing else: the command is taken from the queue and Lua is not called.
    pub hello-sent :
        (e : Engine) (line : Text) (rest : List Command)
        → e.commands ≡ parse line ∷ rest
        → parse line ≡ record { name = hello_name; params = param ∷ more }
        → find id e.net.pointers ≡ some p
        → p.status ≡ connected
        → run_once env stoi proto e ≡ ok (record e { commands = rest; net = greeted e.net })
    unfolding run_once pop_front
    hello-sent e line rest typed hello found online =
        subst
          (λ (cs : List Command).
            run_once env stoi proto (record e { commands = cs })
            ≡ ok (record e { commands = rest; net = greeted e.net }))
          (ap (λ (c : Command). c ∷ rest) (sym hello) ∙ sym typed)
          (obey-hello (record e { commands = rest }) found online)

    -- A line that is typed at the console while no command waits, `hello` and the number of a connected
    -- slot and maybe more words, each with a space behind it, goes through the parser and the queue: the next
    -- round of the loop takes it, and with memory at hand, a message of at most INT_MAX bytes and a socket that takes it, sends one
    -- hello message through that slot and nothing else. The queue is empty after it and Lua is not called.
    pub typed-hello :
        (e : Engine)
        → e.commands ≡ []
        → AreWords (hello_name ∷ param ∷ more)
        → find id e.net.pointers ≡ some p
        → p.status ≡ connected
        → run_once env stoi proto
            (record e { commands = process_line (line_of (hello_name ∷ param ∷ more)) e.commands })
          ≡ ok (record e { commands = []; net = greeted e.net })
    unfolding process_line push_back
    typed-hello e none_waits words found online =
        hello-sent
          (record e { commands = process_line (line_of (hello_name ∷ param ∷ more)) e.commands })
          (line_of (hello_name ∷ param ∷ more)) []
          (ap (λ (cs : List Command). cs ++ parse (line_of (hello_name ∷ param ∷ more)) ∷ [])
            none_waits)
          (parse-line_of hello_name (param ∷ more) words) found online
