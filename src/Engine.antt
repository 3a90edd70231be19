-- ===== src/Engine.antt =====
-- server/engine.{h,cpp} and client/main.cpp: the loop of both programs, and the commands of the console.
-- The calls of Lua are recorded here; Engine.Lua carries them out.
pub mod Tick
pub mod Client
pub mod Run
pub mod Loop
pub mod Example
pub mod Lasting
pub mod Visits
pub mod Lua
use f1985gfw.Base.{
  ℕ, ◌+◌, ◌-◌, ◌/◌, ◌%◌, ◌^◌, Bool, true, false, Option, none, some, List, [], ◌∷◌, ◌++◌, ltb,
  if◌then◌else◌, Result, ok, fault, bad_argument, ◌>>=◌, or_fault,
}
use f1985gfw.Base.Texts.{Text, same_text}
use f1985gfw.Console.{Command, pop_front}
use f1985gfw.Worker.State.{Net, World, Env}
use f1985gfw.Server.Sessions.{Proto, App, send_guard, emc_s2c_hello, emc_c2s_hello}

abbrev pub tick_interval : ℕ
tick_interval = 16

-- `spend_tick`, from the nanoseconds that a round took.
unfoldable pub spend_tick : ℕ → ℕ
spend_tick nanoseconds = nanoseconds / 1000 / 1000 % 2 ^ 32

-- The delay until the next round, in both programs.
unfoldable pub next_delta : ℕ → ℕ
next_delta spent = if ltb spent tick_interval then tick_interval - spent else 1

-- The names of the commands.
abbrev pub hello_name : Text
hello_name = b'h' ∷ b'e' ∷ b'l' ∷ b'l' ∷ b'o' ∷ []

abbrev pub refresh_name : Text
refresh_name = b'r' ∷ b'e' ∷ b'f' ∷ b'r' ∷ b'e' ∷ b's' ∷ b'h' ∷ []

abbrev pub reload_name : Text
reload_name = b'r' ∷ b'e' ∷ b'l' ∷ b'o' ∷ b'a' ∷ b'd' ∷ []

abbrev pub testlua1_name : Text
testlua1_name = b't' ∷ b'e' ∷ b's' ∷ b't' ∷ b'l' ∷ b'u' ∷ b'a' ∷ b'1' ∷ []

abbrev pub testlua2_name : Text
testlua2_name = b't' ∷ b'e' ∷ b's' ∷ b't' ∷ b'l' ∷ b'u' ∷ b'a' ∷ b'2' ∷ []

-- What is asked of Lua: run the main script, make a new state (as server/engine.cpp or as server/example.hpp
-- does), call a global.
pub data LuaCall : Type 0 where
  run_script new_state new_example_state call_check call_check_function : LuaCall

-- `engine`: its queue of commands, its worker, and the calls into Lua, oldest first.
pub record Engine : Type 0 where
  pub commands : List Command
  pub net : Net
  pub lua_calls : List LuaCall

-- `std::stoi` is a parameter: none is an exception.
module _ (env : Env) (stoi : Text → Option ℕ) where
  -- The command `hello` of both programs, with the number and the bytes of its message: false is the
  -- early return for want of a parameter.
  unfoldable pub say_hello : ℕ → List ℕ → Command → Net → Result (Net × Bool)
  say_hello msg_id bytes cmd net = elim cmd.params [
    | [] ↦ ok (net, false)
    | param ∷ _ ↦ do
      pointer_id ← or_fault (stoi param) bad_argument
      net ← send_guard env pointer_id msg_id bytes net
      ok (net, true)
  ]

  -- A call into Lua if the command has the name.
  unfoldable pub ask_lua : Text → LuaCall → Command → Engine → Engine
  ask_lua name call cmd e =
      if same_text cmd.name name then record e { lua_calls = e.lua_calls ++ call ∷ [] } else e

  -- `run_once` of the engine with a command. A scene has no update.
  unfoldable pub obey : Proto → Command → Engine → Result Engine
  obey proto cmd e = do
    (net, on) ←
        (if same_text cmd.name hello_name
          then say_hello emc_s2c_hello (proto.hello_bytes 100 (3434 ∷ [])) cmd e.net
          else ok (e.net, true))
    let e = record e { net = net }
    if on
        then ok (
            ask_lua testlua2_name call_check_function cmd (
              ask_lua testlua1_name call_check cmd
                (ask_lua reload_name new_state cmd (ask_lua refresh_name run_script cmd e))))
        else ok e

  unfoldable pub run_once : Proto → Engine → Result Engine
  run_once proto e =
      let (got, commands) = pop_front e.commands in
      let e : Engine = record e { commands = commands } in
      elim got [ none ↦ ok e | some cmd ↦ obey proto cmd e ]

  -- `run_once` of the client's world.
  unfoldable pub client_once :
      (ℕ → List ℕ → List ℕ) → List Command → Net → Result (List Command × Net)
  client_once hello_bytes commands net =
      let (got, commands) = pop_front commands in
      elim got [
        | none ↦ ok (commands, net)
        | some cmd ↦
            if same_text cmd.name hello_name
            then (do
              (net, on) ← say_hello emc_c2s_hello (hello_bytes 100 (3434 ∷ [])) cmd net
              ok (commands, net))
            else ok (commands, net)
      ]
