-- ===== src/Engine/Example.antt =====
-- server/example.hpp: the world that the engine grew out of, on the same worker, console and Lua.
use f1985gfw.Base.{
  ℕ, ◌*◌, ◌-◌, Bool, true, false, Option, none, some, [], ◌∷◌, ltb, if◌then◌else◌, Result, ok,
  fault, out_of_bounds, bad_argument, ◌>>=◌, or_fault,
}
use f1985gfw.Base.Texts.{Text, same_text}
use f1985gfw.Console.{Command, pop_front}
use f1985gfw.Worker.State.{Net, Env, Hooks, MsgHandler}
use f1985gfw.Worker.Slot.{init}
use f1985gfw.Worker.Close.{on_connect, on_disconnect, on_msg}
use f1985gfw.Worker.Events.{open_port}
use f1985gfw.Server.Sessions.{Proto, send_guard, emc_c2s_hello, emc_s2c_hello}
use f1985gfw.Engine.{
  Engine, run_script, new_example_state, call_check, call_check_function, hello_name, refresh_name,
  reload_name, testlua1_name, testlua2_name, tick_interval, spend_tick, ask_lua,
}
use f1985gfw.Engine.Client.{Nothing, hear_connect, hear_disconnect}

-- The handler of C2S_Hello: the reply is sent when the guard goes out of scope.
unfoldable pub answer_hello : Env → Proto → MsgHandler Nothing
answer_hello env proto pointer_id body w = elim (proto.parse_hello body) [
  | none ↦ ok (w, false)
  | some msg ↦ elim msg.member [
    | [] ↦ fault out_of_bounds
    | _ ∷ _ ↦ do
      net ← send_guard env pointer_id emc_s2c_hello (proto.hello_bytes 200 (5656 ∷ [])) w.net
      ok (record w { net = net }, true)
  ]
]

-- The callbacks that the constructor sets.
unfoldable pub example_hooks : Env → Proto → Hooks Nothing
example_hooks env proto = on_msg emc_c2s_hello (answer_hello env proto) (
    on_disconnect hear_disconnect (
      on_connect hear_connect
        (record { msg_handlers = []; connect_handler = none; disconnect_handler = none })))

-- The worker that the constructor leaves, given whether the acceptor opens, is reusable, binds and listens.
unfoldable pub example_net : Env → Bool → Bool → Bool → Bool → Result Net
example_net env opened reusable bound listening =
    open_port false opened reusable bound listening (init env.allocator (1024 * 1024) 5 1000)

module _ (env : Env) (stoi : Text → Option ℕ) where
  -- The command `hello`: without a parameter it does nothing.
  unfoldable pub example_hello : Proto → Command → Net → Result Net
  example_hello proto cmd net = elim cmd.params [
    | [] ↦ ok net
    | param ∷ _ ↦ do
      pointer_id ← or_fault (stoi param) bad_argument
      send_guard env pointer_id emc_s2c_hello (proto.hello_bytes 100 (3434 ∷ [])) net
  ]

  -- `run_once` with a command.
  unfoldable pub example_obey : Proto → Command → Engine → Result Engine
  example_obey proto cmd e = do
    net ← (if same_text cmd.name hello_name then example_hello proto cmd e.net else ok e.net)
    let e = record e { net = net }
    ok (
        ask_lua env stoi testlua2_name call_check_function cmd (
          ask_lua env stoi testlua1_name call_check cmd (
            ask_lua env stoi reload_name new_example_state cmd
              (ask_lua env stoi refresh_name run_script cmd e))))

  unfoldable pub example_once : Proto → Engine → Result Engine
  example_once proto e =
      let (got, commands) = pop_front e.commands in
      let e : Engine = record e { commands = commands } in
      elim got [ none ↦ ok e | some cmd ↦ example_obey proto cmd e ]

  -- `loop`: the world, and the delay of its timer.
  unfoldable pub example_loop : Proto → Bool → ℕ → Engine → Result (Engine × Option ℕ)
  example_loop proto ec nanoseconds e = if ec then ok (e, none) else do
    e ← example_once proto e
    let spent = spend_tick nanoseconds
    if ltb spent tick_interval then ok (e, some (tick_interval - spent)) else ok (e, some 1)
