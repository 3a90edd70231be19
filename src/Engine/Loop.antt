-- ===== src/Engine/Loop.antt =====
-- server/engine.cpp and client/main.cpp: the start of both programs, and their timer's loop.
use f1985gfw.Base.{
  ℕ, zero, suc, ◌-◌, ◌*◌, ltb, ◌≤◌, ◌≡◌, refl, sym, ap, ◌∙◌, subst, Bool, true, false, Option, none,
  some, List, [], ◌∷◌, drop, length, if◌then◌else◌, Result, ok, ◌>>=◌, >>=-split, arith, Bool-cases,
  inl, inr,
}
use f1985gfw.Base.Texts.{Text, same_text}
use f1985gfw.Console.{Command, pop_front}
use f1985gfw.Worker.Closing.{ok-injective}
use f1985gfw.Worker.State.{Net, Env}
use f1985gfw.Worker.Slot.{init}
use f1985gfw.Worker.Events.{open_port}
use f1985gfw.Worker.Pool.{IsTable, free_slots, init-IsTable}
use f1985gfw.Worker.Exhaustion.{start_accept-taken}
use f1985gfw.Server.Sessions.{Proto, emc_s2c_hello}
use f1985gfw.Engine.{
  Engine, new_state, spend_tick, next_delta, tick_interval, run_once, obey, say_hello, ask_lua,
  client_once, hello_name, refresh_name, reload_name, testlua1_name, testlua2_name, LuaCall,
  run_script, call_check, call_check_function,
}
use f1985gfw.Engine.Tick.{next_delta-period}

-- `m_delta`, and the delay that `m_timer` is set to, none when it is not waited for.
pub record Ticker : Type 0 where
  pub engine : Engine
  pub delta : ℕ
  pub timer : Option ℕ

-- `engine::init`, given whether the acceptor opens, is reusable, binds and listens. Nothing has set `m_delta`.
unfoldable pub engine_init : Env → ℕ → Bool → Bool → Bool → Bool → Result Ticker
engine_init env unset opened reusable bound listening = do
  net ← open_port true opened reusable bound listening (init env.allocator (1024 * 1024) 5 1000)
  ok (record {
    engine = record { commands = []; net = net; lua_calls = new_state ∷ [] };
    delta = unset;
    timer = some 1;
  })

-- The timer runs, and goes off within 16 milliseconds.
unfoldable pub IsArmed : Ticker → Type 0
IsArmed t = (d : ℕ) × (t.timer ≡ some d) × (1 ≤ d) × (d ≤ tick_interval)

module _ (env : Env) (stoi : Text → Option ℕ) where
  -- `engine::loop`: after an error of the timer there are no more rounds.
  unfoldable pub loop : Proto → Bool → ℕ → Ticker → Result Ticker
  loop proto ec nanoseconds t = if ec then ok (record t { timer = none }) else do
    e ← run_once env stoi proto t.engine
    let delta = next_delta (spend_tick nanoseconds)
    ok (record { engine = e; delta = delta; timer = some delta })

  -- `world::loop` of the client: its commands, its worker and its timer.
  unfoldable pub client_loop :
      (ℕ → List ℕ → List ℕ) → Bool → ℕ → List Command → Net → Result (List Command × Net × Option ℕ)
  client_loop hello_bytes ec nanoseconds commands net = if ec then ok (commands, net, none) else do
    (commands, net) ← client_once env stoi hello_bytes commands net
    let spent = spend_tick nanoseconds
    if ltb spent tick_interval
        then ok (commands, net, some (tick_interval - spent))
        else ok (commands, net, some 1)

  -- Rounds that take the given times.
  unfoldable pub loops : Proto → List ℕ → Ticker → Result Ticker
  loops proto [] t = ok t
  loops proto (n ∷ ns) t = loop proto false n t >>= loops proto ns

  ask_lua-commands :
      (name : Text) (call : LuaCall) (c : Command) (e : Engine)
      → (ask_lua env stoi name call c e).commands ≡ e.commands
  unfolding ask_lua
  ask_lua-commands name call c e = elim (Bool-cases (same_text c.name name)) [
    | inl same ↦ rw same refl
    | inr other ↦ rw other refl
  ]

  obey-commands :
      (proto : Proto) (c : Command) (e f : Engine)
      → obey env stoi proto c e ≡ ok f
      → f.commands ≡ e.commands
  unfolding obey
  obey-commands proto c e f h =
      let ((net, on), _, rest) =
        >>=-split
          (if same_text c.name hello_name
            then say_hello env stoi emc_s2c_hello (proto.hello_bytes 100 (3434 ∷ [])) c e.net
            else ok (e.net, true))
          _ h in
      go on (record e { net = net }) refl rest
    where
      asked : Engine → Engine
      asked e = ask_lua env stoi testlua2_name call_check_function c (
          ask_lua env stoi testlua1_name call_check c (
            ask_lua env stoi reload_name new_state c
              (ask_lua env stoi refresh_name run_script c e)))

      go :
          (on : Bool) (g : Engine)
          → g.commands ≡ e.commands
          → (if on then ok (asked g) else ok g) ≡ ok f
          → f.commands ≡ e.commands
      go true g same rest =
          ap (λ (x : Engine). x.commands) (sym (ok-injective rest))
          ∙ ask_lua-commands testlua2_name call_check_function c _
          ∙ ask_lua-commands testlua1_name call_check c _
          ∙ ask_lua-commands reload_name new_state c _
          ∙ ask_lua-commands refresh_name run_script c g
          ∙ same
      go false g same rest = ap (λ (x : Engine). x.commands) (sym (ok-injective rest)) ∙ same

  run_once-commands :
      (proto : Proto) (e f : Engine) (cs : List Command)
      → run_once env stoi proto (record e { commands = cs }) ≡ ok f
      → f.commands ≡ drop 1 cs
  unfolding run_once pop_front
  run_once-commands proto e f [] h = ap (λ (x : Engine). x.commands) (sym (ok-injective h))
  run_once-commands proto e f (c ∷ cs) h = obey-commands proto c (record e { commands = cs }) f h

  drop-drop : (n : ℕ) (cs : List Command) → drop n (drop 1 cs) ≡ drop (suc n) cs
  drop-drop zero [] = refl
  drop-drop (suc n) [] = refl
  drop-drop n (c ∷ cs) = refl

  -- Rounds without an error of the timer and without a fault take one command each from the queue, until it
  -- is empty, and the timer that runs before them runs after them, for 1 to 16 milliseconds.
  pub loops-drop :
      (proto : Proto) (ns : List ℕ) (t u : Ticker)
      → loops proto ns t ≡ ok u
      → IsArmed t
      → (u.engine.commands ≡ drop (length ns) t.engine.commands) × IsArmed u
  unfolding loops loop IsArmed
  loops-drop proto [] t u e armed = (
    ap (λ (x : Ticker). x.engine.commands) (sym (ok-injective e)),
    subst IsArmed (ok-injective e) armed,
  )
  loops-drop proto (n ∷ ns) t u e armed =
      let (v, first, rest) = >>=-split (loop proto false n t) (loops proto ns) e in
      let (f, round, done) = >>=-split (run_once env stoi proto t.engine) _ first in
      let next = ok-injective done in
      let (low, high, _, _) = next_delta-period (spend_tick n) in
      let (left, still) =
        loops-drop proto ns v u rest
          (subst IsArmed next (next_delta (spend_tick n), refl, low, high)) in
      (
        left
            ∙ ap (drop (length ns)) (
                ap (λ (x : Ticker). x.engine.commands) (sym next)
                ∙ run_once-commands proto t.engine f t.engine.commands round)
            ∙ drop-drop (length ns) t.engine.commands,
        still,
      )

-- The server starts, when its port opens, with 1000 slots of a megabyte of which one waits for a websocket
-- connection, no command, a call for a new Lua state, and a timer that goes off within 16 milliseconds.
pub engine_init-listening :
    (env : Env) (unset : ℕ)
    → (t : Ticker) × (engine_init env unset true true true true ≡ ok t)
      × IsTable t.engine.net.pointers
      × (free_slots t.engine.net.pointers ≡ 999)
      × (t.engine.commands ≡ [])
      × (t.engine.lua_calls ≡ new_state ∷ [])
      × (t.timer ≡ some 1)
unfolding engine_init open_port
engine_init-listening env unset =
    let (table, free) = init-IsTable env.allocator (1024 * 1024) 5 1000 in
    let (net, e, after, left) =
      start_accept-taken true (init env.allocator (1024 * 1024) 5 1000) table
        (omega (arith, free)) in
    (
      record {
        engine = record { commands = []; net = net; lua_calls = new_state ∷ [] };
        delta = unset;
        timer = some 1;
      },
      rw e refl,
      after,
      omega (arith, left, free),
      refl,
      refl,
      refl,
    )
