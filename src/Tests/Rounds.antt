-- ===== src/Tests/Rounds.antt =====
-- Examples for the start and the loop of server/engine.cpp, and for server/example.hpp.
use f1985gfw.Base.{ℕ, ◌≡◌, refl, true, false, none, some, List, [], ◌∷◌, drop, length, ok, arith}
use f1985gfw.Base.Texts.{same_text}
use f1985gfw.Console.{pop_front}
use f1985gfw.Worker.Life.Reach.{still}
use f1985gfw.Server.Sessions as Sessions
use f1985gfw.Engine.{call_check, run_once, obey, ask_lua, next_delta, spend_tick}
use f1985gfw.Engine.Loop.{Ticker, loop, loops, IsArmed, loops-drop, engine_init-listening}
use f1985gfw.Engine.Visits.{no_one, engine_init-sessions}
use f1985gfw.Server.Attendance.{has_session}
use f1985gfw.Worker.Presence.{online_slot}
use f1985gfw.Worker.Events.{handle_read}
use f1985gfw.Worker.State.{World}
use f1985gfw.Server.Sessions.{App}
use f1985gfw.Base.Dict.{find}
use f1985gfw.Engine.Lua.Leak.{testlua1}
use f1985gfw.Tests.Memory.{easy}
use f1985gfw.Tests.Consoles.{digit}
use f1985gfw.Tests.Sessions.{bytes_proto, client_net}

abbrev ticking : Ticker
ticking = record {
  engine = record { commands = testlua1 ∷ testlua1 ∷ []; net = client_net []; lua_calls = [] };
  delta = 0;
  timer = some 1;
}

abbrev times : List ℕ
times = 5000000 ∷ []

abbrev ticked : Ticker
ticked = record {
  engine = record { commands = testlua1 ∷ []; net = client_net []; lua_calls = call_check ∷ [] };
  delta = 11;
  timer = some 11;
}

ticks : loops easy digit bytes_proto times ticking ≡ ok ticked
unfolding loops loop run_once pop_front obey ask_lua same_text next_delta spend_tick
ticks = refl

armed : IsArmed ticking
unfolding IsArmed
armed = (1, refl, omega arith, omega arith)

loops-drop_example :
    (ticked.engine.commands ≡ drop (length times) ticking.engine.commands) × IsArmed ticked
loops-drop_example = loops-drop easy digit bytes_proto times ticking ticked ticks armed

engine_init-sessions_example :
    ((j : ℕ)
      → has_session no_one j
        ≡ online_slot (find j (engine_init-listening easy 7).0.engine.net.pointers))
    × ((id at : ℕ)
        → online_slot (find id (engine_init-listening easy 7).0.engine.net.pointers) ≡ true
        → (u : World App) × (handle_read
              (Sessions.init easy bytes_proto)
              id
              at
              none
              (record { net = (engine_init-listening easy 7).0.engine.net; app = no_one })
            ≡ ok u)
          × (has_session u.app id ≡ false))
engine_init-sessions_example =
    engine_init-sessions easy bytes_proto 7 true true true true (engine_init-listening easy 7).0
      (record { net = (engine_init-listening easy 7).0.engine.net; app = no_one })
      (engine_init-listening easy 7).1 still
