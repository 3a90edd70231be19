-- ===== src/Engine/Lasting.antt =====
-- server/engine.cpp and client/main.cpp: both programs from their start on, whatever their workers do.
use f1985gfw.Base.{ℕ, ◌*◌, ◌≡◌, refl, Bool, [], true, ok, >>=-split, subst, List, Option}
use f1985gfw.Worker.Closing.{ok-injective}
use f1985gfw.Worker.State.{World, Net, Env}
use f1985gfw.Worker.Slot.{init}
use f1985gfw.Worker.Events.{open_port}
use f1985gfw.Worker.Life.{Sound}
use f1985gfw.Worker.Life.Reach.{Steps, Steps-Sound}
use f1985gfw.Worker.Life.Targets.{init-Sound, open_port-Sound}
use f1985gfw.Worker.Life.Aiming.{shoot-Sound}
use f1985gfw.Server.Sessions as Sessions
use f1985gfw.Server.Sessions.{Proto, App, Hello}
use f1985gfw.Server.Login.{init-IsSendOnly}
use f1985gfw.Engine.Client.{Nothing, world_hooks, world_net, world_hooks-IsSendOnly}
use f1985gfw.Engine.Loop.{Ticker, engine_init}

-- The server from `engine::init` on, whether or not its port opens, and whatever its worker's operations come
-- to: each slot has the operations that its status asks for.
pub engine_init-Sound :
    (env : Env) (proto : Proto) (unset : ℕ) (opened reusable bound listening : Bool) (t : Ticker)
    (v : World App)
    → engine_init env unset opened reusable bound listening ≡ ok t
    → Steps
        (Sessions.init env proto)
        env
        (record { net = t.engine.net; app = record { sessions = []; players = [] } })
        v
    → Sound v.net
unfolding engine_init
engine_init-Sound env proto unset opened reusable bound listening t v e steps =
    let (net, starts, done) =
      >>=-split
        (open_port true opened reusable bound listening (init env.allocator (1024 * 1024) 5 1000)) _
        e in
    let sound =
      open_port-Sound env.allocator (1024 * 1024) 5 1000 true opened reusable bound listening net
        starts in
    Steps-Sound (Sessions.init env proto) env (init-IsSendOnly env proto) _ v
      (subst (λ (x : Ticker). Sound x.engine.net) (ok-injective done) sound) steps

-- The same for the client, from a start that ends without a fault.
pub world_net-Sound :
    (env : Env) (parse_hello : List ℕ → Option Hello) (net : Net) (v : World Nothing)
    → world_net env ≡ ok net
    → Steps (world_hooks parse_hello) env (record { net = net; app = tt }) v
    → Sound v.net
unfolding world_net init
world_net-Sound env parse_hello net v e steps =
    Steps-Sound (world_hooks parse_hello) env (world_hooks-IsSendOnly parse_hello) _ v
      (shoot-Sound env "game" "127.0.0.1" 55890 (init env.allocator (1024 * 1024) 5 100) net
        (init-Sound env.allocator (1024 * 1024) 5 100) refl e)
      steps
