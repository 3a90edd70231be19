-- ===== src/Tests/Lives.antt =====
-- Examples for the operations of source/net_worker.hpp, and for the start of both programs.
use f1985gfw.Base.{ℕ, replicate, ◌≡◌, refl, ◌⊎◌, true, false, none, some, [], ◌∷◌, Bool, ok}
use f1985gfw.Base.Dict.{find, assign}
use f1985gfw.Worker.State.{
  Net, World, Pointer, Outward, accepts, connects, reconnects, waiting, unconnect, Status,
}
use f1985gfw.Worker.Slot.{
  init, init_slots, init_pointer, valid, pop_pointer, set_waiting, get_pointer, set_pointer,
}
use f1985gfw.Worker.Events.{
  open_port, start_accept, refused, handle_accept, push_bullet, shoot, shoot_all, start_connect,
  handle_connect,
}
use f1985gfw.Worker.Close.{close}
use f1985gfw.Worker.Life.{Sound, mine}
use f1985gfw.Worker.Life.Reach.{leaving, Step, connected_to, Steps, still, then_step}
use f1985gfw.Worker.Life.Targets.{target-retried, init-Sound, open_port-Sound}
use f1985gfw.Worker.Life.Again.{accept-again}
use f1985gfw.Worker.Life.Aiming.{shoot-Sound}
use f1985gfw.Engine.Client.{Nothing, world_hooks, world_hooks-IsSendOnly}
use f1985gfw.Tests.Memory.{plain, easy}
use f1985gfw.Tests.Slots.{two_slots}
use f1985gfw.Tests.Consoles.{no_hello}

abbrev slot : ℕ → Status → Bool → Pointer
slot id status opened = record {
  id = id;
  socket_open = opened;
  ws = false;
  recv_buf = replicate 16 0;
  recv_size = 0;
  status = status;
}

abbrev game : Outward
game = record { name = "game"; ip = "127.0.0.1"; port = 55890; pointer_id = 1 }

-- The worker whose only target is being connected to, and the same after that has failed.
abbrev shot : Net
shot = record {
  pointers = (1, slot 1 waiting true) ∷ (2, slot 2 unconnect false) ∷ [];
  outwards = (1, game) ∷ [];
  max_recv_size = 16;
  reconnect_interval = 5;
  pending = connects 1 ∷ [];
  sent = [];
}

abbrev failed : Net
failed = record shot {
  pointers = (1, slot 1 waiting false) ∷ (2, slot 2 unconnect false) ∷ [];
  pending = reconnects 1 5 ∷ [];
}

shoots : shoot easy (push_bullet "game" "127.0.0.1" 55890 two_slots) ≡ ok shot
unfolding shoot shoot_all push_bullet start_connect get_pointer set_pointer set_waiting pop_pointer
    init init_slots init_pointer valid assign find
shoots = refl

no_target : two_slots.outwards ≡ []
unfolding init
no_target = refl

shot-Sound : Sound shot
shot-Sound =
    shoot-Sound easy "game" "127.0.0.1" 55890 two_slots shot (init-Sound plain 16 5 2) no_target
      shoots

abbrev at : Net → World Nothing
at net = record { net = net; app = tt }

fails :
    handle_connect (world_hooks no_hello) 1 true (leaving (world_hooks no_hello) easy [] (at shot))
    ≡ ok (at failed)
unfolding handle_connect close get_pointer set_pointer set_waiting assign find
fails = refl

once : Steps (world_hooks no_hello) easy (at shot) (at failed)
once = then_step {v = at shot} still (connected_to [] [] 1 true refl fails)

slot_there : find 1 failed.pointers ≡ some (slot 1 waiting false)
unfolding find
slot_there = refl

game_there : find 1 failed.outwards ≡ some game
unfolding find
game_there = refl

target-retried_example :
    (mine 1 failed.pending ≡ connects 1 ∷ [])
    ⊎ ((u : World Nothing) × Step (world_hooks no_hello) easy (at failed) u
        × (mine 1 u.net.pending ≡ connects 1 ∷ []))
target-retried_example =
    target-retried (world_hooks no_hello) (world_hooks-IsSendOnly no_hello) easy (at shot)
      (at failed) 1 (slot 1 waiting false) game shot-Sound once slot_there game_there (λ e. cc) refl

-- A worker that listens, and the same after its accept has failed.
abbrev listens : Net
listens = record shot {
  pointers = (1, slot 1 waiting false) ∷ (2, slot 2 unconnect false) ∷ [];
  outwards = [];
  pending = accepts false 1 ∷ [];
}

abbrev listens_again : Net
listens_again = record listens {
  pointers = (1, slot 1 waiting false) ∷ (2, slot 2 waiting false) ∷ [];
  pending = accepts false 2 ∷ [];
}

listening : open_port false true true true true two_slots ≡ ok listens
unfolding open_port start_accept get_pointer set_waiting pop_pointer init init_slots init_pointer
    valid assign find
listening = refl

accept_fails :
    handle_accept
      (world_hooks no_hello)
      false
      1
      refused
      (leaving (world_hooks no_hello) easy [] (at listens))
    ≡ ok (at listens_again)
unfolding handle_accept start_accept get_pointer set_waiting pop_pointer valid find
accept_fails = refl

accept-again_example :
    (j : ℕ) × (p : Pointer) × (find j listens_again.pointers ≡ some p)
    × (p.status ≡ waiting)
    × (find j listens_again.outwards ≡ none)
    × (mine j listens_again.pending ≡ accepts false j ∷ [])
accept-again_example =
    accept-again (world_hooks no_hello) (world_hooks-IsSendOnly no_hello) easy (at listens)
      (at listens) (at listens_again) [] [] false 1 refused
      (open_port-Sound plain 16 5 2 false true true true true listens listening) still refl
      accept_fails
