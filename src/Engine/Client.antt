-- ===== src/Engine/Client.antt =====
-- client/main.cpp: the world of the client, as callbacks of its worker and its start.
use Prim.Native.String.{String}
use f1985gfw.Base.{
  ℕ, ◌*◌, ◌≡◌, refl, sym, subst, Bool, true, false, Option, none, some, List, [], ◌∷◌, Result, ok,
  fault, out_of_bounds, arith, some-eq,
}
use f1985gfw.Base.Dict.{find, emplace}
use f1985gfw.Worker.State.{Net, World, Env, Hooks, MsgHandler, ConnectHandler, DisconnectHandler}
use f1985gfw.Worker.Slot.{init}
use f1985gfw.Worker.Close.{on_connect, on_disconnect, on_msg, parse_msg}
use f1985gfw.Worker.Closing.{ok-injective}
use f1985gfw.Worker.Contract.{OnlySends, IsSendOnly}
use f1985gfw.Worker.Events.{push_bullet, shoot}
use f1985gfw.Server.Sessions.{Hello, emc_s2c_hello}

-- The client's application keeps no state.
abbrev pub Nothing : Type 0
Nothing = Unit {0}

-- The handler of S2C_Hello: `msg.member(0)` aborts if there is none.
unfoldable pub hear_hello : (List ℕ → Option Hello) → MsgHandler Nothing
hear_hello parse_hello pointer_id body w = elim (parse_hello body) [
  | none ↦ ok (w, false)
  | some msg ↦ elim msg.member [ [] ↦ fault out_of_bounds | _ ∷ _ ↦ ok (w, true) ]
]

unfoldable pub hear_connect : ConnectHandler Nothing
hear_connect pointer_id ip port w = ok w

unfoldable pub hear_disconnect : DisconnectHandler Nothing
hear_disconnect pointer_id w = ok w

-- The callbacks that the constructor of `world` sets.
unfoldable pub world_hooks : (List ℕ → Option Hello) → Hooks Nothing
world_hooks parse_hello = on_msg emc_s2c_hello (hear_hello parse_hello) (
    on_disconnect hear_disconnect (
      on_connect hear_connect
        (record { msg_handlers = []; connect_handler = none; disconnect_handler = none })))

-- The worker that the constructor of `world` leaves: 100 slots of a megabyte, and one target.
unfoldable pub world_net : Env → Result Net
world_net env =
    shoot env (push_bullet "game" "127.0.0.1" 55890 (init env.allocator (1024 * 1024) 5 100))

module _ (parse_hello : List ℕ → Option Hello) where
  hear-still :
      (id : ℕ) (body : List ℕ) (w v : World Nothing) (good : Bool)
      → hear_hello parse_hello id body w ≡ ok (v, good)
      → w ≡ v
  unfolding hear_hello
  hear-still id body w v good e = ground arith

  hear_messages :
      (id n : ℕ) (body : List ℕ) (w v : World Nothing) (good : Bool)
      → parse_msg (world_hooks parse_hello) id n body w ≡ ok (v, good)
      → w ≡ v
  unfolding parse_msg world_hooks on_msg on_connect on_disconnect emplace find
  hear_messages id n body w v good e = ground (arith, hear-still id body w v good)

  hear_connect-still :
      (id : ℕ) (ip : String) (port : ℕ) (w v : World Nothing)
      → hear_connect id ip port w ≡ ok v
      → w ≡ v
  unfolding hear_connect
  hear_connect-still id ip port w v e = ok-injective e

  hear_disconnect-still : (id : ℕ) (w v : World Nothing) → hear_disconnect id w ≡ ok v → w ≡ v
  unfolding hear_disconnect
  hear_disconnect-still id w v e = ok-injective e

  only : {w v : World Nothing} → w ≡ v → OnlySends w.net v.net
  only {w = w} e = subst (λ (u : World Nothing). OnlySends w.net u.net) e refl

  -- The client's callbacks change nothing of the worker but, at most, what was sent.
  pub world_hooks-IsSendOnly : IsSendOnly (world_hooks parse_hello)
  unfolding world_hooks on_msg on_connect on_disconnect
  world_hooks-IsSendOnly = record {
    messages = λ id n body w v good e. only (hear_messages id n body w v good e);
    connects = λ id ip port w v handler set e.
        only (hear_connect-still id ip port w v (rw (sym (some-eq set)) at e));
    disconnects =
        λ id w v handler set e. only (hear_disconnect-still id w v (rw (sym (some-eq set)) at e));
  }
