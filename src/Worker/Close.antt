-- ===== src/Worker/Close.antt =====
-- The methods of net_worker that call back into the application: close and parse_msg.
use f1985gfw.Base.{
  ℕ, Bool, false, none, some, List, [], ◌∷◌, ◌++◌, Result, ok, fault, bad_function, ◌>>=◌,
}
use f1985gfw.Base.Dict.{find, emplace}
use f1985gfw.Worker.State.{reconnects, World, Hooks, MsgHandler, ConnectHandler, DisconnectHandler}
use f1985gfw.Worker.Slot.{get_pointer, set_pointer, set_waiting, set_unconnect}

module _ {ℓ} {A : Type ℓ} where
  unfoldable pub on_connect : ConnectHandler A → Hooks A → Hooks A
  on_connect handler h = record h { connect_handler = some handler }

  -- A handler that is there already stays.
  unfoldable pub on_msg : ℕ → MsgHandler A → Hooks A → Hooks A
  on_msg msg_id handler h = record h { msg_handlers = emplace msg_id handler h.msg_handlers }

  unfoldable pub on_disconnect : DisconnectHandler A → Hooks A → Hooks A
  on_disconnect handler h = record h { disconnect_handler = some handler }

  -- `close`: an outward slot waits and tries again later, any other slot is free again and the
  -- application is told.
  unfoldable pub close : Hooks A → ℕ → World A → Result (World A)
  close h id w = elim (find id w.net.outwards) [
    | some out ↦ do
      p ← get_pointer id w.net
      let net = set_pointer id (set_waiting p) w.net
      ok (record w {
        net = record net { pending = net.pending ++ reconnects id net.reconnect_interval ∷ [] };
      })
    | none ↦ do
      p ← get_pointer id w.net
      let w = record w { net = set_pointer id (set_unconnect p) w.net }
      elim h.disconnect_handler [ none ↦ fault bad_function | some handler ↦ handler id w ]
  ]

  unfoldable pub parse_msg : Hooks A → ℕ → ℕ → List ℕ → World A → Result (World A × Bool)
  parse_msg h id msg_id body w = elim (find msg_id h.msg_handlers) [
    | none ↦ ok (w, false)
    | some handler ↦ handler id body w
  ]
