-- ===== src/Server/Sessions.antt =====
-- server/wan_server.h, server/wan_server.cpp and source/common.hpp. Protobuf is a parameter.
use Prim.Native.String.{String}
use f1985gfw.Base.{
  ℕ, ◌-◌, ◌^◌, ◌%◌, true, false, Option, none, some, List, [], ◌∷◌, length, ltb, if◌then◌else◌,
  Result, ok, fault, null_pointer, out_of_bounds, ◌>>=◌, or_fault, write_at, u16_mod,
}
use f1985gfw.Base.Dict.{Dict, find, assign, emplace, erase}
use f1985gfw.Packet.{create, write_data}
use f1985gfw.Worker.State.{Net, Hooks, Env, MsgHandler, ConnectHandler, DisconnectHandler}
use f1985gfw.Worker.Slot.{send}
use f1985gfw.Worker.Close.{on_connect, on_msg, on_disconnect}
use f1985gfw.Server.Players.{Player, enter, leave}

-- C2S_Enter and C2S_Hello of proto/common.proto, as the handlers read them.
pub record Enter : Type 0 where
  pub uid : ℕ
  pub token : String

pub record Hello : Type 0 where
  pub id : ℕ
  pub member : List ℕ

-- The classes that protoc generates: none is a failed ParsePartialFromArray, and the bytes of a reply
-- are what SerializePartialToArray writes.
pub record Proto : Type 0 where
  pub parse_enter : List ℕ → Option Enter
  pub parse_hello : List ℕ → Option Hello
  pub enter_bytes : ℕ → List ℕ
  pub hello_bytes : ℕ → List ℕ → List ℕ

-- EMsgCmd and EEC_Success of proto/enum_define.proto.
abbrev pub emc_c2s_enter : ℕ
emc_c2s_enter = 0

abbrev pub emc_s2c_enter : ℕ
emc_s2c_enter = 1

abbrev pub emc_c2s_hello : ℕ
emc_c2s_hello = 10000

abbrev pub emc_s2c_hello : ℕ
emc_s2c_hello = 10001

abbrev pub eec_success : ℕ
eec_success = 0

-- session.
pub record Session : Type 0 where
  pub pointer_id : ℕ
  pub ip : String
  pub port : ℕ
  pub uid : ℕ

-- g_wan_server's sessions and g_player_mgr's players.
pub record App : Type 0 where
  pub sessions : Dict Session
  pub players : Dict Player

unfoldable pub new_session : ℕ → String → ℕ → Session
new_session pointer_id ip port = record { pointer_id = pointer_id; ip = ip; port = port; uid = 0 }

unfoldable pub set_uid : ℕ → Session → Session
set_uid uid s = record s { uid = uid }

-- INT_MAX.
abbrev pub int_max : ℕ
int_max = 2 ^ 31 - 1

-- The destructor of msg_send_guard: the reply is written into a packet and sent. Its size becomes a
-- uint16_t on the way. SerializePartialToArray writes nothing and gives false for a message of more than
-- INT_MAX bytes. What `send` returns is not looked at.
unfoldable pub send_guard : Env → ℕ → ℕ → List ℕ → Net → Result Net
send_guard env pointer_id msg_id reply net = do
  (p, start) ← write_data env.allocator (create env.allocator) none (length reply)
  if ltb int_max (length reply) then ok net else do
    at ← or_fault start null_pointer
    mem ← write_at p.mem at reply
    (net, done) ← send env pointer_id msg_id mem (p.offset % u16_mod) net
    ok net

module _ (env : Env) (proto : Proto) where
  -- The reply is sent when the guard goes out of scope, after all else.
  unfoldable pub handle_enter : MsgHandler App
  handle_enter pointer_id body w = elim (proto.parse_enter body) [
    | none ↦ ok (w, false)
    | some msg ↦ do
      s ← or_fault (find pointer_id w.app.sessions) null_pointer
      let app = record w.app {
        sessions = assign pointer_id (set_uid msg.uid s) w.app.sessions;
        players = enter msg.uid w.app.players;
      }
      net ← send_guard env pointer_id emc_s2c_enter (proto.enter_bytes eec_success) w.net
      ok (record { net = net; app = app }, true)
  ]

  -- `msg.member(0)` aborts if there is none.
  unfoldable pub handle_hello : MsgHandler App
  handle_hello pointer_id body w = elim (proto.parse_hello body) [
    | none ↦ ok (w, false)
    | some msg ↦ elim msg.member [
      | [] ↦ fault out_of_bounds
      | member ∷ _ ↦ do
        net ← send_guard env pointer_id emc_s2c_hello (proto.hello_bytes 100 (3434 ∷ [])) w.net
        ok (record w { net = net }, true)
    ]
  ]

-- A session that is there already stays.
unfoldable pub add_session : ConnectHandler App
add_session pointer_id ip port w = ok (record w {
  app = record w.app {
    sessions = emplace pointer_id (new_session pointer_id ip port) w.app.sessions;
  };
})

unfoldable pub del_session : DisconnectHandler App
del_session pointer_id w = do
  s ← or_fault (find pointer_id w.app.sessions) null_pointer
  let players = if ltb 0 s.uid then leave s.uid w.app.players else w.app.players
  ok (record w { app = record { sessions = erase pointer_id w.app.sessions; players = players } })

-- wan_server::init, on a worker without callbacks.
unfoldable pub init : Env → Proto → Hooks App
init env proto = on_msg emc_c2s_hello (handle_hello env proto) (
    on_msg emc_c2s_enter (handle_enter env proto) (
      on_disconnect del_session (
        on_connect add_session
          (record { msg_handlers = []; connect_handler = none; disconnect_handler = none }))))
