-- ===== src/Tests/Sessions.antt =====
-- server/wan_server.cpp and server/player_mgr.cpp, at a server with one connected client.
use f1985gfw.Base.{
  ◌==◌, false, u16_mod, ◌%◌, ℕ, ◌≤◌, ◌<◌, ◌≡◌, refl, true, false, Option, none, some, List, [], ◌∷◌,
  ◌++◌, length, take, replicate, arith, ok, frame,
}
use f1985gfw.Base.Dict.{Dict, find, assign, emplace, erase}
use f1985gfw.Worker.State.{Pointer, connected, Net, World}
use f1985gfw.Worker.Contract.{IsSendOnly}
use f1985gfw.Server.Players.{
  Player, online_state, offline_state, new_player, online, offline, enter, leave, state_of,
}
use f1985gfw.Server.Sessions.{
  Enter, int_max, Proto, App, Session, set_uid, emc_s2c_enter, send_guard, handle_enter,
  del_session, init,
}
use f1985gfw.Server.Reply.{send_guard-frame}
use f1985gfw.Server.Login.{init-IsSendOnly}
use f1985gfw.Server.Effects.{cut, enter-done, enter-online, relogin-stays, logout-offline}
use f1985gfw.Tests.Memory.{plain-IsAmple, easy}

-- A format of messages for the tests: the uid is the first byte.
abbrev pub parse_first : List ℕ → Option Enter
parse_first [] = none
parse_first (u ∷ rest) = some (record { uid = u; token = "t" })

abbrev pub bytes_proto : Proto
bytes_proto = record {
  parse_enter = parse_first;
  parse_hello = λ body. some (record { id = 1; member = body });
  enter_bytes = λ result. 8 ∷ result ∷ [];
  hello_bytes = λ id member. id ∷ length member ∷ [];
}

abbrev pub client_slot : Pointer
client_slot = record {
  id = 3;
  socket_open = false;
  ws = true;
  recv_buf = replicate 8 0;
  recv_size = 0;
  status = connected;
}

abbrev client_session : ℕ → Session
client_session uid = record { pointer_id = 3; ip = "1.2.3.4"; port = 5; uid = uid }

abbrev pub client_net : List (ℕ × List ℕ) → Net
client_net sent = record {
  pointers = (3, client_slot) ∷ [];
  outwards = [];
  max_recv_size = 8;
  reconnect_interval = 5;
  pending = [];
  sent = sent;
}

abbrev server : World App
server = record {
  net = client_net [];
  app = record { sessions = (3, client_session 0) ∷ []; players = [] };
}

init-IsSendOnly_example : IsSendOnly (init easy bytes_proto)
init-IsSendOnly_example = init-IsSendOnly easy bytes_proto

abbrev reply_bytes : List ℕ
reply_bytes = 8 ∷ 0 ∷ []

send_guard-frame_example :
    (length reply_bytes ≤ int_max
      → easy.writable 3 (frame 1 (take (length reply_bytes % u16_mod) reply_bytes)) ≡ true
      → send_guard easy 3 1 reply_bytes (client_net [])
        ≡ ok (record (client_net []) {
          sent = [] ++ (3, frame 1 (take (length reply_bytes % u16_mod) reply_bytes)) ∷ [];
        }))
    × (int_max < length reply_bytes
        → send_guard easy 3 1 reply_bytes (client_net []) ≡ ok (client_net []))
unfolding find
send_guard-frame_example =
    send_guard-frame easy 3 1 reply_bytes (client_net []) client_slot refl refl plain-IsAmple
      (omega arith)

abbrev logged_in : World App
logged_in = record {
  net = client_net ((3, frame emc_s2c_enter (cut (8 ∷ 0 ∷ []))) ∷ []);
  app = record {
    sessions = (3, client_session 42) ∷ [];
    players = (42, record { uid = 42; state = online_state }) ∷ [];
  };
}

abbrev relogged : World App
relogged = record {
  net = client_net (
      (3, frame emc_s2c_enter (cut (8 ∷ 0 ∷ [])))
      ∷ (3, frame emc_s2c_enter (cut (8 ∷ 0 ∷ [])))
      ∷ []);
  app = record {
    sessions = (3, client_session 43) ∷ [];
    players =
        (42, record { uid = 42; state = online_state })
        ∷ (43, record { uid = 43; state = online_state })
        ∷ [];
  };
}

first_login : handle_enter easy bytes_proto 3 (42 ∷ []) server ≡ ok (logged_in, true)
unfolding find assign enter set_uid online new_player emplace
first_login =
    enter-done easy bytes_proto 3 (42 ∷ []) server (record { uid = 42; token = "t" }) refl
      (client_session 0) client_slot refl refl refl plain-IsAmple (omega arith) refl

second_login : handle_enter easy bytes_proto 3 (43 ∷ []) logged_in ≡ ok (relogged, true)
unfolding find assign enter set_uid online new_player emplace
second_login =
    enter-done easy bytes_proto 3 (43 ∷ []) logged_in (record { uid = 43; token = "t" }) refl
      (client_session 42) client_slot refl refl refl plain-IsAmple (omega arith) refl

abbrev left_players : Dict Player
left_players = (42, record { uid = 42; state = offline_state }) ∷ []

first_left :
    del_session 3 logged_in
    ≡ ok (record logged_in { app = record { sessions = []; players = left_players } })
unfolding del_session find erase leave assign offline
first_left = refl

second_left :
    del_session 3 relogged
    ≡ ok (record relogged {
      app = record {
        sessions = [];
        players =
            (42, record { uid = 42; state = online_state })
            ∷ (43, record { uid = 43; state = offline_state })
            ∷ [];
      };
    })
unfolding del_session find erase leave assign offline
second_left = refl

enter-online_example :
    (s : Session) × (find 3 server.app.sessions ≡ some s)
    × (find 3 logged_in.app.sessions ≡ some (record s { uid = 42 }))
    × (state_of 42 logged_in.app.players ≡ some online_state)
    × ((j : ℕ) → (3 == j) ≡ false → find j logged_in.app.sessions ≡ find j server.app.sessions)
    × ((j : ℕ)
        → (42 == j) ≡ false
        → state_of j logged_in.app.players ≡ state_of j server.app.players)
enter-online_example =
    enter-online easy bytes_proto 3 (42 ∷ []) server logged_in true
      (record { uid = 42; token = "t" }) refl first_login

relogin-stays_example :
    state_of 42 (
      (42, record { uid = 42; state = online_state })
      ∷ (43, record { uid = 43; state = offline_state })
      ∷ [])
    ≡ some online_state
relogin-stays_example =
    relogin-stays easy bytes_proto 3 (42 ∷ []) (43 ∷ []) server logged_in relogged
      (record relogged {
        app = record {
          sessions = [];
          players =
              (42, record { uid = 42; state = online_state })
              ∷ (43, record { uid = 43; state = offline_state })
              ∷ [];
        };
      })
      true true (record { uid = 42; token = "t" }) (record { uid = 43; token = "t" }) refl refl
      first_login second_login second_left (λ e. absurd (omega arith))

abbrev left_server : World App
left_server = record logged_in { app = record { sessions = []; players = left_players } }

logout-offline_example :
    (state_of 42 left_server.app.players ≡ some offline_state)
    × (find 3 left_server.app.sessions ≡ none)
logout-offline_example =
    logout-offline easy bytes_proto 3 (42 ∷ []) server logged_in
      (record logged_in { app = record { sessions = []; players = left_players } }) true
      (record { uid = 42; token = "t" }) refl first_login first_left (omega arith)
