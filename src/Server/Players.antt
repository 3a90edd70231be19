-- ===== src/Server/Players.antt =====
-- server/player_mgr.h and server/player_mgr.cpp. An int32_t uid is its bit pattern, below 2 ^ 32.
use f1985gfw.Base.{ℕ, ◌≡◌, Option, none, some, arith, ◌==◌, if◌then◌else◌, Option-cases, inl, inr}
use f1985gfw.Base.Dict.{Dict, find, assign, emplace, find-assign, find-emplace}

-- EPlayerState.
pub data PlayerState : Type 0 where
  state_none online_state offline_state : PlayerState

pub record Player : Type 0 where
  pub uid : ℕ
  pub state : PlayerState

-- The constructor of `player`.
unfoldable pub new_player : ℕ → Player
new_player uid = record { uid = uid; state = state_none }

unfoldable pub online : Player → Player
online p = record p { state = online_state }

unfoldable pub offline : Player → Player
offline p = record p { state = offline_state }

-- player_mgr::enter: a new player is made at the first time.
unfoldable pub enter : ℕ → Dict Player → Dict Player
enter uid players = elim (find uid players) [
  | none ↦ emplace uid (online (new_player uid)) players
  | some p ↦ assign uid (online p) players
]

-- player_mgr::leave.
unfoldable pub leave : ℕ → Dict Player → Dict Player
leave uid players = elim (find uid players) [
  | none ↦ players
  | some p ↦ assign uid (offline p) players
]

-- The state of a player, none if there is no such player.
unfoldable pub state_of : ℕ → Dict Player → Option PlayerState
state_of uid players = elim (find uid players) [ none ↦ none | some p ↦ some p.state ]

-- After `enter` the player is there and online; all other players are as before.
pub state_of-enter :
    (j uid : ℕ) (players : Dict Player)
    → state_of j (enter uid players) ≡ (if uid == j then some online_state else state_of j players)
unfolding state_of enter online new_player
state_of-enter j uid players = elim (Option-cases (find uid players)) [
  | inl new ↦
      ground (arith, find-emplace j uid (record { uid = uid; state = online_state }) players)
  | inr (p, old) ↦ ground (arith, find-assign j uid (record p { state = online_state }) players)
]

-- After `leave` the player is offline if there is one; all other players are as before.
pub state_of-leave :
    (j uid : ℕ) (players : Dict Player)
    → state_of j (leave uid players) ≡ (
        if uid == j
        then elim (state_of uid players) [ none ↦ none | some s ↦ some offline_state ]
        else state_of j players)
unfolding state_of leave offline
state_of-leave j uid players = elim (Option-cases (find uid players)) [
  | inl new ↦ ground arith
  | inr (p, old) ↦ ground (arith, find-assign j uid (record p { state = offline_state }) players)
]
