-- ===== src/Worker/State.antt =====
-- The state of net_worker (source/net_worker.hpp).
use Prim.Native.String.{String}
use f1985gfw.Base.{ℕ, Bool, List, Option, Result}
use f1985gfw.Base.Dict.{Dict}
use f1985gfw.Packet.{Allocator}

-- ENET_STATUS.
pub data Status : Type 0 where
  unconnect waiting connected : Status

-- `pointer`, a connection slot. `socket_open` is `m_socket.is_open()`, `ws` says that `m_ws_ptr` is not
-- null, and `recv_buf` is the memory at `m_recv_buf_ptr`, stale bytes included.
pub record Pointer : Type 0 where
  pub id : ℕ
  pub socket_open : Bool
  pub ws : Bool
  pub recv_buf : List ℕ
  pub recv_size : ℕ
  pub status : Status

-- `outward`; its timer is among the pending operations.
pub record Outward : Type 0 where
  pub name : String
  pub ip : String
  pub port : ℕ
  pub pointer_id : ℕ

-- The asynchronous operations that were started and have not completed: async_accept, async_connect,
-- async_read_some with the place and size of its buffer, and async_wait with its delay in seconds.
pub data Pending : Type 0 where
  accepts : Bool → ℕ → Pending
  connects : ℕ → Pending
  reads : ℕ → ℕ → ℕ → Pending
  reconnects : ℕ → ℕ → Pending

-- `sent` is what was written to the sockets, oldest first, each with the slot it went through.
pub record Net : Type 0 where
  pub pointers : Dict Pointer
  pub outwards : Dict Outward
  pub max_recv_size : ℕ
  pub reconnect_interval : ℕ
  pub pending : List Pending
  pub sent : List (ℕ × List ℕ)

-- The worker and the application's state.
pub record World {ℓ} (A : Type ℓ) : Type ℓ where
  pub net : Net
  pub app : A

-- msg_handler: it gets the slot and the body, and says whether the message was good.
abbrev pub MsgHandler {ℓ} : Type ℓ → Type ℓ
MsgHandler A = ℕ → List ℕ → World A → Result (World A × Bool)

-- connect_handler: it gets the slot and the peer's address and port.
abbrev pub ConnectHandler {ℓ} : Type ℓ → Type ℓ
ConnectHandler A = ℕ → String → ℕ → World A → Result (World A)

abbrev pub DisconnectHandler {ℓ} : Type ℓ → Type ℓ
DisconnectHandler A = ℕ → World A → Result (World A)

-- The callbacks: none is an empty std::function.
pub record Hooks {ℓ} (A : Type ℓ) : Type ℓ where
  pub msg_handlers : Dict (MsgHandler A)
  pub connect_handler : Option (ConnectHandler A)
  pub disconnect_handler : Option (DisconnectHandler A)

-- What the worker's environment decides: memory, which writes to a socket succeed (a failed one
-- throws), and which texts are addresses (from_string throws at others).
pub record Env : Type 0 where
  pub allocator : Allocator
  pub writable : ℕ → List ℕ → Bool
  pub is_address : String → Bool
