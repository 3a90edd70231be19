-- ===== src/Worker/Presence.antt =====
-- source/net_worker.hpp: an application that keeps one entry for each connection.
pub mod Reading
pub mod Handlers
pub mod Reach
use Prim.Native.String.{String}
use f1985gfw.Base.{ℕ, ◌≡◌, Bool, true, false, Option, none, some, List, [], ok, ◌==◌}
use f1985gfw.Base.Dict.{find}
use f1985gfw.Worker.State.{Pointer, Net, World, Hooks, ConnectHandler, DisconnectHandler}
use f1985gfw.Worker.Slot.{is_connected}
use f1985gfw.Worker.Close.{parse_msg}

-- Whether a slot is connected.
abbrev pub online_slot : Option Pointer → Bool
online_slot none = false
online_slot (some p) = is_connected p.status

module _ {ℓ} {A : Type ℓ} (h : Hooks A) (has : A → ℕ → Bool) where
  -- Callbacks that make an entry for a slot that connects, take it away when it disconnects, and leave the
  -- entries otherwise.
  pub record IsRegister : Type ℓ where
    pub messages :
        (id n j : ℕ) (body : List ℕ) (w v : World A) (good : Bool)
        → parse_msg h id n body w ≡ ok (v, good)
        → has v.app j ≡ has w.app j
    pub connects :
        (id port : ℕ) (ip : String) (w v : World A) (handler : ConnectHandler A)
        → h.connect_handler ≡ some handler
        → handler id ip port w ≡ ok v
        → (has v.app id ≡ true) × ((j : ℕ) → (id == j) ≡ false → has v.app j ≡ has w.app j)
    pub disconnects :
        (id : ℕ) (w v : World A) (handler : DisconnectHandler A)
        → h.disconnect_handler ≡ some handler
        → handler id w ≡ ok v
        → (has v.app id ≡ false) × ((j : ℕ) → (id == j) ≡ false → has v.app j ≡ has w.app j)

  -- A worker without targets, whose connected slots are those that have an entry.
  pub record Agrees (w : World A) : Type ℓ where
    pub no_targets : w.net.outwards ≡ []
    pub entries : (j : ℕ) → has w.app j ≡ online_slot (find j w.net.pointers)
