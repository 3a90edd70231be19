-- ===== src/Worker/Contract.antt =====
-- What the callbacks of net_worker (source/net_worker.hpp) owe it: they may send, and nothing else that
-- the worker notices.
use Prim.Native.String.{String}
use f1985gfw.Base.{ℕ, ◌≡◌, ap, Bool, List, some, ok, arith}
use f1985gfw.Base.Dict.{find}
use f1985gfw.Worker.State.{Net, World, Env, Hooks, ConnectHandler, DisconnectHandler}
use f1985gfw.Worker.Slot.{send}
use f1985gfw.Worker.Close.{parse_msg}
use f1985gfw.Worker.Closing.{IsQuiet}

-- Only what was sent may differ.
abbrev pub OnlySends : Net → Net → Type 0
OnlySends w v = v ≡ record w { sent = v.sent }

pub record IsSendOnly {ℓ} {A : Type ℓ} (h : Hooks A) : Type ℓ where
  pub messages :
      (id n : ℕ) (body : List ℕ) (w v : World A) (good : Bool)
      → parse_msg h id n body w ≡ ok (v, good)
      → OnlySends w.net v.net
  pub connects :
      (id : ℕ) (ip : String) (port : ℕ) (w v : World A) (handler : ConnectHandler A)
      → h.connect_handler ≡ some handler
      → handler id ip port w ≡ ok v
      → OnlySends w.net v.net
  pub disconnects :
      (id : ℕ) (w v : World A) (handler : DisconnectHandler A)
      → h.disconnect_handler ≡ some handler
      → handler id w ≡ ok v
      → OnlySends w.net v.net

-- Such callbacks leave every slot alone.
pub IsSendOnly-IsQuiet {ℓ} : {A : Type ℓ} (h : Hooks A) (id : ℕ) → IsSendOnly h → IsQuiet h id
IsSendOnly-IsQuiet h id s = record {
  messages =
      λ n body w v good e. ap (λ (x : Net). find id x.pointers) (s.messages id n body w v good e);
  disconnects = λ w v handler set e.
      ap (λ (x : Net). find id x.pointers) (s.disconnects id w v handler set e);
}

-- So does the application when it sends.
pub send-OnlySends :
    (env : Env) (id msg_id : ℕ) (body : List ℕ) (size : ℕ) (w v : Net) (done : Bool)
    → send env id msg_id body size w ≡ ok (v, done)
    → OnlySends w v
unfolding send
send-OnlySends env id msg_id body size w v done e = ground arith
