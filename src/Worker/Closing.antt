-- ===== src/Worker/Closing.antt =====
-- What `close` of net_worker (source/net_worker.hpp) does, by kind of slot.
use f1985gfw.Base.{
  ℕ, ◌≡◌, refl, sym, ap, ◌∙◌, List, [], ◌∷◌, ◌++◌, arith, ◌⊎◌, inl, inr, Bool, some, none,
  Option-cases, Result, ok, fault, bad_function, Fault,
}
use f1985gfw.Base.Dict.{find, find-assign}
use f1985gfw.Worker.State.{Pointer, Outward, reconnects, Net, World, Hooks}
use f1985gfw.Worker.Slot.{get_pointer, set_pointer, set_waiting, set_unconnect}
use f1985gfw.Worker.Close.{close, parse_msg}
use f1985gfw.Worker.Framing.{HasBuffer}

pub find-set_pointer :
    (id : ℕ) (p : Pointer) (w : Net) → find id (set_pointer id p w).pointers ≡ some p
unfolding set_pointer
find-set_pointer id p w = rw (find-assign id id p w.pointers) (ground arith)

pub ok-cases {ℓ} :
    {A : Type ℓ} (r : Result A) → ((v : A) × (r ≡ ok v)) ⊎ ((e : Fault) × (r ≡ fault e))
ok-cases (ok v) = inl (v, refl)
ok-cases (fault e) = inr (e, refl)

pub ok-injective {ℓ} : {A : Type ℓ} {a b : A} → ok a ≡ ok b → a ≡ b
ok-injective e = cc

-- Two states of a slot have the same receive buffer, filled as far.
pub record SameBuffer (p q : Pointer) : Type 0 where
  pub buf : q.recv_buf ≡ p.recv_buf
  pub size : q.recv_size ≡ p.recv_size

pub same_buffer : (p q : Pointer) → HasBuffer p → SameBuffer p q → HasBuffer q
same_buffer p q b s = record { header = rw s.buf b.header; within = rw (s.buf, s.size) b.within }

pub set_waiting-SameBuffer : (p : Pointer) → SameBuffer p (set_waiting p)
unfolding set_waiting
set_waiting-SameBuffer p = ground arith

pub set_unconnect-SameBuffer : (p : Pointer) → SameBuffer p (set_unconnect p)
unfolding set_unconnect
set_unconnect-SameBuffer p = ground arith

module _ {ℓ} {A : Type ℓ} (h : Hooks A) (id : ℕ) where
  -- The callbacks leave the slot as it is: those of the program send at most.
  pub record IsQuiet : Type ℓ where
    pub messages :
        (n : ℕ) (body : List ℕ) (w v : World A) (good : Bool)
        → parse_msg h id n body w ≡ ok (v, good)
        → find id v.net.pointers ≡ find id w.net.pointers
    pub disconnects :
        (w v : World A) (handler : ℕ → World A → Result (World A))
        → h.disconnect_handler ≡ some handler
        → handler id w ≡ ok v
        → find id v.net.pointers ≡ find id w.net.pointers

  module _ (w : World A) (p : Pointer) (found : find id w.net.pointers ≡ some p) where
    -- The slot of a target waits, and a timer is set.
    pub close-outward :
        (out : Outward)
        → find id w.net.outwards ≡ some out
        → close h id w
          ≡ ok (record w {
            net = record (set_pointer id (set_waiting p) w.net) {
              pending = w.net.pending ++ reconnects id w.net.reconnect_interval ∷ [];
            };
          })
    unfolding close get_pointer set_pointer
    close-outward out outward = rw (outward, close, found) refl

    -- Any other slot is freed, and the application is told.
    pub close-inward :
        (handler : ℕ → World A → Result (World A))
        → find id w.net.outwards ≡ none
        → h.disconnect_handler ≡ some handler
        → close h id w ≡ handler id (record w { net = set_pointer id (set_unconnect p) w.net })
    unfolding close get_pointer
    close-inward handler inward set = rw (inward, close, found, set) refl

    pub close-unset :
        find id w.net.outwards ≡ none
        → h.disconnect_handler ≡ none
        → close h id w ≡ fault bad_function
    unfolding close get_pointer
    close-unset inward unset = rw (inward, close, found, unset) refl

    -- close leaves the buffer of the slot as it is: it does not set its fill to zero.
    pub close-slot :
        IsQuiet
        → (v : World A) → close h id w ≡ ok v
        → (q : Pointer) × (find id v.net.pointers ≡ some q) × SameBuffer p q
    close-slot quiet v e = elim (Option-cases (find id w.net.outwards)) [
      | inl inward ↦ elim (Option-cases h.disconnect_handler) [
        | inl unset ↦ cc (close-unset inward unset)
        | inr (handler, set) ↦ (
          set_unconnect p,
          quiet.disconnects _ v handler set (sym (close-inward handler inward set) ∙ e)
              ∙ find-set_pointer id (set_unconnect p) w.net,
          set_unconnect-SameBuffer p,
        )
      ]
      | inr (out, outward) ↦ (
        set_waiting p,
        ap (λ (u : World A). find id u.net.pointers)
              (ok-injective (sym e ∙ close-outward out outward))
            ∙ find-set_pointer id (set_waiting p) w.net,
        set_waiting-SameBuffer p,
      )
    ]
