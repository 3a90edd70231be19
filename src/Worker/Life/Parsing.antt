-- ===== src/Worker/Life/Parsing.antt =====
-- source/net_worker.hpp: a slot while it reads its buffer: it stays connected without an operation, or it is
-- closed and has what it should have.
use f1985gfw.Base.{
  ℕ, zero, suc, ◌+◌, ◌≡◌, refl, sym, ap, ◌∙◌, subst, inl, inr, Bool, true, false, some, List, drop,
  ltb, leb, if◌then◌else◌, ok, ◌>>=◌, or_fault, >>=-split, fault≢ok, Bool-cases, Option-cases,
  arith, ◌<◌, lt→ltb, ltb→lt, u16_read, out_of_bounds,
}
use f1985gfw.Base.Dict.{find}
use f1985gfw.Worker.State.{unconnect, waiting, connected, Pointer, reconnects, Net, World, Hooks}
use f1985gfw.Worker.Slot.{get_pointer, set_pointer, set_waiting, set_unconnect, is_connected}
use f1985gfw.Worker.Close.{close, parse_msg}
use f1985gfw.Worker.Parse.{consume, parse_loop, parse_data, body_at}
use f1985gfw.Worker.Closing.{
  ok-injective, close-outward, close-inward, close-unset, close-slot, find-set_pointer,
}
use f1985gfw.Worker.Contract.{IsSendOnly, IsSendOnly-IsQuiet}
use f1985gfw.Worker.Life.{free, resting, Sound, Open}
use f1985gfw.Worker.Life.Opening.{Open-set_pointer, Open-sent, Sound-sent, shut, start_op}

pub set_waiting-keeps :
    (p : Pointer) → ((set_waiting p).id ≡ p.id) × ((set_waiting p).status ≡ waiting)
unfolding set_waiting
set_waiting-keeps p = (ground arith, ground arith)

pub set_unconnect-keeps :
    (p : Pointer) → ((set_unconnect p).id ≡ p.id) × ((set_unconnect p).status ≡ unconnect)
unfolding set_unconnect
set_unconnect-keeps p = (ground arith, ground arith)

pub consume-keeps :
    (n : ℕ) (p q : Pointer) → consume n p ≡ ok q → (q.id ≡ p.id) × (q.status ≡ p.status)
unfolding consume
consume-keeps n p q e = (ground arith, ground arith)

pub got-same :
    (id : ℕ) (p q : Pointer) (w : Net)
    → find id w.pointers ≡ some p
    → get_pointer id w ≡ ok q
    → q ≡ p
unfolding get_pointer
got-same id p q w found e = sym (ok-injective (rw found at e))

-- Every slot has what it should have, and this one is not connected.
pub record Closed (id : ℕ) (w : Net) : Type 0 where
  pub sound : Sound w
  pub slot : Pointer
  pub found : find id w.pointers ≡ some slot
  pub offline : is_connected slot.status ≡ false

module _ {ℓ} {A : Type ℓ} (h : Hooks A) (only : IsSendOnly h) (id : ℕ) where
  pub close-Closed :
      (p : Pointer) (w v : World A) → Open id p w.net → close h id w ≡ ok v → Closed id v.net
  unfolding set_pointer
  close-Closed p w v o e = elim (Option-cases (find id w.net.outwards)) [
    | inr (out, target) ↦
        let done = ok-injective (sym (close-outward h id w p o.found out target) ∙ e) in
        let (same, waits) = set_waiting-keeps p in
        subst (λ (u : World A). Closed id u.net) done
          (record {
            sound =
                start_op id (set_waiting p) (reconnects id w.net.reconnect_interval)
                  (set_pointer id (set_waiting p) w.net) refl (Open-set_pointer id p _ w.net same o)
                  (rw target (resting (set_waiting p) out w.net.reconnect_interval waits));
            slot = set_waiting p;
            found = find-set_pointer id (set_waiting p) w.net;
            offline = rw waits refl;
          })
    | inl inward ↦ elim (Option-cases h.disconnect_handler) [
      | inl unset ↦ absurd (fault≢ok (sym (close-unset h id w p o.found inward unset) ∙ e))
      | inr (handler, set) ↦
          let told = sym (close-inward h id w p o.found handler inward set) ∙ e in
          let sends = only.disconnects id _ v handler set told in
          let (same, frees) = set_unconnect-keeps p in
          let opened = Open-set_pointer id p (set_unconnect p) w.net same o in
          record {
            sound =
                Sound-sent _ v.net sends
                  (shut id (set_unconnect p) _ opened (rw inward (free (set_unconnect p) frees)));
            slot = set_unconnect p;
            found =
                ap (λ (u : Net). find id u.pointers) sends
                ∙ find-set_pointer id (set_unconnect p) w.net;
            offline = rw frees refl;
          }
    ]
  ]

  -- A slot after it has read its buffer.
  pub data Ran (v : Net) : Type 0 where
    goes_on : (q : Pointer) → q.status ≡ connected → Open id q v → Ran v
    stops : Closed id v → Ran v

  parse_msg-Open :
      (p : Pointer) (n : ℕ) (body : List ℕ) (w v : World A) (good : Bool)
      → Open id p w.net
      → parse_msg h id n body w ≡ ok (v, good)
      → Open id p v.net
  parse_msg-Open p n body w v good o e =
      Open-sent id p w.net v.net (only.messages id n body w v good e) o

  -- What follows a message.
  followed :
      (fuel n : ℕ) (good : Bool) (p : Pointer) (u v : World A)
      → ((q : Pointer) (x : World A)
          → Open id q x.net
          → q.status ≡ connected
          → parse_loop h id fuel x ≡ ok v
          → Ran v.net)
      → Open id p u.net
      → p.status ≡ connected
      → (if good
          then (do
            p ← get_pointer id u.net
            p ← consume n p
            let w = record u { net = set_pointer id p u.net }
            elim (leb 4 p.recv_size) [ true ↦ parse_loop h id fuel w | false ↦ ok w ])
          else close h id u)
        ≡ ok v
      → Ran v.net
  followed fuel n false p u v loop o live e = stops (close-Closed p u v o e)
  followed fuel n true p u v loop o live e =
      let (p', got, e1) = >>=-split (get_pointer id u.net) _ e in
      let (q, eaten, e2) = >>=-split (consume n p') _ e1 in
      let same = got-same id p p' u.net o.found got in
      let (own, kept) = consume-keeps n p' q eaten in
      let opened = Open-set_pointer id p q u.net (own ∙ ap (λ (r : Pointer). r.id) same) o in
      let still_live = kept ∙ ap (λ (r : Pointer). r.status) same ∙ live in
      go q opened still_live (leb 4 q.recv_size) e2
    where
      go :
          (q : Pointer)
          → Open id q (set_pointer id q u.net)
          → q.status ≡ connected
          → (more : Bool)
          → elim more [
            | true ↦ parse_loop h id fuel (record u { net = set_pointer id q u.net })
            | false ↦ ok (record u { net = set_pointer id q u.net })
          ]
            ≡ ok v
          → Ran v.net
      go q opened live true e = loop q (record u { net = set_pointer id q u.net }) opened live e
      go q opened live false e =
          goes_on q live (subst (λ (x : World A). Open id q x.net) (ok-injective e) opened)

  parse_loop-Ran :
      (fuel : ℕ) (p : Pointer) (w v : World A)
      → Open id p w.net
      → p.status ≡ connected
      → parse_loop h id fuel w ≡ ok v
      → Ran v.net
  unfolding parse_loop
  parse_loop-Ran zero p w v o live e = absurd (fault≢ok e)
  parse_loop-Ran (suc fuel) p w v o live e =
      let (p', got, e1) = >>=-split (get_pointer id w.net) _ e in
      let same = got-same id p p' w.net o.found got in
      let (n, _, e2) = >>=-split (or_fault (u16_read p'.recv_buf) out_of_bounds) _ e1 in
      let (size, _, e3) = >>=-split (or_fault (u16_read (drop 2 p'.recv_buf)) out_of_bounds) _ e2 in
      elim (Bool-cases (ltb p'.recv_size (size + 4))) [
        | inl short ↦
            goes_on p live
              (subst (λ (u : World A). Open id p u.net) (ok-injective (rw short at e3)) o)
        | inr whole ↦
            let ((u, good), heard, e4) =
              >>=-split (parse_msg h id n (body_at p'.recv_buf size) w) _ (rw whole at e3) in
            followed fuel (size + 4) good p u v (λ q x. parse_loop-Ran fuel q x v)
              (parse_msg-Open p n _ w u good o heard) live e4
      ]

  -- In a closed slot with a part of a message, the loop does nothing.
  pub parse_loop-short :
      (fuel : ℕ) (q : Pointer) (w v : World A)
      → find id w.net.pointers ≡ some q
      → q.recv_size < 4
      → parse_loop h id (suc fuel) w ≡ ok v
      → w ≡ v
  unfolding parse_loop
  parse_loop-short fuel q w v found few e =
      let (p, got, e1) = >>=-split (get_pointer id w.net) _ e in
      let (n, _, e2) = >>=-split (or_fault (u16_read p.recv_buf) out_of_bounds) _ e1 in
      let (size, _, e3) = >>=-split (or_fault (u16_read (drop 2 p.recv_buf)) out_of_bounds) _ e2 in
      let few' =
        subst (λ (r : Pointer). r.recv_size < 4) (sym (got-same id q p w.net found got)) few in
      ok-injective (rw (lt→ltb p.recv_size (size + 4) (omega arith)) at e3)

  pub parse_data-Ran :
      (p : Pointer) (w v : World A)
      → Open id p w.net
      → p.status ≡ connected
      → parse_data h id w ≡ ok v
      → Ran v.net
  unfolding parse_data
  parse_data-Ran p w v o live e =
      let (p', got, e1) = >>=-split (get_pointer id w.net) _ e in
      let same = got-same id p p' w.net o.found got in
      elim (Bool-cases (ltb p'.recv_size 4)) [
        | inr enough ↦ parse_loop-Ran (suc p'.recv_size) p w v o live (rw enough at e1)
        | inl short ↦
            let (u, closed, e2) =
              >>=-split (close h id w) (parse_loop h id (suc p'.recv_size)) (rw short at e1) in
            let (q, found, buffer) =
              close-slot h id w p o.found (IsSendOnly-IsQuiet h id only) u closed in
            let few = ltb→lt p'.recv_size 4 short in
            let size = buffer.size ∙ ap (λ (r : Pointer). r.recv_size) (sym same) in
            stops (
              subst (λ (x : World A). Closed id x.net)
                (parse_loop-short p'.recv_size q u v found (omega (arith, size)) e2)
                (close-Closed p w u o closed))
      ]
