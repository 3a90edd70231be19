-- ===== src/Worker/Presence/Reading.antt =====
-- source/net_worker.hpp: the entries of an application while a slot reads or is closed.
use f1985gfw.Base.{
  ℕ, zero, suc, ◌+◌, ◌≡◌, refl, sym, ap, ◌∙◌, subst, inl, inr, Bool, true, false, none, some, List,
  drop, ltb, leb, if◌then◌else◌, ◌==◌, ok, ◌>>=◌, or_fault, >>=-split, fault≢ok, Bool-cases,
  Option-cases, arith, u16_read, out_of_bounds, ==_iff, ltb→lt,
}
use f1985gfw.Base.Dict.{find, find-assign, find-assign_self}
use f1985gfw.Worker.State.{Pointer, Net, World, Hooks}
use f1985gfw.Worker.Slot.{get_pointer, set_pointer, set_unconnect, is_connected}
use f1985gfw.Worker.Close.{close, parse_msg}
use f1985gfw.Worker.Parse.{consume, parse_loop, parse_data, body_at}
use f1985gfw.Worker.Closing.{ok-injective, close-inward, close-unset, close-slot, find-set_pointer}
use f1985gfw.Worker.Contract.{IsSendOnly, IsSendOnly-IsQuiet}
use f1985gfw.Worker.Life.Parsing.{got-same, parse_loop-short, consume-keeps, set_unconnect-keeps}
use f1985gfw.Worker.Presence.{online_slot, IsRegister, Agrees}

-- A slot that keeps its status.
pub online-assign :
    (id j : ℕ) (p q : Pointer) (w : Net)
    → find id w.pointers ≡ some p
    → is_connected q.status ≡ is_connected p.status
    → online_slot (find j (set_pointer id q w).pointers) ≡ online_slot (find j w.pointers)
unfolding set_pointer
online-assign id j p q w found same =
    rw (find-assign j id q w.pointers) (elim (Bool-cases (id == j)) [
      | inr other ↦ rw other refl
      | inl own ↦ rw own (
          same
          ∙ ap online_slot (sym found)
          ∙ ap (λ k. online_slot (find k w.pointers)) ((==_iff id j).0 own))
    ])

module _ {ℓ} {A : Type ℓ} (h : Hooks A) (only : IsSendOnly h) (has : A → ℕ → Bool)
    (register : IsRegister h has) where
  pub Agrees-net :
      (w : World A) (net : Net)
      → net.outwards ≡ w.net.outwards
      → ((j : ℕ) → online_slot (find j net.pointers) ≡ online_slot (find j w.net.pointers))
      → Agrees h has w
      → Agrees h has (record w { net = net })
  Agrees-net w net outs slots a = record {
    no_targets = outs ∙ a.no_targets;
    entries = λ j. a.entries j ∙ sym (slots j);
  }

  Agrees-heard :
      (id n : ℕ) (body : List ℕ) (w v : World A) (good : Bool)
      → parse_msg h id n body w ≡ ok (v, good)
      → Agrees h has w
      → Agrees h has v
  Agrees-heard id n body w v good e a =
      let sends = only.messages id n body w v good e in
      record {
        no_targets = ap (λ (x : Net). x.outwards) sends ∙ a.no_targets;
        entries = λ j.
            register.messages id n j body w v good e
            ∙ a.entries j
            ∙ ap (λ (x : Net). online_slot (find j x.pointers)) (sym sends);
      }

  heard_slot :
      (id n : ℕ) (body : List ℕ) (p : Pointer) (w v : World A) (good : Bool)
      → find id w.net.pointers ≡ some p
      → parse_msg h id n body w ≡ ok (v, good)
      → find id v.net.pointers ≡ some p
  heard_slot id n body p w v good found e =
      ap (λ (x : Net). find id x.pointers) (only.messages id n body w v good e) ∙ found

  pub close-Agrees :
      (id : ℕ) (p : Pointer) (w v : World A)
      → find id w.net.pointers ≡ some p
      → close h id w ≡ ok v
      → Agrees h has w
      → Agrees h has v
  unfolding set_pointer find
  close-Agrees id p w v found e a = elim (Option-cases h.disconnect_handler) [
    | inl unset ↦ absurd (fault≢ok (sym (close-unset h id w p found inward unset) ∙ e))
    | inr (handler, set) ↦
        let told = sym (close-inward h id w p found handler inward set) ∙ e in
        let sends = only.disconnects id _ v handler set told in
        let (gone, others) = register.disconnects id _ v handler set told in
        record {
          no_targets = ap (λ (x : Net). x.outwards) sends ∙ a.no_targets;
          entries = λ j. elim (Bool-cases (id == j)) [
            | inr other ↦
                others j other
                ∙ a.entries j
                ∙ ap online_slot
                    (sym (find-assign j id (set_unconnect p) w.net.pointers ∙ rw other refl))
                ∙ ap (λ (x : Net). online_slot (find j x.pointers)) (sym sends)
            | inl own ↦
                subst (λ k. has v.app k ≡ online_slot (find k v.net.pointers)) ((==_iff id j).0 own)
                  (gone
                    ∙ sym (
                        ap (λ (x : Net). online_slot (find id x.pointers)) sends
                        ∙ ap online_slot (find-assign_self id (set_unconnect p) w.net.pointers)
                        ∙ ap is_connected (set_unconnect-keeps p).1))
          ];
        }
  ]
    where
      inward : find id w.net.outwards ≡ none
      inward = rw a.no_targets refl

  -- A slot while it reads its buffer, and what it leaves.
  followed :
      (id fuel n : ℕ) (good : Bool) (p : Pointer) (u v : World A)
      → ((q : Pointer) (x : World A)
          → find id x.net.pointers ≡ some q
          → Agrees h has x
          → parse_loop h id fuel x ≡ ok v
          → Agrees h has v)
      → find id u.net.pointers ≡ some p
      → Agrees h has u
      → (if good
          then (do
            p ← get_pointer id u.net
            p ← consume n p
            let w = record u { net = set_pointer id p u.net }
            elim (leb 4 p.recv_size) [ true ↦ parse_loop h id fuel w | false ↦ ok w ])
          else close h id u)
        ≡ ok v
      → Agrees h has v
  unfolding set_pointer
  followed id fuel n false p u v loop found a e = close-Agrees id p u v found e a
  followed id fuel n true p u v loop found a e =
      let (p', got, e1) = >>=-split (get_pointer id u.net) _ e in
      let (q, eaten, e2) = >>=-split (consume n p') _ e1 in
      let same = got-same id p p' u.net found got in
      let kept = (consume-keeps n p' q eaten).1 ∙ ap (λ (r : Pointer). r.status) same in
      let moved =
        Agrees-net u (set_pointer id q u.net) refl
          (λ j. online-assign id j p q u.net found (ap is_connected kept)) a in
      go q moved (leb 4 q.recv_size) e2
    where
      go :
          (q : Pointer)
          → Agrees h has (record u { net = set_pointer id q u.net })
          → (more : Bool)
          → elim more [
            | true ↦ parse_loop h id fuel (record u { net = set_pointer id q u.net })
            | false ↦ ok (record u { net = set_pointer id q u.net })
          ]
            ≡ ok v
          → Agrees h has v
      go q moved true e =
          loop q (record u { net = set_pointer id q u.net }) (find-set_pointer id q u.net) moved e
      go q moved false e = subst (Agrees h has) (ok-injective e) moved

  parse_loop-Agrees :
      (id fuel : ℕ) (p : Pointer) (w v : World A)
      → find id w.net.pointers ≡ some p
      → Agrees h has w
      → parse_loop h id fuel w ≡ ok v
      → Agrees h has v
  unfolding parse_loop
  parse_loop-Agrees id zero p w v found a e = absurd (fault≢ok e)
  parse_loop-Agrees id (suc fuel) p w v found a e =
      let (p', got, e1) = >>=-split (get_pointer id w.net) _ e in
      let (n, _, e2) = >>=-split (or_fault (u16_read p'.recv_buf) out_of_bounds) _ e1 in
      let (size, _, e3) = >>=-split (or_fault (u16_read (drop 2 p'.recv_buf)) out_of_bounds) _ e2 in
      elim (Bool-cases (ltb p'.recv_size (size + 4))) [
        | inl short ↦ subst (Agrees h has) (ok-injective (rw short at e3)) a
        | inr whole ↦
            let ((u, good), heard, e4) =
              >>=-split (parse_msg h id n (body_at p'.recv_buf size) w) _ (rw whole at e3) in
            followed id fuel (size + 4) good p u v (λ q x. parse_loop-Agrees id fuel q x v)
              (heard_slot id n (body_at p'.recv_buf size) p w u good found heard)
              (Agrees-heard id n (body_at p'.recv_buf size) w u good heard a) e4
      ]

  pub parse_data-Agrees :
      (id : ℕ) (p : Pointer) (w v : World A)
      → find id w.net.pointers ≡ some p
      → Agrees h has w
      → parse_data h id w ≡ ok v
      → Agrees h has v
  unfolding parse_data
  parse_data-Agrees id p w v found a e =
      let (p', got, e1) = >>=-split (get_pointer id w.net) _ e in
      let same = got-same id p p' w.net found got in
      elim (Bool-cases (ltb p'.recv_size 4)) [
        | inr enough ↦ parse_loop-Agrees id (suc p'.recv_size) p w v found a (rw enough at e1)
        | inl short ↦
            let (u, closed, e2) =
              >>=-split (close h id w) (parse_loop h id (suc p'.recv_size)) (rw short at e1) in
            let (q, there, buffer) =
              close-slot h id w p found (IsSendOnly-IsQuiet h id only) u closed in
            let few = ltb→lt p'.recv_size 4 short in
            let size = buffer.size ∙ ap (λ (r : Pointer). r.recv_size) (sym same) in
            subst (Agrees h has)
              (parse_loop-short h only id p'.recv_size q u v there (omega (arith, size)) e2)
              (close-Agrees id p w u found closed a)
      ]
