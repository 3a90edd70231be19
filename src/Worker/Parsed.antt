-- ===== src/Worker/Parsed.antt =====
-- What pointer::parse_data of source/net_worker.hpp does to a buffer of whole messages and a rest.
use f1985gfw.Base.{
  ℕ, zero, suc, ◌+◌, ◌≤◌, ◌<◌, ◌≡◌, refl, ap, ◌∙◌, List, [], ◌∷◌, ◌++◌, length, arith, frame,
  length-append, append_assoc, ◌⊎◌, inl, inr, leb, Bool-cases, lt→ltb, le→ltb, ltb, ltb→lt, ltb→le,
  overlap, le→leb, true, false, Bool, some, Result, ok, fault, Fault,
}
use f1985gfw.Base.Dict.{find}
use f1985gfw.Worker.State.{Pointer, World, Hooks}
use f1985gfw.Worker.Slot.{get_pointer, set_pointer}
use f1985gfw.Worker.Close.{close, parse_msg}
use f1985gfw.Worker.Parse.{parse_loop, parse_data}
use f1985gfw.Worker.Closing.{IsQuiet, same_buffer, find-set_pointer, ok-cases, close-slot}
use f1985gfw.Worker.Frames.{Msg, AllFit, frames, IsPartial, length-frame, length-le-frames}
use f1985gfw.Worker.Framing.{
  HasBuffer, Moved, unread, length-unread, consume-unread, consume-overlap, frame-Reads, Reads,
  partial-Stops, short-IsPartial,
}

module _ {ℓ} {A : Type ℓ} (h : Hooks A) (id : ℕ) where
  -- The messages are handed over one by one, in order, each once and with its body, until they are
  -- used up and the rest of the bytes waits in the buffer, or one is rejected and the slot is closed,
  -- or a handler faults, or the bytes behind a message reach over it and their move is undefined. Between two messages only the buffer of the slot changes.
  pub data Parsed (rest : List ℕ) : List Msg → World A → Result (World A) → Type ℓ where
    waits :
        {w : World A} {r : Result (World A)} (p : Pointer)
        → find id w.net.pointers ≡ some p
        → HasBuffer p
        → unread p ≡ rest
        → r ≡ ok w
        → Parsed rest [] w r
    accepted :
        {m : Msg} {ms : List Msg} {w : World A} {r : Result (World A)} (v : World A) (p q : Pointer)
        → parse_msg h id m.number m.body w ≡ ok (v, true)
        → find id w.net.pointers ≡ some p
        → length (frames ms ++ rest) ≤ length m.body + 4
        → Moved p q
        → Parsed rest ms (record v { net = set_pointer id q v.net }) r
        → Parsed rest (m ∷ ms) w r
    overlaps :
        {m : Msg} {ms : List Msg} {w : World A} {r : Result (World A)} (v : World A)
        → parse_msg h id m.number m.body w ≡ ok (v, true)
        → length m.body + 4 < length (frames ms ++ rest)
        → r ≡ fault overlap
        → Parsed rest (m ∷ ms) w r
    rejected :
        {m : Msg} {ms : List Msg} {w : World A} {r : Result (World A)} (v : World A)
        → parse_msg h id m.number m.body w ≡ ok (v, false)
        → r ≡ close h id v
        → Parsed rest (m ∷ ms) w r
    failed :
        {m : Msg} {ms : List Msg} {w : World A} {r : Result (World A)} (e : Fault)
        → parse_msg h id m.number m.body w ≡ fault e
        → r ≡ fault e
        → Parsed rest (m ∷ ms) w r

  -- Where there is no whole frame, the loop changes nothing.
  parse_loop-partial :
      (fuel : ℕ) (w : World A) (p : Pointer)
      → find id w.net.pointers ≡ some p
      → HasBuffer p
      → IsPartial (unread p)
      → parse_loop h id (suc fuel) w ≡ ok w
  unfolding parse_loop get_pointer
  parse_loop-partial fuel w p e b s =
      let st = partial-Stops p b s in rw (e, st.number_read, st.size_read, st.short) refl

  msg-cases :
      (r : Result (World A × Bool))
      → ((v : World A) × (r ≡ ok (v, true)))
        ⊎ (((v : World A) × (r ≡ ok (v, false))) ⊎ ((e : Fault) × (r ≡ fault e)))
  msg-cases (ok (v, true)) = inl (v, refl)
  msg-cases (ok (v, false)) = inr (inl (v, refl))
  msg-cases (fault e) = inr (inr (e, refl))

  -- What the loop needs to know of the slot.
  record Holds (rest : List ℕ) (ms : List Msg) (w : World A) (p : Pointer) : Type ℓ where
    found : find id w.net.pointers ≡ some p
    buffer : HasBuffer p
    bytes : unread p ≡ frames ms ++ rest

  module _ (rest : List ℕ) (partial : IsPartial rest) where
    -- The test of the do-while loop.
    loop_test :
        (fuel : ℕ) (ms : List Msg) (w : World A) (q : Pointer)
        → Holds rest ms w q
        → Parsed rest ms w (parse_loop h id fuel w)
        → Parsed rest ms w
            (elim (leb 4 q.recv_size) [ true ↦ parse_loop h id fuel w | false ↦ ok w ])
    unfolding frames
    loop_test fuel [] w q k next = elim (Bool-cases (leb 4 q.recv_size)) [
      | inl more ↦ rw more next
      | inr less ↦ rw less (waits q k.found k.buffer k.bytes refl)
    ]
    loop_test fuel (m ∷ ms) w q k next =
        rw
          (le→leb 4 q.recv_size (
            omega (
              arith,
              length-unread q k.buffer,
              ap length k.bytes,
              length-frame m.number m.body,
              length-append (frame m.number m.body) (frames ms),
              length-append (frame m.number m.body ++ frames ms) rest,
            )))
          next

    parse_loop-Parsed :
        IsQuiet h id
        → (fuel : ℕ) (ms : List Msg) (w : World A) (p : Pointer) → length ms < fuel
        → AllFit ms
        → Holds rest ms w p
        → Parsed rest ms w (parse_loop h id fuel w)
    unfolding frames parse_loop get_pointer
    parse_loop-Parsed quiet zero ms w p enough fit k = absurd (omega arith)
    parse_loop-Parsed quiet (suc fuel) [] w p enough fit k =
        waits p k.found k.buffer k.bytes
          (parse_loop-partial fuel w p k.found k.buffer (rw (k.bytes) partial))
    parse_loop-Parsed quiet (suc fuel) (m ∷ ms) w p enough fit k =
        rw (k.found, reads.number, reads.size, reads.enough, reads.content)
          (elim (msg-cases (parse_msg h id m.number m.body w)) [
            | inl (v, e) ↦
                let there = quiet.messages m.number m.body w v true e ∙ k.found in
                elim (Bool-cases (ltb (length m.body + 4) (length (frames ms ++ rest)))) [
                  | inl long ↦
                      let reach = ltb→lt _ _ long in
                      overlaps v e reach (
                        rw
                          (
                            e,
                            there,
                            consume-overlap p m.number m.body (frames ms ++ rest) k.buffer split
                                reach,
                          )
                          refl)
                  | inr apart ↦
                      let clear = ltb→le _ _ apart in
                      let (q, used, buffer, bytes, same) =
                        consume-unread p m.number m.body (frames ms ++ rest) k.buffer split clear in
                      let next = record v { net = set_pointer id q v.net } in
                      let holds : Holds rest ms next q = record {
                        found = find-set_pointer id q v.net;
                        buffer = buffer;
                        bytes = bytes;
                      } in
                      accepted v p q e k.found clear same (
                        rw (e, there, used)
                          (loop_test fuel ms next q holds
                            (parse_loop-Parsed quiet fuel ms next q (omega arith) fit.1 holds)))
                ]
            | inr (inl (v, e)) ↦ rejected v e (rw e refl)
            | inr (inr (e, f)) ↦ failed e f (rw f refl)
          ])
      where
        split : unread p ≡ frame m.number m.body ++ (frames ms ++ rest)
        split = k.bytes ∙ append_assoc (frame m.number m.body) (frames ms) rest

        reads : Reads p m.number m.body
        reads = frame-Reads p m (frames ms ++ rest) k.buffer fit.0 split

    -- On a well-formed buffer of whole messages that fit 16 bits and a part of the next, at least 4
    -- bytes in all, with callbacks that leave the slot alone, parse_data hands over the messages in
    -- order, each once, and keeps the part for the next read, or stops at the first message that is
    -- rejected, which closes the slot, or whose handler faults, or behind which stand more bytes than it
    -- has with its header: their memcpy to the front overlaps, which is undefined.
    pub parse_data-Parsed :
        IsQuiet h id
        → (ms : List Msg) (w : World A) (p : Pointer) → find id w.net.pointers ≡ some p
        → HasBuffer p
        → 4 ≤ p.recv_size
        → AllFit ms
        → unread p ≡ frames ms ++ rest
        → Parsed rest ms w (parse_data h id w)
    unfolding parse_data get_pointer
    parse_data-Parsed quiet ms w p found b long fit bytes =
        rw (found, le→ltb p.recv_size 4 long)
          (parse_loop-Parsed quiet (suc p.recv_size) ms w p
            (omega (
              arith,
              length-le-frames ms,
              length-unread p b,
              ap length bytes,
              length-append (frames ms) rest,
            ))
            fit (record { found = found; buffer = b; bytes = bytes }))

  -- On a well-formed buffer, with callbacks that leave the slot alone, a read that leaves fewer than
  -- 4 bytes in it closes the slot, and does nothing else.
  pub parse_data-short :
      IsQuiet h id
      → (w : World A) (p : Pointer) → find id w.net.pointers ≡ some p
      → HasBuffer p
      → p.recv_size < 4
      → parse_data h id w ≡ close h id w
  unfolding parse_data get_pointer
  parse_data-short quiet w p found b short =
      rw (found, lt→ltb p.recv_size 4 short)
        (elim (ok-cases (close h id w)) [
          | inl (v, e) ↦
              let (q, there, same) = close-slot h id w p found quiet v e in
              rw e (
                parse_loop-partial p.recv_size v q there (same_buffer p q b same)
                  (short-IsPartial q (omega (arith, same.size))))
          | inr (f, e) ↦ rw e refl
        ])
