-- ===== src/Worker/Reading.antt =====
-- handle_read of source/net_worker.hpp: how a connection's bytes become messages, however they arrive.
use f1985gfw.Base.{
  ℕ, ◌+◌, ◌-◌, ◌≤◌, ◌<◌, ◌≡◌, refl, sym, ap, ◌∙◌, subst, List, [], ◌∷◌, ◌++◌, length, take, drop,
  arith, length-append, append_assoc, ◌≢◌, true, false, Bool, some, some-eq, Result, ok, write_at,
  write_at-fits, length-write, take-write, append-nil,
}
use f1985gfw.Base.Dict.{find}
use f1985gfw.Worker.State.{Pointer, reads, World, Hooks, connected}
use f1985gfw.Worker.Slot.{get_pointer, set_pointer, read_start}
use f1985gfw.Worker.Close.{parse_msg}
use f1985gfw.Worker.Events.{handle_read}
use f1985gfw.Worker.Frames.{Msg, AllFit, AllBytes, Apart, frames, IsPartial}
use f1985gfw.Worker.Framing.{HasBuffer, unread, length-unread}
use f1985gfw.Worker.Closing.{IsQuiet, find-set_pointer, ok-injective}
use f1985gfw.Worker.Parsed.{Parsed, waits, accepted, overlaps, rejected, failed, parse_data-Parsed}

-- A part of a frame has at most 65538 bytes.
pub length-partial : (xs : List ℕ) → AllBytes xs → IsPartial xs → length xs < 65539
length-partial [] b s = omega arith
length-partial (a ∷ []) b s = omega arith
length-partial (a ∷ b ∷ []) bs s = omega arith
length-partial (a ∷ b ∷ c ∷ []) bs s = omega arith
length-partial (a ∷ b ∷ c ∷ d ∷ rest) (_, (_, (hc, (hd, _)))) s = omega arith

-- The slot after `chunk` was stored behind the unread bytes.
abbrev filled : Pointer → List ℕ → List ℕ → Pointer
filled p buf chunk = record p { recv_buf = buf; recv_size = p.recv_size + length chunk }

-- The application that keeps the messages it gets, oldest first.
abbrev pub Records : Hooks (List Msg) → ℕ → List Msg → Type 0
Records h id [] = Unit {0}
Records h id (m ∷ ms) =
    ((w : World (List Msg))
      → parse_msg h id m.number m.body w ≡ ok (record w { app = w.app ++ m ∷ [] }, true))
    × Records h id ms

-- What a read leaves: the slot's unread bytes, and the messages that the application has.
pub record Got (id : ℕ) (size : ℕ) (msgs : List Msg) (rest : List ℕ) (w : World (List Msg))
    : Type 0 where
  pub slot : Pointer
  pub found : find id w.net.pointers ≡ some slot
  pub online : slot.status ≡ connected
  pub buffer : HasBuffer slot
  pub same_size : length slot.recv_buf ≡ size
  pub bytes : unread slot ≡ rest
  pub app : w.app ≡ msgs

module _ (h : Hooks (List Msg)) (id : ℕ) where
  Parsed-Records :
      {rest : List ℕ} {ms : List Msg} {w : World (List Msg)} {r : Result (World (List Msg))}
      (size : ℕ) (p : Pointer)
      → find id w.net.pointers ≡ some p
      → p.status ≡ connected
      → length p.recv_buf ≡ size
      → Records h id ms
      → Apart ms rest
      → Parsed h id rest ms w r
      → (v : World (List Msg)) × (r ≡ ok v) × Got id size (w.app ++ ms) rest v
  Parsed-Records {w} size p found online same records apart (waits q there buffer bytes e) =
      let found_again = some-eq (sym there ∙ found) in
      (
        w,
        e,
        record {
          slot = q;
          found = there;
          online = ap (λ (s : Pointer). s.status) found_again ∙ online;
          buffer = buffer;
          same_size = ap (λ (s : Pointer). length s.recv_buf) found_again ∙ same;
          bytes = bytes;
          app = sym (append-nil w.app);
        },
      )
  Parsed-Records {w} size p found online same records apart (overlaps v e reach f) =
      absurd (omega (arith, apart.0, reach))
  Parsed-Records {rest} {w} size p found online same records apart
        (accepted {m} {ms} v p' q e there clear moved next) =
      let old = some-eq (sym there ∙ found) in
      let (u, done, got) =
        Parsed-Records size q (find-set_pointer id q v.net)
          (ap (λ (s : Pointer). s.status) moved.same ∙ ap (λ (s : Pointer). s.status) old ∙ online)
          (moved.size ∙ ap (λ (s : Pointer). length s.recv_buf) old ∙ same) records.1 apart.1
          next in
      (u, done, subst (λ msgs. Got id size msgs rest u) (kept_order v m ms w (records.0 w) e) got)
    where
      kept_order :
          (v : World (List Msg)) (m : Msg) (ms : List Msg) (w : World (List Msg))
          → parse_msg h id m.number m.body w ≡ ok (record w { app = w.app ++ m ∷ [] }, true)
          → parse_msg h id m.number m.body w ≡ ok (v, true)
          → v.app ++ ms ≡ w.app ++ m ∷ ms
      kept_order v m ms w e f =
          ap (λ (x : World (List Msg) × Bool). x.0.app ++ ms) (ok-injective (sym f ∙ e))
          ∙ append_assoc w.app (m ∷ []) ms
  Parsed-Records {w} size p found online same records apart (rejected v e f) =
      absurd (true≢false (ok-injective (sym (records.0 w) ∙ e)))
    where
      true≢false :
          {a b : World (List Msg)} → ◌≡◌ {A = World (List Msg) × Bool} (a, true) (b, false) → ⊥
      true≢false e = cc
  Parsed-Records {w} size p found online same records apart (failed e f g) = cc (records.0 w)

  -- A read of a non-empty chunk that fits behind the unread bytes of a connected slot, leaves at
  -- least 4 bytes in the buffer, and completes messages that the application records, with callbacks
  -- that leave the slot alone, and no message shorter, with its header, than what stands behind it in
  -- the buffer: the messages are recorded in order, the part of a frame that follows
  -- them waits in the buffer, and the slot is still connected.
  pub handle_read-Got :
      {size : ℕ} {msgs : List Msg} {unused : List ℕ} {w : World (List Msg)} (chunk rest : List ℕ)
      (ms : List Msg)
      → IsQuiet h id
      → (g : Got id size msgs unused w) → chunk ≢ []
      → 4 ≤ length (unused ++ chunk)
      → length (unused ++ chunk) ≤ size
      → AllFit ms
      → IsPartial rest
      → unused ++ chunk ≡ frames ms ++ rest
      → Records h id ms
      → Apart ms rest
      → (v : World (List Msg)) × (handle_read h id g.slot.recv_size (some chunk) w ≡ ok v)
        × Got id size (msgs ++ ms) rest v
  unfolding handle_read read_start get_pointer
  handle_read-Got [] rest ms quiet g nonempty long room fit partial whole records apart =
      absurd (nonempty refl)
  handle_read-Got {size} {msgs} {unused} {w} (b ∷ bs) rest ms quiet g nonempty long room fit partial
        whole records apart =
      let (v, done, got) =
        Parsed-Records size _ (find-set_pointer id _ w.net) g.online same records apart (
          parse_data-Parsed h id rest partial quiet ms stored _ (find-set_pointer id _ w.net)
            filled_buffer (omega (arith, count, length-append unused chunk)) fit filled_bytes) in
      (
        record v {
          net = record v.net {
            pending =
                v.net.pending
                ++ reads id got.slot.recv_size (v.net.max_recv_size - got.slot.recv_size) ∷ [];
          };
        },
        rw (g.found, stores, done, got.found, got.online) refl,
        record {
          slot = got.slot;
          found = got.found;
          online = got.online;
          buffer = got.buffer;
          same_size = got.same_size;
          bytes = got.bytes;
          app = got.app ∙ ap (λ (a : List Msg). a ++ ms) g.app;
        },
      )
    where
      p : Pointer
      p = g.slot

      chunk : List ℕ
      chunk = b ∷ bs

      count : length unused ≡ p.recv_size
      count = ap length (sym g.bytes) ∙ length-unread p g.buffer

      fits : p.recv_size + length chunk ≤ length p.recv_buf
      fits = omega (arith, count, length-append unused chunk, g.same_size)

      buf : List ℕ
      buf = take p.recv_size p.recv_buf ++ chunk ++ drop (p.recv_size + length chunk) p.recv_buf

      stores : write_at p.recv_buf p.recv_size chunk ≡ ok buf
      stores = write_at-fits p.recv_buf p.recv_size chunk fits

      same : length buf ≡ size
      same = length-write p.recv_buf p.recv_size chunk fits ∙ g.same_size

      stored : World (List Msg)
      stored = record w { net = set_pointer id (filled p buf chunk) w.net }

      filled_buffer : HasBuffer (filled p buf chunk)
      filled_buffer = record {
        header = omega (arith, same, g.buffer.header, g.same_size);
        within = omega (arith, fits, same, g.same_size);
      }

      filled_bytes : unread (filled p buf chunk) ≡ frames ms ++ rest
      filled_bytes =
          take-write p.recv_buf p.recv_size chunk fits
          ∙ ap (λ (xs : List ℕ). xs ++ chunk) g.bytes
          ∙ whole
