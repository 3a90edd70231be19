-- ===== src/Worker/Delivery.antt =====
-- The bytes of a connection of source/net_worker.hpp, cut anywhere by the network, against the messages
-- that they carry.
use f1985gfw.Base.{
  ℕ, ◌≤◌, ◌≡◌, sym, ap, ◌∙◌, subst, List, [], ◌∷◌, ◌++◌, length, append_assoc, ◌≢◌, some, Result,
  ok, ◌>>=◌, refl, append-nil,
}
use f1985gfw.Worker.State.{World, Hooks}
use f1985gfw.Worker.Slot.{get_pointer}
use f1985gfw.Worker.Events.{handle_read}
use f1985gfw.Worker.Frames.{Msg, AllFit, Apart, frames, IsPartial}
use f1985gfw.Worker.Closing.{IsQuiet}
use f1985gfw.Worker.Stream.{frames-prefix, frames_unique}
use f1985gfw.Worker.Reading.{Records, Got, handle_read-Got}

-- The reads of a connection, in order.
unfoldable pub receive :
    Hooks (List Msg) → ℕ → List (List ℕ) → World (List Msg) → Result (World (List Msg))
receive h id [] w = ok w
receive h id (chunk ∷ chunks) w = do
  p ← get_pointer id w.net
  w ← handle_read h id p.recv_size (some chunk) w
  receive h id chunks w

-- Chunks for a buffer of `size` bytes that holds `unused`: each is non-empty, fits behind the unread bytes,
-- leaves no fewer than 4 bytes in the buffer, and completes messages of which each can be copied over.
pub data Clear (size : ℕ) : List ℕ → List (List ℕ) → Type 0 where
  none_left : {unused : List ℕ} → Clear size unused []
  one_more :
      {unused chunk : List ℕ} {chunks : List (List ℕ)} (ms : List Msg) (rest : List ℕ)
      → chunk ≢ []
      → 4 ≤ length (unused ++ chunk)
      → length (unused ++ chunk) ≤ size
      → AllFit ms
      → IsPartial rest
      → unused ++ chunk ≡ frames ms ++ rest
      → Apart ms rest
      → Clear size rest chunks
      → Clear size unused (chunk ∷ chunks)

abbrev pub joined : List (List ℕ) → List ℕ
joined [] = []
joined (c ∷ cs) = c ++ joined cs

Records-front :
    (h : Hooks (List Msg)) (id : ℕ) (ms ns : List Msg) → Records h id (ms ++ ns) → Records h id ms
Records-front h id [] ns r = tt
Records-front h id (m ∷ ms) ns r = (r.0, Records-front h id ms ns r.1)

Records-back :
    (h : Hooks (List Msg)) (id : ℕ) (ms ns : List Msg) → Records h id (ms ++ ns) → Records h id ns
Records-back h id [] ns r = r
Records-back h id (m ∷ ms) ns r = Records-back h id ms ns r.1

module _ (h : Hooks (List Msg)) (id : ℕ) (quiet : IsQuiet h id) where
  pub Clear-Got :
      {size : ℕ} {chunks : List (List ℕ)} {w : World (List Msg)} (rest unused : List ℕ)
      → Clear size unused chunks
      → (ts msgs : List Msg) → Got id size msgs unused w
      → AllFit ts
      → Records h id ts
      → IsPartial unused
      → IsPartial rest
      → unused ++ joined chunks ≡ frames ts ++ rest
      → (u : World (List Msg)) × (receive h id chunks w ≡ ok u) × Got id size (msgs ++ ts) rest u
  unfolding frames receive get_pointer
  Clear-Got {size} {w} rest unused none_left ts msgs g fit records su sr e =
      let (done, same) =
        frames_unique [] ts unused rest tt fit su sr (sym (append-nil unused) ∙ e) in
      (
        w,
        refl,
        subst (λ r. Got id size (msgs ++ ts) r w) same
            (subst (λ ms. Got id size (msgs ++ ms) unused w) done (rw (append-nil msgs) g)),
      )
  Clear-Got {size} {w} rest unused
        (one_more {chunk} {chunks} ms part nonempty long room ms_fit partial whole apart next) ts
        msgs g fit records su sr e =
      let (more, all, more_fit, tail) =
        frames-prefix ms ts (part ++ joined chunks) rest ms_fit fit sr (
          sym (append_assoc (frames ms) part (joined chunks))
          ∙ ap (λ (xs : List ℕ). xs ++ joined chunks) (sym whole)
          ∙ append_assoc unused chunk (joined chunks)
          ∙ e) in
      let recorded = subst (Records h id) all records in
      let (v, done, got) =
        handle_read-Got h id chunk part ms quiet g nonempty long room ms_fit partial whole
          (Records-front h id ms more recorded) apart in
      let (u, later, got_all) =
        Clear-Got rest part next more (msgs ++ ms) got more_fit (Records-back h id ms more recorded)
          partial sr tail in
      (
        u,
        rw (g.found, done) later,
        subst (λ ns. Got id size ns rest u)
            (append_assoc msgs ms more ∙ ap (λ (ns : List Msg). msgs ++ ns) (sym all)) got_all,
      )
