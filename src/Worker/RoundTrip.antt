-- ===== src/Worker/RoundTrip.antt =====
-- source/net_worker.hpp, both ends of a connection: what one worker sends, another one receives.
use f1985gfw.Base.{
  ℕ, ◌≡◌, refl, sym, ◌∙◌, List, [], ◌∷◌, ◌++◌, length, take-length, arith, append-nil, Result, ok,
  ◌>>=◌,
}
use f1985gfw.Packet.{Allocator, pack}
use f1985gfw.Packet.Pack.{IsAmple, pack-frame}
use f1985gfw.Worker.State.{World, Hooks}
use f1985gfw.Worker.Frames.{Msg, AllFit, frames}
use f1985gfw.Worker.Closing.{IsQuiet, ok-injective}
use f1985gfw.Worker.Reading.{Records, Got}
use f1985gfw.Worker.Delivery.{Clear, receive, joined, Clear-Got}

-- The bytes of a row of calls of `send`, as the socket gets them.
unfoldable pub pack_all : Allocator → List Msg → Result (List ℕ)
pack_all a [] = ok []
pack_all a (m ∷ ms) = do
  bytes ← pack a m.number m.body (length m.body)
  rest ← pack_all a ms
  ok (bytes ++ rest)

pub pack_all-frames :
    (a : Allocator) (ms : List Msg) → IsAmple a → AllFit ms → pack_all a ms ≡ ok (frames ms)
unfolding pack_all frames
pack_all-frames a [] ample fit = refl
pack_all-frames a (m ∷ ms) ample fit =
    rw
      (
        pack-frame a ample m.number m.body (length m.body) (omega arith) fit.0.1,
        pack_all-frames a ms ample fit.1,
        take-length (length m.body) m.body refl,
      )
      refl

-- What `send` packs on one side, `handle_read` unpacks on the other: with memory at hand, messages
-- whose numbers and sizes fit 16 bits, callbacks that record them and leave the slot alone, and a
-- connected slot with an empty, well-formed buffer, every read ends without a fault, the application gets
-- all the messages, in order and unchanged, and nothing is left over, in whatever chunks their bytes
-- arrive, if each chunk is non-empty, fits the buffer, leaves at least 4 bytes in it, and completes no
-- message that is shorter, with its header, than what stands behind it in the buffer.
pub send-receive :
    (a : Allocator) (h : Hooks (List Msg)) (id size : ℕ) (chunks : List (List ℕ))
    (w : World (List Msg)) (ms : List Msg)
    → IsAmple a
    → AllFit ms
    → pack_all a ms ≡ ok (joined chunks)
    → IsQuiet h id
    → Records h id ms
    → Got id size [] [] w
    → Clear size [] chunks
    → (u : World (List Msg)) × (receive h id chunks w ≡ ok u) × Got id size ms [] u
send-receive a h id size chunks w ms ample fit sent quiet records g clear =
    Clear-Got h id quiet [] [] clear ms [] g fit records tt tt (
      sym (ok-injective (sym (pack_all-frames a ms ample fit) ∙ sent))
      ∙ sym (append-nil (frames ms)))
