-- ===== src/Tests/Streams.antt =====
-- source/net_worker.hpp at a slot that gets two messages in two chunks.
use f1985gfw.Base.{
  ℕ, ◌≡◌, refl, sym, ap, true, false, none, some, List, [], ◌∷◌, ◌++◌, replicate, arith, ok, frame,
  some-eq,
}
use f1985gfw.Base.Dict.{find}
use f1985gfw.Worker.State.{Pointer, connected, Net, World, Hooks, Pending, reads}
use f1985gfw.Worker.Close.{parse_msg, close}
use f1985gfw.Worker.Parse.{parse_data}
use f1985gfw.Worker.Events.{handle_read}
use f1985gfw.Worker.Frames.{Msg, AllFit, frames}
use f1985gfw.Worker.Closing.{IsQuiet, ok-injective}
use f1985gfw.Worker.Parsed.{Parsed, parse_data-Parsed, parse_data-short}
use f1985gfw.Worker.Reading.{Records, Got, handle_read-Got}
use f1985gfw.Worker.Delivery.{Clear, none_left, one_more, receive, joined}
use f1985gfw.Worker.Reuse.{reuse, reuse-Got}
use f1985gfw.Worker.RoundTrip.{pack_all, send-receive, pack_all-frames}
use f1985gfw.Tests.Memory.{plain, plain-IsAmple}

-- An application that keeps the messages with the numbers 1 and 2.
abbrev recorder : Hooks (List Msg)
recorder = record {
  msg_handlers =
      (
        1,
        λ id body w. ok (record w { app = w.app ++ record { number = 1; body = body } ∷ [] }, true),
      )
      ∷ (
        2,
        λ id body w. ok (record w { app = w.app ++ record { number = 2; body = body } ∷ [] }, true),
      )
      ∷ [];
  connect_handler = none;
  disconnect_handler = some (λ id w. ok w);
}

abbrev slot_of : List ℕ → ℕ → Pointer
slot_of buf size = record {
  id = 7;
  socket_open = true;
  ws = false;
  recv_buf = buf;
  recv_size = size;
  status = connected;
}

abbrev world_of : Pointer → List Pending → List Msg → World (List Msg)
world_of p pending msgs = record {
  net = record {
    pointers = (7, p) ∷ [];
    outwards = [];
    max_recv_size = 12;
    reconnect_interval = 5;
    pending = pending;
    sent = [];
  };
  app = msgs;
}

abbrev fresh : Pointer
fresh = slot_of (replicate 12 0) 0

abbrev msgs : List Msg
msgs = record { number = 1; body = 5 ∷ 6 ∷ [] } ∷ record { number = 2; body = [] } ∷ []

abbrev chunks : List (List ℕ)
chunks = (1 ∷ 0 ∷ 2 ∷ 0 ∷ 5 ∷ []) ∷ (6 ∷ 2 ∷ 0 ∷ 0 ∷ 0 ∷ []) ∷ []

abbrev at_first : World (List Msg)
at_first = world_of fresh [] []

recorder-IsQuiet : IsQuiet recorder 7
unfolding parse_msg find
recorder-IsQuiet = record {
  messages = λ n body w v good e. ground arith;
  disconnects = λ w v handler set e.
      ap (λ (u : World (List Msg)). find 7 u.net.pointers)
        (sym (ok-injective (rw (sym (some-eq set)) at e)));
}

recorder-Records : Records recorder 7 msgs
unfolding parse_msg find
recorder-Records = (λ w. refl, (λ w. refl, tt))

at_first-Got : Got 7 12 [] [] at_first
unfolding find
at_first-Got = record {
  slot = fresh;
  found = refl;
  online = refl;
  buffer = record { header = omega arith; within = omega arith };
  same_size = refl;
  bytes = refl;
  app = refl;
}

-- The states after the first chunk and after the second.
abbrev halfway : World (List Msg)
halfway = world_of (slot_of (1 ∷ 0 ∷ 2 ∷ 0 ∷ 5 ∷ replicate 7 0) 5) (reads 7 5 7 ∷ []) []

msgs-AllFit : AllFit msgs
msgs-AllFit = ((omega arith, omega arith), ((omega arith, omega arith), tt))

chunks-Clear : Clear 12 [] chunks
unfolding frames frame
chunks-Clear =
    one_more [] (1 ∷ 0 ∷ 2 ∷ 0 ∷ 5 ∷ []) (λ e. cc) (omega arith) (omega arith) tt (omega arith) refl
      tt
      (one_more msgs [] (λ e. cc) (omega arith) (omega arith) msgs-AllFit tt refl
        (omega arith, (omega arith, tt)) none_left)

msgs_packed : pack_all plain msgs ≡ ok (joined chunks)
unfolding frames frame
msgs_packed = pack_all-frames plain msgs plain-IsAmple msgs-AllFit

send-receive_example :
    (u : World (List Msg)) × (receive recorder 7 chunks at_first ≡ ok u) × Got 7 12 msgs [] u
send-receive_example =
    send-receive plain recorder 7 12 chunks at_first msgs plain-IsAmple msgs-AllFit msgs_packed
      recorder-IsQuiet recorder-Records at_first-Got chunks-Clear

handle_read-Got_example :
    (v : World (List Msg)) × (handle_read recorder 7 at_first-Got.slot.recv_size
        (some (1 ∷ 0 ∷ 2 ∷ 0 ∷ 5 ∷ []))
        at_first
      ≡ ok v)
    × Got 7 12 ([] ++ []) (1 ∷ 0 ∷ 2 ∷ 0 ∷ 5 ∷ []) v
unfolding frames
handle_read-Got_example =
    handle_read-Got recorder 7 (1 ∷ 0 ∷ 2 ∷ 0 ∷ 5 ∷ []) (1 ∷ 0 ∷ 2 ∷ 0 ∷ 5 ∷ []) [] recorder-IsQuiet
      at_first-Got (λ e. cc) (omega arith) (omega arith) tt (omega arith) refl tt tt

abbrev full_slot : Pointer
full_slot = slot_of (1 ∷ 0 ∷ 2 ∷ 0 ∷ 5 ∷ 6 ∷ 2 ∷ 0 ∷ 0 ∷ 0 ∷ 9 ∷ 0 ∷ []) 11

parse_data-Parsed_example :
    Parsed recorder 7
      (9 ∷ [])
      msgs
      (world_of full_slot [] [])
      (parse_data recorder 7 (world_of full_slot [] []))
unfolding find frames frame
parse_data-Parsed_example =
    parse_data-Parsed recorder 7 (9 ∷ []) tt recorder-IsQuiet msgs (world_of full_slot [] [])
      full_slot refl (record { header = omega arith; within = omega arith }) (omega arith)
      msgs-AllFit refl

parse_data-short_example :
    parse_data recorder 7 (world_of (slot_of (replicate 12 1) 3) [] [])
    ≡ close recorder 7 (world_of (slot_of (replicate 12 1) 3) [] [])
unfolding find
parse_data-short_example =
    parse_data-short recorder 7 recorder-IsQuiet (world_of (slot_of (replicate 12 1) 3) [] [])
      (slot_of (replicate 12 1) 3) refl (record { header = omega arith; within = omega arith })
      (omega arith)

halfway-Got : Got 7 12 [] (1 ∷ 0 ∷ 2 ∷ 0 ∷ 5 ∷ []) halfway
unfolding find
halfway-Got = record {
  slot = slot_of (1 ∷ 0 ∷ 2 ∷ 0 ∷ 5 ∷ replicate 7 0) 5;
  found = refl;
  online = refl;
  buffer = record { header = omega arith; within = omega arith };
  same_size = refl;
  bytes = refl;
  app = refl;
}

reuse-Got_example :
    (v : Net) × (reuse 7 true halfway-Got.slot halfway.net ≡ ok v)
    × Got 7 12 [] (1 ∷ 0 ∷ 2 ∷ 0 ∷ 5 ∷ []) (record { net = v; app = [] })
reuse-Got_example = reuse-Got true halfway-Got
