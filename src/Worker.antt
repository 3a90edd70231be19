-- ===== src/Worker.antt =====
-- source/net_worker.hpp: the state of net_worker and of its pointers (connection slots), and what the
-- methods of both do to it. `World` joins it to the state of the application whose callbacks it calls.
pub mod State
pub mod Slot
pub mod Close
pub mod Parse
pub mod Events
pub mod Frames
pub mod Framing
pub mod Closing
pub mod Parsed
pub mod Stream
pub mod Reading
pub mod Delivery
pub mod Pool
pub mod Exhaustion
pub mod Reuse
pub mod Contract
pub mod Life
pub mod Presence
pub mod RoundTrip
