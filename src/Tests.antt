-- ===== src/Tests.antt =====
-- The theorems about the whole repository's code, used at small concrete states.
pub mod Memory
pub mod Packets
pub mod Streams
pub mod Slots
pub mod Sessions
pub mod Consoles
pub mod Old
pub mod Echoes
pub mod Pages
pub mod Scripts
pub mod Lives
pub mod Rounds
