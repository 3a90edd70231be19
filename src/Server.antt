-- ===== src/Server.antt =====
-- server/wan_server.{h,cpp}, server/player_mgr.{h,cpp} and source/common.hpp: the sessions of the
-- connected clients, the players, and the message handlers, as callbacks of the worker.
pub mod Players
pub mod Sessions
pub mod Login
pub mod Reply
pub mod Effects
pub mod Attendance
