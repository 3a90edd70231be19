-- ===== src/Lib.antt =====
-- A game server's network framework, its server and its client, and the older server that came before.
--
-- The parts and how they interact. source/data_packet.hpp packs messages. source/net_worker.hpp owns the
-- connections: a table of slots ("pointers"), some of them bound to targets to connect to; bytes that arrive
-- become messages, which are handed to callbacks. source/console_reader.hpp reads commands in a thread of
-- its own. server/wan_server.cpp and server/player_mgr.cpp are the callbacks: sessions and players.
-- source/common.hpp sends their replies. server/engine.cpp and client/main.cpp drive all of it from one
-- loop. 0old/server has its own connections (net_mgr), served by several threads through linked queues
-- (net_queue), and a table of HTTP handlers with two that keep accounts.
--
-- The files.
--   Base: lists, bytes, tests, std::unordered_map and std::map as association lists, and results that can
--     be a fault: a fault stands for undefined behaviour or for an exception that nothing catches.
--   Packet: source/data_packet.hpp. A block of memory is its bytes; m_offset and m_end_ptr are offsets.
--     `put` is operator<<, the other functions have the names of the methods.
--   Worker: source/net_worker.hpp. Worker.State is the state; Worker.Slot, Worker.Close, Worker.Parse and
--     Worker.Events are the methods under their own names, with the lambdas of async_accept, async_connect
--     and async_read_some as `handle_accept`, `handle_connect` and `handle_read`. An operation that was
--     started is in `pending`; how it ends is the argument of its handler. Worker.Frames is the wire format
--     seen abstractly: a stream is a row of messages and a part of one. Worker.Life is the whole life of a
--     worker: a relation steps by any completion of any pending operation. Worker.Presence is the
--     interface of callbacks that keep a register of connections.
--   Console: source/console_reader.hpp.
--   Server: server/wan_server.{h,cpp}, server/player_mgr.{h,cpp} and source/common.hpp. Server.Attendance
--     has its callbacks as a register of connections.
--   Engine: server/engine.{h,cpp} and client/main.cpp. Engine.Loop has the loops of both, a tick after a
--     tick; Engine.Example is server/example.hpp; Engine.Lua has init_script and the commands that call a
--     script, on a stack of Lua values, and Engine.Lua.Students the functions that a script calls.
--     Engine.Lasting and Engine.Visits put engine, server and worker together.
--   Legacy: 0old/server. Legacy.Queue has the linked queues on a heap of nodes; Legacy.Connection,
--     Legacy.Startup and Legacy.Accepting (net_mgr) use them as lists, and Legacy.Connection.Working is a
--     worker's loop; Legacy.Accounts has the HTTP handlers; Legacy.Http (net_http.hpp) has the HTTP worker,
--     with its deadline, and the server's start, table and release. Legacy.Client is the test client,
--     0old/client/main.cpp.
--   Tests: concrete states at which the theorems are used.
--
-- Parameters: the allocator (malloc and realloc may fail, and give blocks of the size that was asked for;
-- realloc keeps the old bytes), whether a write to a socket succeeds, which texts are addresses, protobuf,
-- JSON, std::stoi, the texts of system errors, how an operation of asio or Beast completes, whether a file
-- opens and what it holds, and Lua's C API: Engine.Lua takes a record of its calls (LuaApi) with laws that
-- its manual states (LuaLaws). Callbacks of the worker are functions on its state and the
-- application's; theorems on the worker alone ask of them that they leave the slot alone, and the
-- server's callbacks do.
--
-- Bounds and fuel. A size_t wraps at 2 ^ 64 and a uint16_t at 2 ^ 16. Numbers of slots and buffer sizes
-- are natural numbers, for an int32_t never comes near its bound in them. parse_data has one round of
-- fuel more than the buffer has bytes, and a round uses up at least four; the loops of console_reader
-- have as much as the line has bytes; those of the linked queues take the fuel as an argument, and one
-- round more than there are nodes is enough. A worker's loop takes as many rounds as the messages of its
-- session are worth (Legacy.Connection.Load). Words are little-endian. The memcpy of parse_data is a fault
-- where its source and destination overlap. Lua's stack has room for LUA_MINSTACK values.
--
-- Not modelled: asio, beast and the threads themselves; running and closing an io context and lua_close;
-- fields_alloc.hpp (a copy of the Beast example's allocator) and with it the storage of header fields;
-- scene_mgr (empty); net_proto (nothing uses it); in 0old/client, what follows the write; net_mgr's
-- release, which waits for threads that never end; the data race of pop_front with push_back; how many bytes
-- write_some takes; printing and logging; destructors but that of the session queue.
pub mod Base
pub mod Packet
pub mod Worker
pub mod Console
pub mod Server
pub mod Engine
pub mod Legacy
pub mod Tests
