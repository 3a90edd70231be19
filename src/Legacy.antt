-- ===== src/Legacy.antt =====
-- The older server under 0old/server: its linked queues, connections, accounts and HTTP server, and its client.
pub mod Queue
pub mod Connection
pub mod Accounts
pub mod Startup
pub mod Accepting
pub mod Client
pub mod Http
