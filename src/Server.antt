-- ===== src/Server.antt =====
-- The server side of stream/src/server: its task types and the two loops of a connection.
pub mod Task
pub mod Conn
