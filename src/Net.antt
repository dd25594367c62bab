-- ===== src/Net.antt =====
-- Fish/net and source/net: addresses, the buffer of a connection, the ring and the server.
pub mod Buffer
pub mod TcpAddr
pub mod Server
pub mod Uring
