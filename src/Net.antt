-- ===== src/Net.antt =====
-- libeva/Net: byte buffers and connections.
pub mod Endian
pub mod Buffer
pub mod TcpConnection
pub mod TcpServer
