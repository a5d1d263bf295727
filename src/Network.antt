-- ===== src/Network.antt =====
-- src/network: message framing, the client's connection and the event loop.
pub mod Framing
pub mod TcpClient
pub mod EventLoop
pub mod Sockets
pub mod TcpServer
mod Examples
