-- ===== src/Socket.antt =====
-- socket_examples_c.c, a module for each of its sections
pub mod EchoServer
pub mod TcpClient
pub mod ThreadServer
pub mod Udp
pub mod Nonblocking
pub mod Bandwidth
pub mod SelectServer
pub mod Dispatch
pub mod Sample
